-- ===== src/Poll/HostSpacing.antt =====
-- What the host limiter of internal/poll/hostlimit.go makes of concurrent callers.
use fcfeeds.Prelude.{
  ℕ, ◌+◌, ◌≤◌, ◌≡◌, refl, sym, ap, subst, ◌∙◌, inl, inr, true, false, some, arith, All, Bool-cases,
}
use fcfeeds.Text.{Text}
use fcfeeds.Time.{Time, Duration}
use fcfeeds.Poll.HostLimit.{
  slot_at, gap_wait, Phase, idle, queued, asleep, running, World, new_world, set_phase, lock, wake,
  release, Step, pass, enters, locks, wakes, releases, Reach, here, next,
}
use fcfeeds.Poll.HostSlots.{set_phase-elim, set_phase_own, slot_at-own}
use fcfeeds.Poll.HostInvariant.{Holds, Spaced}
use fcfeeds.Poll.HostSteps.{slots_of, IsOrderly, Step-IsOrderly, running_after, wake_of}

Step-gap : {v w : World} → Step v w → w.limiter.gap ≡ v.limiter.gap
Step-gap (pass w d) = refl
Step-gap (enters w n host i) = refl
Step-gap (locks w n host q f) = refl
Step-gap (wakes w n host until q le) = refl
Step-gap (releases w n host since q) = refl

Reach-gap : {v w : World} → Reach v w → w.limiter.gap ≡ v.limiter.gap
Reach-gap here = refl
Reach-gap (next r s) = Step-gap s ∙ Reach-gap r

Reach-IsOrderly : {v w : World} → IsOrderly v → Reach v w → IsOrderly w
Reach-IsOrderly o here = o
Reach-IsOrderly o (next r s) = Step-IsOrderly s (Reach-IsOrderly o r)

new_world-IsOrderly : (gap : Duration) (start : Time) → IsOrderly (new_world gap start)
unfolding slot_at
new_world-IsOrderly gap start = record {
  callers = λ n. tt;
  alone = λ n m h x y. absurd x;
  owned = λ h e. absurd (cc (e));
  late = λ h. tt;
  past = tt;
  spaced = tt;
}

-- A caller that waits still does where another one has moved.
still_queued :
    (n k : ℕ) (g h : Text) (p : Phase) (P : ℕ → Phase)
    → Holds (P k) g
    → P n ≡ queued h
    → set_phase k p P n ≡ queued h
still_queued n k g h p P x q =
    set_phase-elim (λ y. y ≡ queued h) k p P n
      (λ e. absurd (subst (λ y. Holds y g) (ap P (sym e) ∙ q) x)) (λ d. q)

-- The caller goes on from its place in the queue to its request.
abbrev Served : World → ℕ → Text → Type 0
Served w n h = (v : World) × Reach w v × (since : Time) × (v.phase n ≡ running h since)

Served-free :
    (u w : World) (n : ℕ) (host : Text)
    → Reach u w
    → w.phase n ≡ queued host
    → (slots_of w host).mu ≡ false
    → Served u n host
Served-free u w n host r q f =
    let s = slots_of w host in
    let d = gap_wait w.limiter.gap w.now s.last in
    let locked = lock n host w in
    let later : World = record locked { now = w.now + d } in
    (
      wake n host later,
      next (next (next r (locks w n host q f)) (pass locked d)) (
          wakes later n host (w.now + d) (set_phase_own n (asleep host (w.now + d)) w.phase)
            (omega arith)),
      w.now + d,
      set_phase_own n (running host (w.now + d)) later.phase,
    )

Served-running :
    (u w : World) (n k : ℕ) (host : Text) (since : Time)
    → Reach u w
    → w.phase n ≡ queued host
    → w.phase k ≡ running host since
    → Served u n host
Served-running u w n k host since r q e =
    Served-free u (release k host since w) n host (next r (releases w k host since e))
      (still_queued n k host host idle w.phase (subst (λ p. Holds p host) (sym e) refl) q)
      (ap (λ s. s.mu) (slot_at-own host (record { mu = false; last = some w.now }) w.limiter.slots))

Served-asleep :
    (w : World) (n k : ℕ) (host : Text) (until : Time)
    → w.phase n ≡ queued host
    → w.phase k ≡ asleep host until
    → Served w n host
Served-asleep w n k host until q e =
    let later : World = record w { now = w.now + until } in
    Served-running w (wake k host later) n k host later.now
      (next (next here (pass w until)) (wakes later k host until e (omega arith)))
      (still_queued n k host host (running host later.now) w.phase
        (subst (λ p. Holds p host) (sym e) refl) q)
      (set_phase_own k (running host later.now) w.phase)

queued-Served :
    (w : World) (n : ℕ) (host : Text) → IsOrderly w → w.phase n ≡ queued host → Served w n host
queued-Served w n host o q = elim (Bool-cases (slots_of w host).mu) [
  | inl e ↦ let (k, x) = o.owned host e in held k (w.phase k) refl x
  | inr f ↦ Served-free w w n host here q f
]
  where
    held : (k : ℕ) (p : Phase) → w.phase k ≡ p → Holds p host → Served w n host
    held k idle e x = absurd x
    held k (queued g) e x = absurd x
    held k (asleep g t) e x = Served-asleep w n k host t q (e ∙ ap (λ h. asleep h t) x)
    held k (running g t) e x = Served-running w w n k host t here q (e ∙ ap (λ h. running h t) x)

-- What the limiter promises of a world.
pub record Limited (gap : Duration) (w : World) : Type 0 where
  pub spaced : Spaced gap w.history
  pub single : (n m : ℕ) (h : Text) → Holds (w.phase n) h → Holds (w.phase m) h → n ≡ m
  pub after :
      (n : ℕ) (h : Text) (since : Time)
      → w.phase n ≡ running h since
      → All (λ q. q.host ≡ h → q.stop + gap ≤ since) w.history
  pub owned : (h : Text) → (slot_at h w.limiter.slots).mu ≡ true → (n : ℕ) × Holds (w.phase n) h
  pub prompt : (n : ℕ) (h : Text) (until : Time) → w.phase n ≡ asleep h until → until ≤ w.now + gap
  pub served :
      (n : ℕ) (h : Text)
      → w.phase n ≡ queued h
      → (v : World) × Reach w v × (since : Time) × (v.phase n ≡ running h since)

-- However concurrent callers of acquire interleave: no two of them hold the slot of one host at once,
-- be it asleep or at the request; each request starts the gap or more after the end of every earlier
-- one of its host; a locked slot is that of a caller which holds it; no caller sleeps for longer
-- than the gap; and a caller that waits for a slot is never stuck: there are steps to its request.
pub Reach-Limited :
    (gap : Duration) (start : Time) (w : World) → Reach (new_world gap start) w → Limited gap w
Reach-Limited gap start w r =
    subst (λ g. Limited g w) (Reach-gap r)
      record {
        spaced = o.spaced;
        single = o.alone;
        after = running_after w o;
        owned = o.owned;
        prompt = wake_of w o;
        served = λ n h. queued-Served w n h o;
      }
  where
    o : IsOrderly w
    o = Reach-IsOrderly (new_world-IsOrderly gap start) r
