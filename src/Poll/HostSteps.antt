-- ===== src/Poll/HostSteps.antt =====
-- Each step of the callers of internal/poll/hostlimit.go keeps what holds between steps.
use fcfeeds.Prelude.{
  ℕ, ◌+◌, ◌≤◌, ◌≡◌, refl, sym, ap, subst, ◌∙◌, true, false, Option, none, some, arith, All,
}
use fcfeeds.Text.{Text}
use fcfeeds.Time.{Time, Duration}
use fcfeeds.Poll.HostLimit.{
  HostSlot, slot_at, set_slot, gap_wait, Phase, idle, queued, asleep, running, Request, World,
  set_phase, enter, lock, wake, release, Step, pass, enters, locks, wakes, releases,
}
use fcfeeds.Poll.HostSlots.{set_slot-set_at, set_at_same, slot_at-open_slot, set_at_own}
use fcfeeds.Poll.HostInvariant.{
  Holds, After, Before, Proper, Ended, Orderly, Moves, All-weaken, Orderly-passes, Orderly-enters,
  Orderly-moves,
}

abbrev pub slots_of : World → Text → HostSlot
slots_of w h = slot_at h w.limiter.slots

abbrev pub IsOrderly : World → Type 0
IsOrderly w = Orderly w.limiter.gap w.now (slots_of w) w.phase w.history

After-le : (gap : Duration) (l : Option Time) (t u : Time) → t ≤ u → After gap l t → After gap l u
After-le gap none t u h a = tt
After-le gap (some l) t u h a = omega (arith, h, a)

module _ (w : World) (o : IsOrderly w) where
  Holds-mu :
      (h : Text) (p : Phase)
      → Proper w.limiter.gap w.now (slots_of w) p
      → Holds p h
      → (slots_of w h).mu ≡ true
  Holds-mu h idle c x = absurd x
  Holds-mu h (queued g) c x = absurd x
  Holds-mu h (asleep g t) (m, a, l) x = subst (λ g. (slots_of w g).mu ≡ true) x m
  Holds-mu h (running g t) (m, a, l) x = subst (λ g. (slots_of w g).mu ≡ true) x m

  abbrev Placed : (Text → HostSlot) → (ℕ → Phase) → Type 0
  Placed S P = Orderly w.limiter.gap w.now S P w.history

  enter-IsOrderly : (n : ℕ) (host : Text) → w.phase n ≡ idle → IsOrderly (enter n host w)
  enter-IsOrderly n host i =
      subst (λ S. Placed S (set_phase n (queued host) w.phase))
        (sym (slot_at-open_slot host w.limiter.slots))
        (Orderly-enters w.limiter.gap w.now (slots_of w) w.phase w.history o n host i)

  -- a caller whose phase holds only this host
  moved :
      (n : ℕ) (p : Phase) (host : Text) (s : HostSlot)
      → Moves w.limiter.gap w.now (slots_of w) w.phase w.history o n p host s
      → Placed (λ h. slot_at h (set_slot host s w.limiter.slots)) (set_phase n p w.phase)
  moved n p host s v =
      subst (λ S. Placed S (set_phase n p w.phase)) (sym (set_slot-set_at host s w.limiter.slots))
        (Orderly-moves w.limiter.gap w.now (slots_of w) w.phase w.history o n p host s v)

  waited :
      (gap : Duration) (now : Time) (l : Option Time)
      → Before l now
      → After gap l (now + gap_wait gap now l) × (now + gap_wait gap now l ≤ now + gap)
  unfolding gap_wait
  waited gap now none h = (tt, omega arith)
  waited gap now (some l) h = (omega (arith, h), omega arith)

  lock-IsOrderly :
      (n : ℕ) (host : Text)
      → w.phase n ≡ queued host
      → (slots_of w host).mu ≡ false
      → IsOrderly (lock n host w)
  lock-IsOrderly n host q f =
      let s = slots_of w host in
      let t = w.now + gap_wait w.limiter.gap w.now s.last in
      moved n (asleep host t) host (record s { mu = true })
        record {
          mine = λ h x. absurd (subst (λ p. Holds p h) q x);
          free = λ m x. absurd (cc (f, Holds-mu host (w.phase m) (o.callers m) x));
          holds = λ h e. e;
          proper =
              subst
                (λ x. (x.mu ≡ true) × After w.limiter.gap x.last t × (t ≤ w.now + w.limiter.gap))
                (sym (set_at_own host (record s { mu = true }) (slots_of w)))
                (let (a, b) = waited w.limiter.gap w.now s.last (o.late host) in (refl, a, b));
          kept = λ e. refl;
          not_late = o.late host;
          grown = λ u e. (u, e, omega arith);
        }

  wake-IsOrderly :
      (n : ℕ) (host : Text) (until : Time)
      → w.phase n ≡ asleep host until
      → until ≤ w.now
      → IsOrderly (wake n host w)
  wake-IsOrderly n host until q le =
      subst (λ S. Placed S (set_phase n (running host w.now) w.phase))
        (set_at_same host (slots_of w))
        (Orderly-moves w.limiter.gap w.now (slots_of w) w.phase w.history o n (running host w.now)
          host (slots_of w host)
          record {
            mine = λ h x. sym (subst (λ p. Holds p h) q x);
            free = λ m x. o.alone m n host x (subst (λ p. Holds p host) (sym q) refl);
            holds = λ h e. e;
            proper =
                subst (λ S. Proper w.limiter.gap w.now S (running host w.now))
                  (sym (set_at_same host (slots_of w)))
                  (let (m, a, l) = slept in
                    (
                      m,
                      After-le w.limiter.gap (slots_of w host).last until w.now le a,
                      omega arith,
                    ));
            kept = λ e. refl;
            not_late = o.late host;
            grown = λ u e. (u, e, omega arith);
          })
    where
      slept : Proper w.limiter.gap w.now (slots_of w) (asleep host until)
      slept = subst (Proper w.limiter.gap w.now (slots_of w)) q (o.callers n)

  pub running_after :
      (n : ℕ) (host : Text) (since : Time)
      → w.phase n ≡ running host since
      → All (λ r. r.host ≡ host → r.stop + w.limiter.gap ≤ since) w.history
  running_after n host since q =
      let (m, a, l) = subst (Proper w.limiter.gap w.now (slots_of w)) q (o.callers n) in
      All-weaken (Ended (slots_of w)) (λ r. r.host ≡ host → r.stop + w.limiter.gap ≤ since)
        w.history (λ r e h. ended_before r e h a) o.past
    where
      ended_before :
          (r : Request)
          → Ended (slots_of w) r
          → r.host ≡ host
          → After w.limiter.gap (slots_of w host).last since
          → r.stop + w.limiter.gap ≤ since
      ended_before r (t, e, le) h a =
          let b : t + w.limiter.gap ≤ since =
            subst (λ x. After w.limiter.gap x since) (ap (λ g. (slots_of w g).last) (sym h) ∙ e)
              a in
          omega (arith, b, le)

  release-IsOrderly :
      (n : ℕ) (host : Text) (since : Time)
      → w.phase n ≡ running host since
      → IsOrderly (release n host since w)
  release-IsOrderly n host since q =
      let v =
        moved n idle host (record { mu = false; last = some w.now })
          record {
            mine = λ h x. sym (subst (λ p. Holds p h) q x);
            free = λ m x. o.alone m n host x (subst (λ p. Holds p host) (sym q) refl);
            holds = λ h e. absurd e;
            proper = tt;
            kept = λ e. absurd (cc (e));
            not_late = omega arith;
            grown = λ u e. (w.now, refl, subst (λ x. Before x w.now) e (o.late host));
          } in
      record {
        callers = v.callers;
        alone = v.alone;
        owned = v.owned;
        late = v.late;
        past = (
          (
            w.now,
            ap (λ x. x.last)
                (ap (λ S. S host) (set_slot-set_at host released w.limiter.slots)
                  ∙ set_at_own host released (slots_of w)),
            omega arith,
          ),
          v.past,
        );
        spaced = (running_after n host since q, o.spaced);
      }
    where
      released : HostSlot
      released = record { mu = false; last = some w.now }

  pub wake_of :
      (n : ℕ) (host : Text) (until : Time)
      → w.phase n ≡ asleep host until
      → until ≤ w.now + w.limiter.gap
  wake_of n host until q =
      let (m, a, l) = subst (Proper w.limiter.gap w.now (slots_of w)) q (o.callers n) in l

pub Step-IsOrderly : {v w : World} → Step v w → IsOrderly v → IsOrderly w
Step-IsOrderly (pass w d) o = Orderly-passes w.limiter.gap w.now (slots_of w) w.phase w.history o d
Step-IsOrderly (enters w n host i) o = enter-IsOrderly w o n host i
Step-IsOrderly (locks w n host q f) o = lock-IsOrderly w o n host q f
Step-IsOrderly (wakes w n host until q le) o = wake-IsOrderly w o n host until q le
Step-IsOrderly (releases w n host since q) o = release-IsOrderly w o n host since q
