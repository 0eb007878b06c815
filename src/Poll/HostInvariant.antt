-- ===== src/Poll/HostInvariant.antt =====
-- What holds of the slots and callers of internal/poll/hostlimit.go between any two steps.
use fcfeeds.Prelude.{
  ℕ, ◌+◌, ◌≤◌, ◌≡◌, ◌≢◌, refl, sym, ap, subst, ◌∙◌, ◌⊎◌, inl, inr, true, Option, none, some, List,
  [], ◌∷◌, arith, All,
}
use fcfeeds.Text.{Text}
use fcfeeds.Time.{Time, Duration}
use fcfeeds.Poll.HostLimit.{HostSlot, Phase, idle, queued, asleep, running, Request, set_phase}
use fcfeeds.Poll.HostSlots.{set_at, set_at-elim, set_phase-elim}

abbrev pub Holds : Phase → Text → Type 0
Holds idle h = ⊥
Holds (queued g) h = ⊥
Holds (asleep g t) h = g ≡ h
Holds (running g t) h = g ≡ h

-- At least the gap after the last release.
abbrev pub After : Duration → Option Time → Time → Type 0
After gap none t = Unit
After gap (some l) t = l + gap ≤ t

abbrev pub Before : Option Time → Time → Type 0
Before none t = Unit
Before (some l) t = l ≤ t

-- Each request starts the gap after the end of every earlier one of its host.
abbrev pub Spaced : Duration → List Request → Type 0
Spaced gap [] = Unit
Spaced gap (r ∷ rs) = All (λ q. q.host ≡ r.host → q.stop + gap ≤ r.start) rs × Spaced gap rs

abbrev pub Proper : Duration → Time → (Text → HostSlot) → Phase → Type 0
Proper gap now S idle = Unit
Proper gap now S (queued h) = Unit
Proper gap now S (asleep h t) = ((S h).mu ≡ true) × After gap (S h).last t × (t ≤ now + gap)
Proper gap now S (running h t) = ((S h).mu ≡ true) × After gap (S h).last t × (t ≤ now)

abbrev pub Ended : (Text → HostSlot) → Request → Type 0
Ended S q = (t : Time) × ((S q.host).last ≡ some t) × (q.stop ≤ t)

pub record Orderly (gap : Duration) (now : Time) (S : Text → HostSlot) (P : ℕ → Phase)
    (rs : List Request) : Type 0 where
  pub callers : (n : ℕ) → Proper gap now S (P n)
  pub alone : (n m : ℕ) (h : Text) → Holds (P n) h → Holds (P m) h → n ≡ m
  pub owned : (h : Text) → (S h).mu ≡ true → (n : ℕ) × Holds (P n) h
  pub late : (h : Text) → Before (S h).last now
  pub past : All (Ended S) rs
  pub spaced : Spaced gap rs

pub All-weaken {ℓ κ} :
    {A : Type ℓ} (P Q : A → Type κ) (xs : List A) → ((x : A) → P x → Q x) → All P xs → All Q xs
All-weaken P Q [] f h = tt
All-weaken P Q (x ∷ xs) f (h, hs) = (f x h, All-weaken P Q xs f hs)

module _ (gap : Duration) (now : Time) (S : Text → HostSlot) (P : ℕ → Phase) (rs : List Request)
    (o : Orderly gap now S P rs) where
  Proper-later : (d : Duration) (p : Phase) → Proper gap now S p → Proper gap (now + d) S p
  Proper-later d idle h = tt
  Proper-later d (queued g) h = tt
  Proper-later d (asleep g t) (m, a, l) = (m, a, omega (arith, l))
  Proper-later d (running g t) (m, a, l) = (m, a, omega (arith, l))

  Before-later : (d : Duration) (l : Option Time) → Before l now → Before l (now + d)
  Before-later d none h = tt
  Before-later d (some l) h = omega (arith, h)

  pub Orderly-passes : (d : Duration) → Orderly gap (now + d) S P rs
  Orderly-passes d = record {
    callers = λ n. Proper-later d (P n) (o.callers n);
    alone = o.alone;
    owned = o.owned;
    late = λ h. Before-later d ((S h).last) (o.late h);
    past = o.past;
    spaced = o.spaced;
  }

  pub Orderly-enters :
      (n : ℕ) (host : Text) → P n ≡ idle → Orderly gap now S (set_phase n (queued host) P) rs
  Orderly-enters n host i =
      let held : (m : ℕ) (h : Text) → Holds (set_phase n (queued host) P m) h → Holds (P m) h =
        λ m h.
          set_phase-elim (λ p. Holds p h → Holds (P m) h) n (queued host) P m (λ e x. absurd x)
            (λ e x. x) in
      record {
        callers =
            λ m. set_phase-elim (Proper gap now S) n (queued host) P m (λ e. tt) (λ e. o.callers m);
        alone = λ a b h x y. o.alone a b h (held a h x) (held b h y);
        owned = λ h e.
            let (k, x) = o.owned h e in
            (
              k,
              set_phase-elim (λ p. Holds p h) n (queued host) P k
                  (λ q. absurd (subst (λ p. Holds p h) (ap P q ∙ i) x)) (λ q. x),
            );
        late = o.late;
        past = o.past;
        spaced = o.spaced;
      }

  -- A caller moves on, with a change to the slot of its host, which no other caller holds.
  pub record Moves (n : ℕ) (p : Phase) (host : Text) (s : HostSlot) : Type 0 where
    pub mine : (h : Text) → Holds (P n) h → h ≡ host
    pub free : (m : ℕ) → Holds (P m) host → m ≡ n
    pub holds : (h : Text) → Holds p h → host ≡ h
    pub proper : Proper gap now (set_at host s S) p
    pub kept : s.mu ≡ true → Holds p host
    pub not_late : Before s.last now
    pub grown : (t : Time) → (S host).last ≡ some t → (u : Time) × (s.last ≡ some u) × (t ≤ u)

  module _ (n : ℕ) (p : Phase) (host : Text) (s : HostSlot) (v : Moves n p host s) where
    elsewhere :
        (q : Phase) → ¬ Holds q host → Proper gap now S q → Proper gap now (set_at host s S) q
    elsewhere idle f c = tt
    elsewhere (queued h) f c = tt
    elsewhere (asleep h t) f c =
        set_at-elim (λ x. (x.mu ≡ true) × After gap x.last t × (t ≤ now + gap)) host s S h
          (λ e. absurd (f (sym e))) (λ e. c)
    elsewhere (running h t) f c =
        set_at-elim (λ x. (x.mu ≡ true) × After gap x.last t × (t ≤ now)) host s S h
          (λ e. absurd (f (sym e))) (λ e. c)

    holder :
        (m : ℕ) (h : Text)
        → Holds (set_phase n p P m) h
        → ((m ≡ n) × (host ≡ h)) ⊎ ((m ≢ n) × Holds (P m) h)
    holder m h =
        set_phase-elim (λ q. Holds q h → ((m ≡ n) × (host ≡ h)) ⊎ ((m ≢ n) × Holds (P m) h)) n p P m
          (λ e x. inl (e, v.holds h x)) (λ e x. inr (e, x))

    same_holder :
        (a b : ℕ) (h : Text)
        → ((a ≡ n) × (host ≡ h)) ⊎ ((a ≢ n) × Holds (P a) h)
        → ((b ≡ n) × (host ≡ h)) ⊎ ((b ≢ n) × Holds (P b) h)
        → a ≡ b
    same_holder a b h (inl (x, e)) (inl (y, f)) = x ∙ sym y
    same_holder a b h (inl (x, e)) (inr (y, f)) =
        absurd (y (v.free b (subst (λ g. Holds (P b) g) (sym e) f)))
    same_holder a b h (inr (x, e)) (inl (y, f)) =
        absurd (x (v.free a (subst (λ g. Holds (P a) g) (sym f) e)))
    same_holder a b h (inr (x, e)) (inr (y, f)) = o.alone a b h e f

    owner : (h : Text) → (set_at host s S h).mu ≡ true → (k : ℕ) × Holds (set_phase n p P k) h
    owner h =
        set_at-elim (λ x. x.mu ≡ true → (k : ℕ) × Holds (set_phase n p P k) h) host s S h
          (λ e m. (
            n,
            set_phase-elim (λ q. Holds q h) n p P n (λ d. subst (Holds p) e (v.kept m))
                (λ d. absurd (d refl)),
          ))
          (λ f m.
            let (k, x) = o.owned h m in
            (
              k,
              set_phase-elim (λ q. Holds q h) n p P k
                  (λ e. absurd (f (sym (v.mine h (subst (λ j. Holds (P j) h) e x))))) (λ d. x),
            ))

    Ended-moves : (q : Request) → Ended S q → Ended (set_at host s S) q
    Ended-moves q (t, e, l) =
        set_at-elim (λ x. (u : Time) × (x.last ≡ some u) × (q.stop ≤ u)) host s S q.host
          (λ d.
            let (u, f, g) = v.grown t (ap (λ h. (S h).last) d ∙ e) in (u, f, omega (arith, l, g)))
          (λ d. (t, e, l))

    pub Orderly-moves : Orderly gap now (set_at host s S) (set_phase n p P) rs
    Orderly-moves = record {
      callers = λ m.
          set_phase-elim (Proper gap now (set_at host s S)) n p P m (λ e. v.proper)
            (λ d. elsewhere (P m) (λ x. d (v.free m x)) (o.callers m));
      alone = λ a b h x y. same_holder a b h (holder a h x) (holder b h y);
      owned = owner;
      late = λ h. set_at-elim (λ x. Before x.last now) host s S h (λ e. v.not_late) (λ e. o.late h);
      past = All-weaken (Ended S) (Ended (set_at host s S)) rs Ended-moves o.past;
      spaced = o.spaced;
    }
