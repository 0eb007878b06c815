-- ===== src/Poll/HostSlots.antt =====
-- Lookups after a change of a slot or of a phase, for internal/poll/hostlimit.go.
use fcfeeds.Prelude.{
  ℕ, ◌≡◌, ◌≢◌, refl, sym, ap, subst, ◌∙◌, inl, inr, Bool, true, false, [], ◌∷◌, if◌then◌else◌, ◌==◌,
  ==_iff, arith, Bool-cases,
}
use fcfeeds.Text.{Text, text_eq, text_eq_iff}
use fcfeeds.Poll.HostLimit.{HostSlot, Slots, slot_at, set_slot, open_slot, Phase, set_phase}

unfoldable pub set_at : Text → HostSlot → (Text → HostSlot) → Text → HostSlot
set_at host s S g = if text_eq host g then s else S g

pub set_at-elim {ℓ} :
    (Q : HostSlot → Type ℓ) (host : Text) (s : HostSlot) (S : Text → HostSlot) (g : Text)
    → (host ≡ g → Q s)
    → (host ≢ g → Q (S g))
    → Q (set_at host s S g)
unfolding set_at
set_at-elim Q host s S g own other = elim (Bool-cases (text_eq host g)) [
  | inl e ↦ subst Q (sym (if_true e)) (own ((text_eq_iff host g).0 e))
  | inr e ↦ subst Q (sym (if_false e)) (other (λ h. ground (arith, e, (text_eq_iff host g).1 h)))
]
  where
    if_true : text_eq host g ≡ true → (if text_eq host g then s else S g) ≡ s
    if_true e = rw e refl

    if_false : text_eq host g ≡ false → (if text_eq host g then s else S g) ≡ S g
    if_false e = rw e refl

pub set_phase-elim {ℓ} :
    (Q : Phase → Type ℓ) (n : ℕ) (p : Phase) (P : ℕ → Phase) (m : ℕ)
    → (m ≡ n → Q p)
    → (m ≢ n → Q (P m))
    → Q (set_phase n p P m)
unfolding set_phase
set_phase-elim Q n p P m own other = elim (Bool-cases (m == n)) [
  | inl e ↦ subst Q (sym (if_true e)) (own ((==_iff m n).0 e))
  | inr e ↦ subst Q (sym (if_false e)) (other (λ h. ground (arith, e, (==_iff m n).1 h)))
]
  where
    if_true : (m == n) ≡ true → (if m == n then p else P m) ≡ p
    if_true e = rw e refl

    if_false : (m == n) ≡ false → (if m == n then p else P m) ≡ P m
    if_false e = rw e refl

pub slot_at-set_slot :
    (host : Text) (s : HostSlot) (ss : Slots) (g : Text)
    → slot_at g (set_slot host s ss) ≡ set_at host s (λ h. slot_at h ss) g
unfolding slot_at set_slot set_at
slot_at-set_slot host s [] g = refl
slot_at-set_slot host s ((h, t) ∷ ss) g = elim (Bool-cases (text_eq h host)) [
  | inl e ↦
      let q : text_eq h g ≡ text_eq host g = ap (λ x. text_eq x g) ((text_eq_iff h host).0 e) in
      rw (e, q) (if_same (text_eq host g))
  | inr e ↦ rw e (
      ground (
        arith,
        slot_at-set_slot host s ss g,
        e,
        text_eq_iff h g,
        text_eq_iff host g,
        (text_eq_iff h host).1,
      ))
]
  where
    if_same :
        (b : Bool)
        → (if b then s else slot_at g ss) ≡ (if b then s else (if b then t else slot_at g ss))
    if_same true = refl
    if_same false = refl

pub set_slot-set_at :
    (host : Text) (s : HostSlot) (ss : Slots)
    → (λ h. slot_at h (set_slot host s ss)) ≡ set_at host s (λ h. slot_at h ss)
set_slot-set_at host s ss = λ i h. slot_at-set_slot host s ss h i

pub set_at_same : (host : Text) (S : Text → HostSlot) → set_at host (S host) S ≡ S
set_at_same host S = λ i h. set_at-elim (λ x. x ≡ S h) host (S host) S h (λ e. ap S e) (λ e. refl) i

pub slot_at-open_slot :
    (host : Text) (ss : Slots)
    → ◌≡◌ {A = Text → HostSlot} (λ h. slot_at h (open_slot host ss)) (λ h. slot_at h ss)
unfolding open_slot
slot_at-open_slot host ss =
    set_slot-set_at host (slot_at host ss) ss ∙ set_at_same host (λ h. slot_at h ss)

pub set_at_own : (host : Text) (s : HostSlot) (S : Text → HostSlot) → set_at host s S host ≡ s
set_at_own host s S = set_at-elim (λ x. x ≡ s) host s S host (λ e. refl) (λ e. absurd (e refl))

pub set_phase_own : (n : ℕ) (p : Phase) (P : ℕ → Phase) → set_phase n p P n ≡ p
set_phase_own n p P = set_phase-elim (λ x. x ≡ p) n p P n (λ e. refl) (λ d. absurd (d refl))

pub slot_at-own : (host : Text) (s : HostSlot) (ss : Slots) → slot_at host (set_slot host s ss) ≡ s
slot_at-own host s ss = slot_at-set_slot host s ss host ∙ set_at_own host s (λ h. slot_at h ss)
