-- ===== src/Prelude/Count.antt =====
-- Counting the rows that pass a test: as many as the keys looked for, at most.
use mathlib.Core.Path.{fun_ext}
use fcfeeds.Prelude.{
  ℕ, ◌+◌, ◌≤◌, ◌≡◌, refl, ap, ◌≢◌, Bool, true, false, not, none, some, List, [], ◌∷◌, arith, ◌==◌,
  if◌then◌else◌, length, keep, find_row, All, Unique, In, keep-In, All-In, All-of_In, ==_iff, ◌<◌,
  sym, Bool-cases, inl, inr,
}

module _ {ℓ} {A : Type ℓ} where
  pub keep_cong : (p q : A → Bool) (xs : List A) → ((a : A) → p a ≡ q a) → keep p xs ≡ keep q xs
  keep_cong p q xs h = ap (λ t. keep t xs) (fun_ext h)

  length-keep-or :
      (p q : A → Bool) (xs : List A)
      → length (keep (λ a. if p a then true else q a) xs) ≤ length (keep p xs) + length (keep q xs)
  unfolding keep
  length-keep-or p q [] = omega arith
  length-keep-or p q (x ∷ xs) = ground (arith, length-keep-or p q xs)

  length-keep-false : (xs : List A) → length (keep (λ a. false) xs) ≡ 0
  unfolding keep
  length-keep-false [] = refl
  length-keep-false (x ∷ xs) = length-keep-false xs

  -- The rows that pass a test and those that do not are all the rows.
  pub length-keep-not :
      (p : A → Bool) (xs : List A)
      → length (keep p xs) + length (keep (λ a. not (p a)) xs) ≡ length xs
  unfolding keep
  length-keep-not p [] = omega arith
  length-keep-not p (x ∷ xs) = ground (arith, length-keep-not p xs)

  keep_none_of_ne :
      (key : A → ℕ) (i : ℕ) (xs : List A)
      → All (λ y. i ≢ key y) xs
      → length (keep (λ r. i == key r) xs) ≡ 0
  unfolding keep
  keep_none_of_ne key i [] _ = refl
  keep_none_of_ne key i (x ∷ xs) (ne, h) = ground (arith, keep_none_of_ne key i xs h)

  -- A unique key is in one row at most.
  pub unique_once :
      (key : A → ℕ) (i : ℕ) (xs : List A) → Unique key xs → length (keep (λ r. i == key r) xs) ≤ 1
  unfolding keep
  unique_once key i [] _ = omega arith
  unique_once key i (x ∷ xs) (h, u) =
      ground (arith, unique_once key i xs u, keep_none_of_ne key (key x) xs h)

module _ {ℓ} {A : Type ℓ} (p q : A → Bool) where
  pub length-keep-keep-le :
      (r : A → Bool) (xs : List A)
      → ((a : A) → p a ≡ true → q a ≡ true → r a ≡ true)
      → length (keep p (keep q xs)) ≤ length (keep r xs)
  unfolding keep
  length-keep-keep-le r [] h = omega arith
  length-keep-keep-le r (x ∷ xs) h = ground (arith, h x, length-keep-keep-le r xs h)

  -- A test that implies the first one makes no difference behind it.
  pub keep-keep_implied :
      (xs : List A) → ((a : A) → p a ≡ true → q a ≡ true) → keep p (keep q xs) ≡ keep p xs
  unfolding keep
  keep-keep_implied [] h = refl
  keep-keep_implied (x ∷ xs) h = ground (arith, h x, keep-keep_implied xs h)

module _ {A T : Type 0} (hit : T → A → Bool) where
  abbrev pub hit_any : List T → A → Bool
  hit_any ts a = elim (find_row (λ t. hit t a) ts) [ none ↦ false | some t ↦ true ]

  hit_any-cons :
      (t : T) (ts : List T) (a : A) → hit_any (t ∷ ts) a ≡ (if hit t a then true else hit_any ts a)
  unfolding find_row
  hit_any-cons t ts a = ground arith

  hit_any-nil : (a : A) → hit_any [] a ≡ false
  unfolding find_row
  hit_any-nil a = refl

  -- If each of `ts` hits one row at most, no more rows are hit than there are in `ts`.
  pub length-keep-hit_any :
      (xs : List A) (ts : List T)
      → ((t : T) → length (keep (hit t) xs) ≤ 1)
      → length (keep (hit_any ts) xs) ≤ length ts
  length-keep-hit_any xs [] h =
      rw (keep_cong (hit_any []) (λ a. false) xs hit_any-nil) (omega (arith, length-keep-false xs))
  length-keep-hit_any xs (t ∷ ts) h =
      rw
        (keep_cong (hit_any (t ∷ ts)) (λ a. if hit t a then true else hit_any ts a) xs
          (hit_any-cons t ts))
        (omega (arith, length-keep-or (hit t) (hit_any ts) xs, h t, length-keep-hit_any xs ts h))

-- Rows with different keys, all of them in a list, are no more than that list.
module _ {A : Type 0} (key : A → ℕ) where
  length-keep-other :
      (i : ℕ) (ys : List ℕ) → In i ys → length (keep (λ y. not (y == i)) ys) < length ys
  length-keep-other i ys m = omega (
    arith,
    length-keep-not (λ y. y == i) ys,
    some_row (keep (λ y. y == i) ys) (keep-In (λ y. y == i) i ys m ((==_iff i i).1 refl)),
  )
    where
      some_row : (zs : List ℕ) → In i zs → 1 ≤ length zs
      some_row [] k = elim k [ ]
      some_row (z ∷ zs) k = omega arith

  pub length-Unique :
      (xs : List A) (ys : List ℕ)
      → Unique key xs
      → All (λ x. In (key x) ys) xs
      → length xs ≤ length ys
  length-Unique [] ys u h = omega arith
  length-Unique (x ∷ xs) ys (d, u) (m, h) =
      let rest = keep (λ y. not (y == key x)) ys in
      omega (
        arith,
        length-keep-other (key x) ys m,
        length-Unique xs rest u (
            All-of_In (λ z. In (key z) rest) xs
              (λ z mz.
                keep-In (λ y. not (y == key x)) (key z) ys (All-In _ xs z h mz)
                  (other (key z) (All-In _ xs z d mz)))),
      )
    where
      other : (k : ℕ) → key x ≢ k → not (k == key x) ≡ true
      other k ne = elim (Bool-cases (k == key x)) [
        | inl e ↦ absurd (ne (sym ((==_iff k (key x)).0 e)))
        | inr e ↦ ground arith
      ]
