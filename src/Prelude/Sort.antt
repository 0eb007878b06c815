-- ===== src/Prelude/Sort.antt =====
-- Stable sorting by insertion. The result of a stable sort is determined by the order, so it
-- stands for `ORDER BY` and for Go's `sort.SliceStable`.
use fcfeeds.Prelude.{
  ℕ, zero, suc, ◌≡◌, refl, ◌⊎◌, inl, inr, Bool, true, false, List, [], ◌∷◌, ◌++◌, arith,
  if◌then◌else◌, length, take, drop, keep, In, All, All-append, All-keep, All-mono, All-of_In,
  In-take, Bool-cases, All-In, Unique, ◌≢◌, sym, ◌∙◌,
}

module _ {A : Type 0} (le : A → A → Bool) where
  insert : A → List A → List A
  insert x [] = x ∷ []
  insert x (y ∷ ys) = if le x y then x ∷ y ∷ ys else y ∷ insert x ys

  unfoldable pub sort : List A → List A
  unfolding insert
  sort [] = []
  sort (x ∷ xs) = insert x (sort xs)

  -- Every row is in order with every later one.
  abbrev pub Sorted : List A → Type 0
  Sorted [] = Unit
  Sorted (x ∷ xs) = All (λ y. le x y ≡ true) xs × Sorted xs

  In-insert : (a x : A) (xs : List A) → In a (insert x xs) → (a ≡ x) ⊎ In a xs
  unfolding insert
  In-insert a x [] h = h
  In-insert a x (y ∷ ys) h = ground (arith, In-insert a x ys)

  insert-In : (a x : A) (xs : List A) → (a ≡ x) ⊎ In a xs → In a (insert x xs)
  unfolding insert
  insert-In a x [] h = h
  insert-In a x (y ∷ ys) h = ground (arith, insert-In a x ys)

  pub In-sort : (a : A) (xs : List A) → In a (sort xs) → In a xs
  unfolding sort
  In-sort a [] h = elim h [ ]
  In-sort a (x ∷ xs) h = ground (arith, In-insert a x (sort xs) h, In-sort a xs)

  pub sort-In : (a : A) (xs : List A) → In a xs → In a (sort xs)
  unfolding sort
  sort-In a [] h = elim h [ ]
  sort-In a (x ∷ xs) (inl e) = insert-In a x (sort xs) (inl e)
  sort-In a (x ∷ xs) (inr h) = insert-In a x (sort xs) (inr (sort-In a xs h))

  All-insert {κ} : (P : A → Type κ) (x : A) (xs : List A) → P x → All P xs → All P (insert x xs)
  unfolding insert
  All-insert P x [] px _ = (px, tt)
  All-insert P x (y ∷ ys) px (py, hy) =
      elim (le x y) as (λ b. All P (if b then x ∷ y ∷ ys else y ∷ insert x ys)) [
        | true ↦ (px, (py, hy))
        | false ↦ (py, All-insert P x ys px hy)
      ]

  length-insert : (x : A) (xs : List A) → length (insert x xs) ≡ suc (length xs)
  unfolding insert
  length-insert x [] = refl
  length-insert x (y ∷ ys) = ground (arith, length-insert x ys)

  pub length-sort : (xs : List A) → length (sort xs) ≡ length xs
  unfolding sort
  length-sort [] = refl
  length-sort (x ∷ xs) = omega (arith, length-insert x (sort xs), length-sort xs)

  pub Sorted-keep : (p : A → Bool) (xs : List A) → Sorted xs → Sorted (keep p xs)
  unfolding keep
  Sorted-keep p [] _ = tt
  Sorted-keep p (x ∷ xs) (hx, s) =
      elim (p x) as (λ b. Sorted (if b then x ∷ keep p xs else keep p xs)) [
        | true ↦ (All-keep (λ y. le x y ≡ true) p xs hx, Sorted-keep p xs s)
        | false ↦ Sorted-keep p xs s
      ]

  module _ (total : (a b : A) → le a b ≡ false → le b a ≡ true)
      (trans : (a b c : A) → le a b ≡ true → le b c ≡ true → le a c ≡ true) where
    insert-Sorted : (x : A) (xs : List A) → Sorted xs → Sorted (insert x xs)
    unfolding insert
    insert-Sorted x [] _ = (tt, tt)
    insert-Sorted x (y ∷ ys) (hy, s) = elim (Bool-cases (le x y)) [
      | inl e ↦
          let after =
            All-mono (λ z. le y z ≡ true) (λ z. le x z ≡ true) ys (λ a h. trans x y a e h) hy in
          rw e ((e, after), (hy, s))
      | inr e ↦ rw e (All-insert (λ z. le y z ≡ true) x ys (total x y e) hy, insert-Sorted x ys s)
    ]

    pub sort-Sorted : (xs : List A) → Sorted (sort xs)
    unfolding sort
    sort-Sorted [] = tt
    sort-Sorted (x ∷ xs) = insert-Sorted x (sort xs) (sort-Sorted xs)

module _ {A : Type 0} (le : A → A → Bool) where
  -- In a sorted list the first rows stand in order with every row after them.
  pub le_of_take-drop :
      (n : ℕ) (xs : List A) (a b : A)
      → Sorted le xs
      → In a (take n xs)
      → In b (drop n xs)
      → le a b ≡ true
  le_of_take-drop zero xs a b s ha hb = elim ha [ ]
  le_of_take-drop (suc n) [] a b s ha hb = elim ha [ ]
  le_of_take-drop (suc n) (x ∷ xs) a b (hx, s) (inl e) hb = rw e (first xs n b hx hb)
    where
      first :
          (ys : List A) (m : ℕ) (c : A)
          → All (λ y. le x y ≡ true) ys
          → In c (drop m ys)
          → le x c ≡ true
      first [] zero c h m = elim m [ ]
      first [] (suc k) c h m = elim m [ ]
      first (y ∷ ys) zero c (hy, h) (inl p) = rw p hy
      first (y ∷ ys) zero c (hy, h) (inr p) = first ys zero c h p
      first (y ∷ ys) (suc k) c (hy, h) m = first ys k c h m
  le_of_take-drop (suc n) (x ∷ xs) a b (hx, s) (inr ha) hb = le_of_take-drop n xs a b s ha hb

  pub In-take-drop : (n : ℕ) (xs : List A) (a : A) → In a xs → In a (take n xs) ⊎ In a (drop n xs)
  In-take-drop zero xs a h = inr h
  In-take-drop (suc n) [] a h = elim h [ ]
  In-take-drop (suc n) (x ∷ xs) a (inl e) = inl (inl e)
  In-take-drop (suc n) (x ∷ xs) a (inr h) = ground (arith, In-take-drop n xs a h)

  -- Where rows are left over, as many as asked for were taken.
  pub length-take_of_drop :
      (n : ℕ) (xs : List A) (a : A) → In a (drop n xs) → length (take n xs) ≡ n
  length-take_of_drop zero xs a h = refl
  length-take_of_drop (suc n) [] a h = elim h [ ]
  length-take_of_drop (suc n) (x ∷ xs) a h = omega (arith, length-take_of_drop n xs a h)

  pub Sorted-take : (n : ℕ) (xs : List A) → Sorted le xs → Sorted le (take n xs)
  Sorted-take zero xs _ = tt
  Sorted-take (suc n) [] _ = tt
  Sorted-take (suc n) (x ∷ xs) (h, s) =
      (All-of_In _ (take n xs) (λ a m. All-In xs a h (In-take n a xs m)), Sorted-take n xs s)
    where
      All-In : (ys : List A) (a : A) → All (λ y. le x y ≡ true) ys → In a ys → le x a ≡ true
      All-In [] a _ m = elim m [ ]
      All-In (y ∷ ys) a (k, ks) (inl e) = rw e k
      All-In (y ∷ ys) a (k, ks) (inr m) = All-In ys a ks m

module _ {A : Type 0} (R : A → A → Type 0) where
  -- Any two rows are related, the earlier to the later.
  abbrev pub Pairwise : List A → Type 0
  Pairwise [] = Unit
  Pairwise (x ∷ xs) = All (R x) xs × Pairwise xs

  pub Pairwise-append_one :
      (xs : List A) (y : A) → Pairwise xs → All (λ x. R x y) xs → Pairwise (xs ++ y ∷ [])
  Pairwise-append_one [] y _ _ = (tt, tt)
  Pairwise-append_one (x ∷ xs) y (h, hs) (r, rs) =
      (All-append (R x) xs (y ∷ []) h (r, tt), Pairwise-append_one xs y hs rs)

  module _ (le : A → A → Bool) (flip : (a b : A) → R a b → R b a) where
    Pairwise-insert : (x : A) (xs : List A) → All (R x) xs → Pairwise xs → Pairwise (insert le x xs)
    unfolding insert
    Pairwise-insert x [] _ _ = (tt, tt)
    Pairwise-insert x (y ∷ ys) (h, hs) (k, ks) =
        elim (le x y) as (λ b. Pairwise (if b then x ∷ y ∷ ys else y ∷ insert le x ys)) [
          | true ↦ ((h, hs), (k, ks))
          | false ↦ (All-insert le (R y) x ys (flip x y h) k, Pairwise-insert x ys hs ks)
        ]

    -- A symmetric relation of any two rows does not depend on their order.
    pub Pairwise-sort : (xs : List A) → Pairwise xs → Pairwise (sort le xs)
    unfolding sort
    Pairwise-sort [] _ = tt
    Pairwise-sort (x ∷ xs) (h, hs) =
        Pairwise-insert x (sort le xs) (All-sort xs h) (Pairwise-sort xs hs)
      where
        All-sort : (ys : List A) → All (R x) ys → All (R x) (sort le ys)
        All-sort [] _ = tt
        All-sort (y ∷ ys) (k, ks) = All-insert le (R x) y (sort le ys) k (All-sort ys ks)

  pub All-take : (P : A → Type 0) (n : ℕ) (xs : List A) → All P xs → All P (take n xs)
  All-take P n xs h = All-of_In P (take n xs) (λ a m. All-In P xs a h (In-take n a xs m))

  pub Pairwise-take : (n : ℕ) (xs : List A) → Pairwise xs → Pairwise (take n xs)
  Pairwise-take zero xs _ = tt
  Pairwise-take (suc n) [] _ = tt
  Pairwise-take (suc n) (x ∷ xs) (h, hs) = (All-take (R x) n xs h, Pairwise-take n xs hs)

module _ {A : Type 0} (key : A → ℕ) where
  Unique-Pairwise : (xs : List A) → Unique key xs → Pairwise (λ a b. key a ≢ key b) xs
  Unique-Pairwise [] _ = tt
  Unique-Pairwise (x ∷ xs) (h, u) = (h, Unique-Pairwise xs u)

  Pairwise-Unique : (xs : List A) → Pairwise (λ a b. key a ≢ key b) xs → Unique key xs
  Pairwise-Unique [] _ = tt
  Pairwise-Unique (x ∷ xs) (h, u) = (h, Pairwise-Unique xs u)

  -- The first rows by any order have different keys, if all rows have.
  pub Unique-take_sort :
      (le : A → A → Bool) (n : ℕ) (xs : List A) → Unique key xs → Unique key (take n (sort le xs))
  Unique-take_sort le n xs u = Pairwise-Unique (take n (sort le xs)) (
      Pairwise-take (λ a b. key a ≢ key b) n (sort le xs)
        (Pairwise-sort (λ a b. key a ≢ key b) le (λ a b d e. d (sym e)) xs (Unique-Pairwise xs u)))

-- A list in order with no row twice is determined by its rows.
module _ {A : Type 0} (le : A → A → Bool)
    (antisym : (a b : A) → le a b ≡ true → le b a ≡ true → a ≡ b) where
  tail-In :
      (x y : A) (xs ys : List A)
      → x ≡ y
      → All (λ b. x ≢ b) xs
      → ((a : A) → In a (x ∷ xs) → In a (y ∷ ys))
      → (a : A) → In a xs
      → In a ys
  tail-In x y xs ys e apart sub a m = elim (sub a (inr m)) [
    | inl p ↦ elim (All-In (λ b. x ≢ b) xs a apart m (e ∙ sym p)) [ ]
    | inr q ↦ q
  ]

  pub Sorted-ext :
      (xs ys : List A)
      → Sorted le xs
      → Sorted le ys
      → Pairwise (λ a b. a ≢ b) xs
      → Pairwise (λ a b. a ≢ b) ys
      → ((a : A) → In a xs → In a ys)
      → ((a : A) → In a ys → In a xs)
      → xs ≡ ys
  Sorted-ext [] [] _ _ _ _ _ _ = refl
  Sorted-ext [] (y ∷ ys) _ _ _ _ _ g = elim (g y (inl refl)) [ ]
  Sorted-ext (x ∷ xs) [] _ _ _ _ f _ = elim (f x (inl refl)) [ ]
  Sorted-ext (x ∷ xs) (y ∷ ys) (hx, sx) (hy, sy) (px, qx) (py, qy) f g =
      let e : x ≡ y = heads (f x (inl refl)) (g y (inl refl)) in
      let rest : xs ≡ ys =
        Sorted-ext xs ys sx sy qx qy (tail-In x y xs ys e px f) (tail-In y x ys xs (sym e) py g) in
      cc
    where
      heads : (x ≡ y) ⊎ In x ys → (y ≡ x) ⊎ In y xs → x ≡ y
      heads (inl e) _ = e
      heads (inr m) (inl e) = sym e
      heads (inr m) (inr n) =
          antisym x y (All-In (λ b. le x b ≡ true) xs y hx n)
            (All-In (λ b. le y b ≡ true) ys x hy m)
