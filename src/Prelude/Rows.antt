-- ===== src/Prelude/Rows.antt =====
-- Tables as lists of rows: what SQL statements do to them, and the constraints they keep.
use mathlib.Core.Path.{◌≡◌, refl, sym, ◌∙◌}
use mathlib.Core.Logic.{◌≢◌, inl, inr}
use mathlib.Core.Bool.{Bool, true, false}
use mathlib.Core.Option.{Option, none, some}
use mathlib.Core.List.{List, [], ◌∷◌, ◌++◌}
use native.Mathlib.Omega.{arith}
use fcfeeds.Prelude.Tests.{if◌then◌else◌}
use fcfeeds.Prelude.Lists.{keep, All, All-append, All-keep, In}

module _ {ℓ} {A : Type ℓ} where
  -- UPDATE ... SET f WHERE p
  unfoldable pub modify : (A → Bool) → (A → A) → List A → List A
  modify p f [] = []
  modify p f (x ∷ xs) = (if p x then f x else x) ∷ modify p f xs

  -- The first row that passes a test.
  unfoldable pub find_row : (A → Bool) → List A → Option A
  find_row p [] = none
  find_row p (x ∷ xs) = if p x then some x else find_row p xs

  pub All-modify {κ} :
      (P : A → Type κ) (p : A → Bool) (f : A → A) (xs : List A)
      → ((a : A) → P a → P (f a))
      → All P xs
      → All P (modify p f xs)
  unfolding modify
  All-modify P p f [] h _ = tt
  All-modify P p f (x ∷ xs) h (px, hx) = (
    elim (p x) as (λ b. P (if b then f x else x)) [ true ↦ h x px | false ↦ px ],
    All-modify P p f xs h hx,
  )

  pub All-mono {κ κ'} :
      (P : A → Type κ) (Q : A → Type κ') (xs : List A) → ((a : A) → P a → Q a) → All P xs → All Q xs
  All-mono P Q [] h _ = tt
  All-mono P Q (x ∷ xs) h (px, hx) = (h x px, All-mono P Q xs h hx)

module _ {ℓ κ} {A : Type ℓ} {K : Type κ} (key : A → K) where
  -- UNIQUE(key)
  abbrev pub Unique : List A → Type κ
  Unique [] = Unit
  Unique (x ∷ xs) = All (λ y. key x ≢ key y) xs × Unique xs

  pub Unique-append :
      (xs : List A) (x : A) → Unique xs → All (λ y. key y ≢ key x) xs → Unique (xs ++ x ∷ [])
  Unique-append [] x _ _ = (tt, tt)
  Unique-append (y ∷ ys) x (hy, u) (ne, hs) =
      (All-append (λ z. key y ≢ key z) ys (x ∷ []) hy (ne, tt), Unique-append ys x u hs)

  pub Unique-keep : (p : A → Bool) (xs : List A) → Unique xs → Unique (keep p xs)
  unfolding keep
  Unique-keep p [] _ = tt
  Unique-keep p (x ∷ xs) (hx, u) =
      elim (p x) as (λ b. Unique (if b then x ∷ keep p xs else keep p xs)) [
        | true ↦ (All-keep (λ y. key x ≢ key y) p xs hx, Unique-keep p xs u)
        | false ↦ Unique-keep p xs u
      ]

  All-ne-modify :
      (k : K) (p : A → Bool) (f : A → A) (xs : List A)
      → ((a : A) → key (f a) ≡ key a)
      → All (λ y. k ≢ key y) xs
      → All (λ y. k ≢ key y) (modify p f xs)
  All-ne-modify k p f xs same h = All-modify (λ y. k ≢ key y) p f xs (λ a ne e. ne (e ∙ same a)) h

  key_if : (b : Bool) (f : A → A) (x : A) → key (f x) ≡ key x → key (if b then f x else x) ≡ key x
  key_if true f x e = e
  key_if false f x e = refl

  pub Unique-modify :
      (p : A → Bool) (f : A → A) (xs : List A)
      → ((a : A) → key (f a) ≡ key a)
      → Unique xs
      → Unique (modify p f xs)
  unfolding modify
  Unique-modify p f [] same _ = tt
  Unique-modify p f (x ∷ xs) same (hx, u) = (
    All-mono (λ y. key x ≢ key y) (λ y. key (if p x then f x else x) ≢ key y) (modify p f xs)
        (λ a ne e. ne (sym (key_if (p x) f x (same x)) ∙ e)) (All-ne-modify (key x) p f xs same hx),
    Unique-modify p f xs same u,
  )

module _ {A : Type 0} where
  pub find_row-some :
      (p : A → Bool) (xs : List A) (a : A) → find_row p xs ≡ some a → In a xs × (p a ≡ true)
  unfolding find_row
  find_row-some p [] a h = cc
  find_row-some p (x ∷ xs) a h = ground (arith, find_row-some p xs a)

  pub find_row-none :
      (p : A → Bool) (xs : List A) (a : A) → find_row p xs ≡ none → In a xs → p a ≡ false
  unfolding find_row
  find_row-none p [] a h m = elim m [ ]
  find_row-none p (x ∷ xs) a h m = ground (arith, find_row-none p xs a)

  -- A row of the updated table is an old row, changed if it passed the test.
  pub In-modify :
      (p : A → Bool) (f : A → A) (a : A) (xs : List A)
      → In a (modify p f xs)
      → (b : A) × In b xs × (a ≡ (if p b then f b else b))
  unfolding modify
  In-modify p f a [] h = elim h [ ]
  In-modify p f a (x ∷ xs) (inl e) = (x, inl refl, e)
  In-modify p f a (x ∷ xs) (inr h) = let (b, m, e) = In-modify p f a xs h in (b, inr m, e)

  pub modify-In :
      (p : A → Bool) (f : A → A) (b : A) (xs : List A)
      → In b xs
      → In (if p b then f b else b) (modify p f xs)
  unfolding modify
  modify-In p f b [] h = elim h [ ]
  modify-In p f b (x ∷ xs) h = ground (arith, modify-In p f b xs)
