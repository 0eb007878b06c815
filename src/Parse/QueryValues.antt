-- ===== src/Parse/QueryValues.antt =====
-- The parameters of a query that canonicalization keeps, and their order.
use fcfeeds.Prelude.{
  ◌≡◌, refl, sym, ap, subst, ◌∙◌, ◌≢◌, inl, inr, false, List, [], ◌∷◌, arith, if◌then◌else◌,
  Bool-cases, keep, In, All-of_In,
}
use fcfeeds.Prelude.Sort.{
  sort, Sorted, Pairwise, sort-Sorted, sort-In, In-sort, Pairwise-sort, Sorted-ext,
}
use fcfeeds.Text.{Text, text_eq, text_eq_iff, text_eq_refl, has_text, has_text-In, In-has_text}
use fcfeeds.Text.Order.{text_le, text_le_total, text_le_trans, text_le_antisym}
use fcfeeds.Parse.Normalize.{is_tracking, is_kept, keys, values}

-- The values of every parameter that does not track are the same, in the same order.
abbrev pub SameValues : List (Text × Text) → List (Text × Text) → Type 0
SameValues p q = (k : Text) → is_tracking k ≡ false → values k p ≡ values k q

pub values-keep :
    (k : Text) (ps : List (Text × Text))
    → values k (keep is_kept ps) ≡ (if is_tracking k then [] else values k ps)
unfolding values keep
values-keep k [] = ground arith
values-keep k ((j, v) ∷ ps) = elim (Bool-cases (text_eq j k)) [
  | inl e ↦
      let same : j ≡ k = (text_eq_iff j k).0 e in
      ground (arith, values-keep k ps, same, e, text_eq_refl k)
  | inr e ↦ ground (arith, values-keep k ps, e)
]

pub keys-values :
    (k : Text) (ps : List (Text × Text))
    → In k (keys ps)
    → (v : Text) × (vs : List Text) × (values k ps ≡ v ∷ vs)
unfolding keys values
keys-values k [] h = elim h [ ]
keys-values k ((j, v) ∷ ps) h = elim (Bool-cases (text_eq j k)) [
  | inl e ↦ (v, values k ps, rw e refl)
  | inr e ↦
      let ne : j ≢ k = λ p. ground (arith, text_eq_iff j k, p) in
      let m : In k (keys ps) = ground (arith, h, ne, text_eq_iff j k) in
      let (w, ws, q) = keys-values k ps m in (w, ws, rw e q)
]

pub values-keys :
    (k v : Text) (vs : List Text) (ps : List (Text × Text)) → values k ps ≡ v ∷ vs → In k (keys ps)
unfolding keys values
values-keys k v vs [] h = ground arith
values-keys k v vs ((j, w) ∷ ps) h = elim (Bool-cases (text_eq j k)) [
  | inl e ↦
      let same : j ≡ k = (text_eq_iff j k).0 e in
      elim (Bool-cases (has_text (keys ps) j)) [
        | inl t ↦ rw t (subst (λ x. In x (keys ps)) same (has_text-In (keys ps) j t))
        | inr t ↦ rw t (inl (sym same))
      ]
  | inr e ↦
      let m : In k (keys ps) = values-keys k v vs ps (ground (arith, h, e)) in
      elim (Bool-cases (has_text (keys ps) j)) [ inl t ↦ rw t m | inr t ↦ rw t (inr m) ]
]

pub keys_distinct : (ps : List (Text × Text)) → Pairwise (λ a b. a ≢ b) (keys ps)
unfolding keys
keys_distinct [] = tt
keys_distinct ((j, v) ∷ ps) = elim (Bool-cases (has_text (keys ps) j)) [
  | inl t ↦ rw t (keys_distinct ps)
  | inr t ↦ rw t (
    All-of_In (λ b. j ≢ b) (keys ps) (λ b m p. ground (arith, t, In-has_text (keys ps) b m, p)),
    keys_distinct ps,
  )
]

module _ (p q : List (Text × Text)) (same : SameValues p q) where
  pub kept_values : (k : Text) → values k (keep is_kept p) ≡ values k (keep is_kept q)
  kept_values k = elim (Bool-cases (is_tracking k)) [
    | inl e ↦ values-keep k p ∙ rw e refl ∙ sym (values-keep k q)
    | inr e ↦
        values-keep k p
        ∙ ap (λ vs. if is_tracking k then [] else vs) (same k e)
        ∙ sym (values-keep k q)
  ]

  kept_keys : (k : Text) → In k (keys (keep is_kept p)) → In k (keys (keep is_kept q))
  kept_keys k m =
      let (v, vs, e) = keys-values k (keep is_kept p) m in
      values-keys k v vs (keep is_kept q) (sym (kept_values k) ∙ e)

abbrev pub ordered_keys : List (Text × Text) → List Text
ordered_keys ps = sort text_le (keys (keep is_kept ps))

pub ordered_keys-Sorted : (ps : List (Text × Text)) → Sorted text_le (ordered_keys ps)
ordered_keys-Sorted ps = sort-Sorted text_le text_le_total text_le_trans (keys (keep is_kept ps))

pub ordered_keys_distinct : (ps : List (Text × Text)) → Pairwise (λ a b. a ≢ b) (ordered_keys ps)
ordered_keys_distinct ps =
    Pairwise-sort (λ a b. a ≢ b) text_le (λ a b h e. h (sym e)) (keys (keep is_kept ps))
      (keys_distinct (keep is_kept ps))

pub ordered_keys-In :
    (p q : List (Text × Text))
    → SameValues p q
    → (k : Text) → In k (ordered_keys p)
    → In k (ordered_keys q)
ordered_keys-In p q same k m =
    sort-In text_le k (keys (keep is_kept q))
      (kept_keys p q same k (In-sort text_le k (keys (keep is_kept p)) m))

pub ordered_keys_same :
    (p q : List (Text × Text)) → SameValues p q → ordered_keys p ≡ ordered_keys q
ordered_keys_same p q same =
    Sorted-ext text_le text_le_antisym (ordered_keys p) (ordered_keys q) (ordered_keys-Sorted p)
      (ordered_keys-Sorted q) (ordered_keys_distinct p) (ordered_keys_distinct q)
      (ordered_keys-In p q same) (ordered_keys-In q p (λ k e. sym (same k e)))

-- The host without the default port of the scheme: `:80` or `:443`.
