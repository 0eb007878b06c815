-- ===== src/Api/Deduped.antt =====
-- dedupe: the timeline shows each story once, and every item of the input is accounted for.
use fcfeeds.Prelude.{
  ◌++◌, In-append_right, ◌≡◌, refl, sym, ap, subst, ◌∙◌, ◌⊎◌, inl, inr, true, false, List, [], ◌∷◌,
  arith, In, Bool-cases, All-of_In, All,
}
use fcfeeds.Prelude.Sort.{sort, Sorted, sort-Sorted, In-sort, sort-In, Pairwise, Pairwise-sort}
use fcfeeds.Text.{Text, is_empty}
use fcfeeds.Store.Rows.{Item}
use fcfeeds.Api.Dedupe.{
  Seen, earlier_first, later_first, seen_title, seen_hash, mark_hash, keep_item, dedupe_step,
  dedupe_loop, nothing_seen, dedupe,
}
use fcfeeds.Api.Stories.{
  Apart, Shown, Accounted, Inv, Shown-append, mark_empty, mark_new, tail, skip_hash, Shown-by_title,
  skip_title, Apart-from_it, keep_it, flip,
}

module _ (to_lower : Text → Text) (items : List Item) where
  abbrev Accounts : Seen → Item → Type 0
  Accounts st it = Accounted to_lower items st.kept it

  -- A step keeps the invariant, accounts for its item, and loses no item that was accounted for.
  abbrev Steps : Seen → Item → List Item → Seen → Type 0
  Steps st it rest st' =
      Inv to_lower items st' rest × Accounts st' it × ((j : Item) → Accounts st j → Accounts st' j)

  kept-mark : (st : Seen) (it : Item) → (mark_hash to_lower st it).kept ≡ st.kept
  kept-mark st it = ground arith

  grows :
      (ks : List Item) (it j : Item)
      → Accounted to_lower items ks j
      → Accounted to_lower items (ks ++ it ∷ []) j
  grows ks it j (inl sh) = inl (Shown-append to_lower ks it j sh)
  grows ks it j (inr (k, mk, same, before, sh)) =
      inr (k, mk, same, before, Shown-append to_lower ks it k sh)

  module _ (st : Seen) (it : Item) (rest : List Item)
      (inv : Inv to_lower items st (it ∷ rest)) where
    step_title :
        seen_title to_lower st.titles it ≡ true → Steps st it rest (mark_hash to_lower st it)
    step_title t =
        let moved =
          λ (j : Item). subst (λ ks. Accounted to_lower items ks j) (sym (kept-mark st it)) in
        (
          skip_title to_lower items st it rest inv t,
          moved it (inl (Shown-by_title to_lower items st it rest inv t)),
          λ j a. moved j a,
        )

    keep_marked :
        ((k : Item) → In k st.kept → Apart to_lower k it)
        → Inv to_lower items (keep_item to_lower (mark_hash to_lower st it) it) rest
    keep_marked far = elim (Bool-cases (is_empty it.url_hash)) [
      | inl e ↦
          subst (λ x. Inv to_lower items (keep_item to_lower x it) rest)
            (sym (mark_empty to_lower st it e))
            (keep_it to_lower items st it rest inv st.hashes (λ x m. inl m) (λ x m. m)
              (λ ne. ground arith) far)
      | inr e ↦
          subst (λ x. Inv to_lower items (keep_item to_lower x it) rest)
            (sym (mark_new to_lower st it e))
            (keep_it to_lower items st it rest inv (it.url_hash ∷ st.hashes)
              (λ x m. elim m [ inl same ↦ inr (same, ap is_empty same ∙ e) | inr old ↦ inl old ])
              (λ x m. inr m) (λ ne. inl refl) far)
    ]

    step_keep :
        seen_hash to_lower st it ≡ false
        → seen_title to_lower st.titles it ≡ false
        → Steps st it rest (keep_item to_lower (mark_hash to_lower st it) it)
    step_keep h t =
        let moved = λ (j : Item).
          subst (λ ks. Accounted to_lower items (ks ++ it ∷ []) j) (sym (kept-mark st it)) in
        (
          keep_marked (Apart-from_it to_lower items st it rest inv h t),
          moved it (inl (it, In-append_right it st.kept (it ∷ []) (inl refl), inl refl)),
          λ j a. moved j (grows st.kept it j a),
        )

    step : Steps st it rest (dedupe_step to_lower st it)
    unfolding dedupe_step
    step = elim (Bool-cases (seen_hash to_lower st it)) [
      | inl h ↦
          rw h (
            tail to_lower items st it rest inv,
            skip_hash to_lower items st it rest inv h,
            λ j a. a,
          )
      | inr h ↦ elim (Bool-cases (seen_title to_lower st.titles it)) [
        | inl t ↦ rw h (rw t (step_title t))
        | inr t ↦ rw h (rw t (step_keep h t))
      ]
    ]

  -- The loop keeps the invariant and accounts for every item that it reads.
  loop :
      (rest : List Item) (st : Seen)
      → Inv to_lower items st rest
      → Inv to_lower items (dedupe_loop to_lower st rest) []
        × ((j : Item) → In j rest ⊎ Accounts st j → Accounts (dedupe_loop to_lower st rest) j)
  unfolding dedupe_loop
  loop [] st inv = (inv, λ j h. elim h [ inl m ↦ elim m [ ] | inr a ↦ a ])
  loop (it ∷ rest) st inv =
      let (inv1, here, still) = step st it rest inv in
      let (inv2, all) = loop rest (dedupe_step to_lower st it) inv1 in
      (
        inv2,
        λ j h. elim h [
          | inl (inl e) ↦ all j (inr (subst (Accounts (dedupe_step to_lower st it)) (sym e) here))
          | inl (inr m) ↦ all j (inl m)
          | inr a ↦ all j (inr (still j a))
        ],
      )

  start : Inv to_lower items nothing_seen (sort earlier_first items)
  start = record {
    kept_in = λ k m. elim m [ ];
    titles_of = refl;
    hashes_of = λ k m ne. elim m [ ];
    apart = tt;
    ordered = λ k m. elim m [ ];
    sources = λ h m. elim m [ ];
    rest_sorted =
        sort-Sorted earlier_first (λ a b h. ground arith) (λ a b c h k. ground arith) items;
    rest_in = λ k m. In-sort earlier_first k items m;
  }

  -- dedupe returns items of its input, newest first, no two of which have the same hash (unless it
  -- is empty), or the same normalized title within 48 hours. Every item of the input is among them
  -- or shares its normalized title with one that was published up to 48 hours before, or has the
  -- hash of an item of the input, published no later, of which that is true.
  pub dedupe_stories :
      All (λ it. In it items) (dedupe to_lower items)
      × Sorted later_first (dedupe to_lower items)
      × Pairwise (Apart to_lower) (dedupe to_lower items)
      × All (λ it. Accounted to_lower items (dedupe to_lower items) it) items
  unfolding dedupe
  dedupe_stories =
      let (inv, all) = loop (sort earlier_first items) nothing_seen start in
      let kept = (dedupe_loop to_lower nothing_seen (sort earlier_first items)).kept in
      (
        All-of_In (λ it. In it items) (sort later_first kept)
            (λ it m. inv.kept_in it (In-sort later_first it kept m)),
        sort-Sorted later_first (λ a b h. ground arith) (λ a b c h k. ground arith) kept,
        Pairwise-sort (Apart to_lower) later_first (flip to_lower) kept inv.apart,
        All-of_In _ items
            (λ it m. shown_sorted kept it (all it (inl (sort-In earlier_first it items m)))),
      )
    where
      move :
          (ks : List Item) (j : Item) → Shown to_lower ks j → Shown to_lower (sort later_first ks) j
      move ks j (k, m, same) = (k, sort-In later_first k ks m, same)

      shown_sorted :
          (ks : List Item) (it : Item)
          → Accounted to_lower items ks it
          → Accounted to_lower items (sort later_first ks) it
      shown_sorted ks it (inl sh) = inl (move ks it sh)
      shown_sorted ks it (inr (j, mj, same, before, sh)) = inr (j, mj, same, before, move ks j sh)
