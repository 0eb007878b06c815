-- ===== src/Api/Stories.antt =====
-- What dedupe keeps and what it drops.
use fcfeeds.Prelude.{
  ◌-◌, ◌≤◌, ◌≡◌, refl, sym, ap, subst, ◌∙◌, ◌⊎◌, inl, inr, true, false, ◌&&◌, List, [], ◌∷◌, ◌++◌,
  map, arith, leb, In, In-append_left, In-append_right, All, All-mono, All-of_In, In-append_one,
  All-In, Bool-cases,
}
use fcfeeds.Prelude.Sort.{Sorted, Pairwise, Pairwise-append_one}
use fcfeeds.Text.{Text, text_eq, text_eq_iff, is_empty, has_text-In, In-has_text}
use fcfeeds.Store.Rows.{Item}
use fcfeeds.Api.Dedupe.{
  TitleSeen, Seen, earlier_first, window, normalize_title, seen_title, seen_hash, mark_hash,
  keep_item,
}

module _ (to_lower : Text → Text) where
  abbrev norm : Item → Text
  norm it = normalize_title to_lower it.title

  -- Two items that are copies of one story by their hash.
  abbrev pub SameHash : Item → Item → Type 0
  SameHash a b = (is_empty a.url_hash ≡ false) × (a.url_hash ≡ b.url_hash)

  -- The test of the loop: the same title, and not more than 48 hours from the first to the second.
  abbrev Near : Item → Item → Type 0
  Near a b = (norm a ≡ norm b) × (b.published_at - a.published_at ≤ window)

  -- Two items that are copies of one story by their titles, the second at most 48 hours later.
  abbrev pub SameTitle : Item → Item → Type 0
  SameTitle a b = (a.published_at ≤ b.published_at) × Near a b

  -- No copies of one story.
  abbrev pub Apart : Item → Item → Type 0
  Apart a b = (¬ SameHash a b) × (¬ SameTitle a b) × (¬ SameTitle b a)

  pub flip : (a b : Item) → Apart a b → Apart b a
  flip a b (h, k, l) = (λ (e, p). h (ap is_empty (sym p) ∙ e, sym p), l, k)

  unfoldable pub title_seen : Item → TitleSeen
  title_seen it = record { title = norm it; at = it.published_at }

  map-append_one :
      (ks : List Item) (it : Item)
      → map title_seen (ks ++ it ∷ []) ≡ map title_seen ks ++ title_seen it ∷ []
  map-append_one [] it = refl
  map-append_one (k ∷ ks) it = ap (λ ts. title_seen k ∷ ts) (map-append_one ks it)

  seen_title-none :
      (ks : List Item) (it : Item)
      → seen_title to_lower (map title_seen ks) it ≡ false
      → All (λ k. ¬ Near k it) ks
  unfolding title_seen
  seen_title-none [] it h = tt
  seen_title-none (k ∷ ks) it h = (
    λ (e, near). ground (arith, text_eq_iff (norm k) (norm it)),
    seen_title-none ks it (ground arith),
  )

  seen_title-some :
      (ks : List Item) (it : Item)
      → seen_title to_lower (map title_seen ks) it ≡ true
      → (k : Item) × In k ks × Near k it
  unfolding title_seen
  seen_title-some [] it h = cc
  seen_title-some (k ∷ ks) it h =
      elim (Bool-cases
        (text_eq (norm k) (norm it) && leb (it.published_at - k.published_at) window)) [
          | inl same ↦
              (k, inl refl, ((text_eq_iff (norm k) (norm it)).0 (ground arith), ground arith))
          | inr other ↦ let (j, m, same) = seen_title-some ks it (ground arith) in (j, inr m, same)
        ]

  -- An item is shown if it is kept, or an item with its title is that was published at most 48
  -- hours before it and no later.
  abbrev pub Shown : List Item → Item → Type 0
  Shown kept j = (k : Item) × In k kept × ((k ≡ j) ⊎ SameTitle k j)

  -- An item is accounted for if it is shown, or has the hash of one that is shown and was published
  -- no later.
  abbrev pub Accounted : List Item → List Item → Item → Type 0
  Accounted items kept it =
      Shown kept it
      ⊎ ((j : Item) × In j items
          × SameHash j it
          × (j.published_at ≤ it.published_at)
          × Shown kept j)

  -- A hash that was seen is that of an item shown, published no later than all that is to come.
  abbrev pub Source : List Item → List Item → List Item → Text → Type 0
  Source items kept rest h =
      (j : Item) × In j items
      × (j.url_hash ≡ h)
      × (is_empty h ≡ false)
      × Shown kept j
      × All (λ x. j.published_at ≤ x.published_at) rest

  pub record Inv (items : List Item) (st : Seen) (rest : List Item) : Type 0 where
    pub kept_in : (k : Item) → In k st.kept → In k items
    pub titles_of : st.titles ≡ map title_seen st.kept
    pub hashes_of :
        (k : Item) → In k st.kept → is_empty k.url_hash ≡ false → In k.url_hash st.hashes
    pub apart : Pairwise Apart st.kept
    pub ordered : (k : Item) → In k st.kept → All (λ x. k.published_at ≤ x.published_at) rest
    pub sources : (h : Text) → In h st.hashes → Source items st.kept rest h
    pub rest_sorted : Sorted earlier_first rest
    pub rest_in : (k : Item) → In k rest → In k items

  pub Shown-append : (kept : List Item) (it j : Item) → Shown kept j → Shown (kept ++ it ∷ []) j
  Shown-append kept it j (k, m, e) = (k, In-append_left k kept (it ∷ []) m, e)

  pub mark_empty :
      (st : Seen) (it : Item) → is_empty it.url_hash ≡ true → mark_hash to_lower st it ≡ st
  mark_empty st it e = ground arith

  pub mark_new :
      (st : Seen) (it : Item)
      → is_empty it.url_hash ≡ false
      → mark_hash to_lower st it ≡ record st { hashes = it.url_hash ∷ st.hashes }
  mark_new st it e = ground arith

  module _ (items : List Item) (st : Seen) (it : Item) (rest : List Item)
      (inv : Inv items st (it ∷ rest)) where
    pub tail : Inv items st rest
    tail = record {
      kept_in = inv.kept_in;
      titles_of = inv.titles_of;
      hashes_of = inv.hashes_of;
      apart = inv.apart;
      ordered = λ k m. (inv.ordered k m).1;
      sources =
          λ h m. let (j, mj, e, ne, sh, (_, later)) = inv.sources h m in (j, mj, e, ne, sh, later);
      rest_sorted = inv.rest_sorted.1;
      rest_in = λ k m. inv.rest_in k (inr m);
    }

    not_after : All (λ x. it.published_at ≤ x.published_at) rest
    not_after =
        All-mono (λ x. earlier_first it x ≡ true) (λ x. it.published_at ≤ x.published_at) rest
          (λ x h. ground arith) inv.rest_sorted.0

    pub skip_hash : seen_hash to_lower st it ≡ true → Accounted items st.kept it
    skip_hash h =
        let (j, mj, e, ne, sh, (before, _)) =
          inv.sources it.url_hash (has_text-In st.hashes it.url_hash (ground arith)) in
        inr (j, mj, (ap is_empty e ∙ ne, e), before, sh)

    pub Shown-by_title : seen_title to_lower st.titles it ≡ true → Shown st.kept it
    Shown-by_title h =
        let (k, m, near) =
          seen_title-some st.kept it
            (subst (λ ts. seen_title to_lower ts it ≡ true) inv.titles_of h) in
        (k, m, inr ((inv.ordered k m).0, near))

    pub skip_title :
        seen_title to_lower st.titles it ≡ true → Inv items (mark_hash to_lower st it) rest
    skip_title h = elim (Bool-cases (is_empty it.url_hash)) [
      | inl e ↦ subst (λ x. Inv items x rest) (sym (mark_empty st it e)) tail
      | inr e ↦
          subst (λ x. Inv items x rest) (sym (mark_new st it e))
            (record {
              kept_in = tail.kept_in;
              titles_of = tail.titles_of;
              hashes_of = λ k m ne. inr (tail.hashes_of k m ne);
              apart = tail.apart;
              ordered = tail.ordered;
              sources = λ x m. elim m [
                | inl same ↦ (
                  it,
                  inv.rest_in it (inl refl),
                  sym same,
                  ap is_empty same ∙ e,
                  Shown-by_title h,
                  not_after,
                )
                | inr old ↦ tail.sources x old
              ];
              rest_sorted = tail.rest_sorted;
              rest_in = tail.rest_in;
            })
    ]

    pub Apart-from_it :
        seen_hash to_lower st it ≡ false
        → seen_title to_lower st.titles it ≡ false
        → (k : Item) → In k st.kept
        → Apart k it
    Apart-from_it h t k m =
        let none_near =
          seen_title-none st.kept it
            (subst (λ ts. seen_title to_lower ts it ≡ false) inv.titles_of t) in
        let apart_title = All-In (λ x. ¬ Near x it) st.kept k none_near m in
        let before = (inv.ordered k m).0 in
        (
          λ (ne, e).
              unseen (ap is_empty (sym e) ∙ ne)
                (subst (λ x. In x st.hashes) e (inv.hashes_of k m ne)),
          λ (_, near). apart_title near,
          λ (after, (e, _)). apart_title (sym e, omega arith),
        )
      where
        unseen : is_empty it.url_hash ≡ false → In it.url_hash st.hashes → ⊥
        unseen ne m = ground (arith, In-has_text st.hashes it.url_hash m)

    pub keep_it :
        (hs : List Text)
        → ((x : Text) → In x hs → In x st.hashes ⊎ ((x ≡ it.url_hash) × (is_empty x ≡ false)))
        → ((x : Text) → In x st.hashes → In x hs)
        → (is_empty it.url_hash ≡ false → In it.url_hash hs)
        → ((k : Item) → In k st.kept → Apart k it)
        → Inv items (keep_item to_lower (record st { hashes = hs }) it) rest
    unfolding title_seen
    keep_it hs back keep own far = record {
      kept_in = λ k m. elim (In-append_one k st.kept it m) [
        | inl old ↦ inv.kept_in k old
        | inr same ↦ inv.rest_in k (inl same)
      ];
      titles_of =
          ap (λ ts. ts ++ title_seen it ∷ []) inv.titles_of ∙ sym (map-append_one st.kept it);
      hashes_of = λ k m ne. elim (In-append_one k st.kept it m) [
        | inl old ↦ keep k.url_hash (inv.hashes_of k old ne)
        | inr same ↦
            subst (λ (y : Item). In y.url_hash hs) (sym same)
              (own (ap (λ (y : Item). is_empty y.url_hash) (sym same) ∙ ne))
      ];
      apart =
          Pairwise-append_one Apart st.kept it inv.apart (All-of_In (λ k. Apart k it) st.kept far);
      ordered = λ k m. elim (In-append_one k st.kept it m) [
        | inl old ↦ (inv.ordered k old).1
        | inr same ↦
            subst (λ y. All (λ x. y.published_at ≤ x.published_at) rest) (sym same) not_after
      ];
      sources = λ x m. elim (back x m) [
        | inl old ↦
            let (j, mj, e, ne, sh, later) = tail.sources x old in
            (j, mj, e, ne, Shown-append st.kept it j sh, later)
        | inr (same, ne) ↦ (
          it,
          inv.rest_in it (inl refl),
          sym same,
          ne,
          (it, In-append_right it st.kept (it ∷ []) (inl refl), inl refl),
          not_after,
        )
      ];
      rest_sorted = tail.rest_sorted;
      rest_in = tail.rest_in;
    }
