-- ===== src/Api/Answers.antt =====
-- What splitFeeds returns and what the timeline of getItems shows.
use fcfeeds.Prelude.{
  ◌*◌, ◌++◌, keep, drop, zero, suc, ℕ, ◌≤◌, ◌≡◌, refl, sym, ap, subst, ◌∙◌, ◌≢◌, ◌⊎◌, inl, inr,
  Bool, true, false, ◌||◌, Option, List, [], ◌∷◌, map, arith, ltb, length, length-take-le, take, In,
  All, All-mono, Bool-cases, Unique,
}
use fcfeeds.Prelude.Sort.{All-take, Pairwise-take, Sorted, Sorted-take, Pairwise}
use fcfeeds.Text.{Text, is_empty, text_eq, text_eq_iff, has_text, has_text-In}
use fcfeeds.Time.{Time}
use fcfeeds.Store.Rows.{Db, Feed, FetchState, Item}
use fcfeeds.Store.Conn.{ok, Conn}
use fcfeeds.Store.Claims.{member}
use fcfeeds.Store.Items.{list_items}
use fcfeeds.Store.Success.{Ensures, Ensures-mono, Ensures-pure, Ensures-bind}
use fcfeeds.Api.Dedupe.{later_first, dedupe}
use fcfeeds.Api.Stories.{Apart}
use fcfeeds.Api.Deduped.{dedupe_stories}
use fcfeeds.Store.Runs.{quiet}
use fcfeeds.Api.Reading.{
  feed_url, Registered, no_success, fails_now, state_row, scanned, ensure_feeds-Registered,
  fetch_states-Scanned, list_items-quiet, warming_urls_lem, stale_urls_lem,
}
use fcfeeds.Api.Query.{
  stale_urls, split_comma, split_loop, split_feeds, get_items, feed_id_of, timeline, Timeline,
  state_of, warming_urls,
}

differ : (s t : Text) → text_eq s t ≡ false → s ≢ t
differ s t h e = ground (arith, text_eq_iff s t)

module _ (trim : Text → Text) where
  abbrev New : List Text → Text → Type 0
  New seen t = (is_empty t ≡ false) × (has_text seen t ≡ false)

  -- what the loop returns, given what was seen
  split_loop-New : (seen ps : List Text) → All (New seen) (split_loop trim seen ps)
  unfolding split_loop
  split_loop-New seen [] = tt
  split_loop-New seen (p ∷ ps) = elim (Bool-cases (is_empty (trim p) || has_text seen (trim p))) [
    | inl e ↦ rw (e, split_loop) (split_loop-New seen ps)
    | inr e ↦
        rw (e, split_loop)
          (
            (ground arith, ground arith),
            All-mono (New (trim p ∷ seen)) (New seen) (split_loop trim (trim p ∷ seen) ps)
                (λ t (n, h). (n, ground arith)) (split_loop-New (trim p ∷ seen) ps),
          )
  ]

  split_loop-Unique : (seen ps : List Text) → Unique (λ (t : Text). t) (split_loop trim seen ps)
  unfolding split_loop
  split_loop-Unique seen [] = tt
  split_loop-Unique seen (p ∷ ps) =
      elim (Bool-cases (is_empty (trim p) || has_text seen (trim p))) [
        | inl e ↦ rw (e, split_loop) (split_loop-Unique seen ps)
        | inr e ↦
            rw (e, split_loop)
              (
                All-mono (New (trim p ∷ seen)) (λ t. trim p ≢ t)
                    (split_loop trim (trim p ∷ seen) ps)
                    (λ t (n, h). differ (trim p) t (ground arith))
                    (split_loop-New (trim p ∷ seen) ps),
                split_loop-Unique (trim p ∷ seen) ps,
              )
      ]

  split_loop-In :
      (seen ps : List Text) (p : Text)
      → In p ps
      → is_empty (trim p) ≡ false
      → In (trim p) seen ⊎ In (trim p) (split_loop trim seen ps)
  unfolding split_loop
  split_loop-In seen [] p m n = elim m [ ]
  split_loop-In seen (q ∷ ps) p m n =
      elim (Bool-cases (is_empty (trim q) || has_text seen (trim q))) [
        | inl e ↦
            rw (e, split_loop)
              (elim m [
                | inl same ↦
                    let h : has_text seen (trim p) ≡ true = seen_of same e in
                    inl (has_text-In seen (trim p) h)
                | inr later ↦ split_loop-In seen ps p later n
              ])
        | inr e ↦
            rw (e, split_loop)
              (elim m [
                | inl same ↦ inr (inl (ap trim same))
                | inr later ↦ elim (split_loop-In (trim q ∷ seen) ps p later n) [
                  | inl (inl same) ↦ inr (inl same)
                  | inl (inr old) ↦ inl old
                  | inr new ↦ inr (inr new)
                ]
              ])
      ]
    where
      seen_of :
          p ≡ q
          → (is_empty (trim q) || has_text seen (trim q)) ≡ true
          → has_text seen (trim p) ≡ true
      seen_of same e =
          subst (λ x. has_text seen (trim x) ≡ true) (sym same)
            (other (is_empty (trim q)) (has_text seen (trim q))
              (ap (λ x. is_empty (trim x)) (sym same) ∙ n) e)
        where
          other : (a b : Bool) → a ≡ false → (a || b) ≡ true → b ≡ true
          other true b h k = absurd (cc)
          other false b h k = k

  -- splitFeeds returns every part of its text that is not empty once trimmed, no empty part, and no
  -- part twice.
  pub split_feeds-Unique :
      (v p : Text)
      → In p (split_comma v)
      → is_empty (trim p) ≡ false
      → In (trim p) (split_feeds trim v)
        × All (λ t. is_empty t ≡ false) (split_feeds trim v)
        × Unique (λ (t : Text). t) (split_feeds trim v)
  unfolding split_feeds
  split_feeds-Unique v p m n = (
    elim (split_loop-In [] (split_comma v) p m n) [
      | inl none_seen ↦ elim none_seen [ ]
      | inr found ↦ found
    ],
    All-mono (New []) (λ t. is_empty t ≡ false) (split_loop trim [] (split_comma v)) (λ t (k, _). k)
        (split_loop-New [] (split_comma v)),
    split_loop-Unique [] (split_comma v),
  )

take-drop : {A : Type 0} (n : ℕ) (xs : List A) → take n xs ++ drop n xs ≡ xs
take-drop zero xs = refl
take-drop (suc n) [] = refl
take-drop (suc n) (x ∷ xs) = ap (λ ys. x ∷ ys) (take-drop n xs)

length-take : {A : Type 0} (n : ℕ) (xs : List A) → n ≤ length xs → length (take n xs) ≡ n
length-take zero xs h = refl
length-take (suc n) [] h = absurd (omega arith)
length-take (suc n) (x ∷ xs) h = omega (arith, length-take n xs (omega arith))

members : (fs : List Feed) → All (λ f. member (map feed_id_of fs) f.id ≡ true) fs
members [] = tt
members (f ∷ fs) = (
  ground arith,
  All-mono (λ g. member (map feed_id_of fs) g.id ≡ true)
      (λ g. member (map feed_id_of (f ∷ fs)) g.id ≡ true) fs (λ g h. ground (arith, h))
      (members fs),
)

module _ (to_lower : Text → Text) where
  -- The items of a timeline are the first `limit` stories of these.
  abbrev pub Page : ℕ → List Item → List Item → Type 0
  Page limit raw its =
      (length its ≤ limit)
      × Sorted later_first its
      × Pairwise (Apart to_lower) its
      × All (λ it. In it raw) its
      × ((rest : List Item) × (its ++ rest ≡ dedupe to_lower raw)
          × ((rest ≡ []) ⊎ (length its ≡ limit)))

  -- What a timeline shows of the tables after it was read.
  abbrev pub Shows : List Text → Option Time → ℕ → Timeline → Db → Type 0
  Shows urls since limit t db =
      (raw : List Item) × (map feed_url t.feeds ≡ urls)
      × All (Registered db) t.feeds
      × (t.warming ≡ map feed_url (keep (λ f. no_success (state_row db f)) t.feeds))
      × (t.stale ≡ map feed_url (keep (λ f. fails_now (state_row db f)) t.feeds))
      × ((list_items (map feed_id_of t.feeds) since (limit * 3) (quiet db)).0 ≡ ok raw)
      × Page limit raw t.items

  timeline-Page :
      (limit : ℕ) (feeds : List Feed) (states : List FetchState) (raw : List Item)
      → Page limit raw (timeline to_lower limit feeds states raw).items
  unfolding timeline
  timeline-Page limit feeds states raw =
      let merged = dedupe to_lower raw in
      let (from, sorted, apart, _) = dedupe_stories to_lower raw in
      elim (Bool-cases (ltb limit (length merged))) [
        | inl long ↦ rw long (
          length-take-le limit merged,
          Sorted-take later_first limit merged sorted,
          Pairwise-take (Apart to_lower) limit merged apart,
          All-take (Apart to_lower) (λ it. In it raw) limit merged from,
          (
            drop limit merged,
            take-drop limit merged,
            inr (length-take limit merged (ground (arith, long))),
          ),
        )
        | inr short ↦
            rw short (ground (arith, short), sorted, apart, from, ([], append_nil merged, inl refl))
      ]
    where
      append_nil : (xs : List Item) → xs ++ [] ≡ xs
      append_nil [] = refl
      append_nil (x ∷ xs) = ap (λ ys. x ∷ ys) (append_nil xs)

  timeline-parts :
      (limit : ℕ) (feeds : List Feed) (states : List FetchState) (raw : List Item)
      → ((timeline to_lower limit feeds states raw).feeds ≡ feeds)
        × ((timeline to_lower limit feeds states raw).warming ≡ warming_urls states feeds)
        × ((timeline to_lower limit feeds states raw).stale ≡ stale_urls states feeds)
  unfolding timeline
  timeline-parts limit feeds states raw = (refl, refl, refl)

  get_items-Ensures :
      (urls : List Text) (since : Option Time) (limit : ℕ) (now : Time)
      → Ensures (λ db t db'. Shows urls since limit t db') (get_items to_lower urls since limit now)
  unfolding get_items timeline
  get_items-Ensures urls since limit now =
      Ensures-mono
        (λ db t db'
            (
              feeds,
              db1,
              (urls_of, all, _),
              (states, db2, (d2, read), (raw, db3, (d3, listed), (e, d4))),
            ).
          let same : db' ≡ db1 = d4 ∙ d3 ∙ d2 in
          let scanned =
            All-mono (λ f. member (map feed_id_of feeds) f.id ≡ true)
              (λ f. state_of states f ≡ scanned (state_row db1 f)) feeds read (members feeds) in
          subst (λ x. Shows urls since limit x db') (sym e)
            (subst (Shows urls since limit (timeline to_lower limit feeds states raw)) (sym same) (
              raw,
              urls_of,
              all,
              warming_urls_lem states db1 feeds scanned,
              stale_urls_lem states db1 feeds scanned,
              subst
                  (λ x. (list_items (map feed_id_of feeds) since (limit * 3) (quiet x)).0 ≡ ok raw)
                  d2 listed,
              timeline-Page limit feeds states raw,
            )))
        (Ensures-bind (ensure_feeds-Registered urls now) (λ feeds.
          Ensures-bind (fetch_states-Scanned (map feed_id_of feeds)) (λ states.
            Ensures-bind (list_items-quiet (map feed_id_of feeds) since (limit * 3))
              (λ raw. Ensures-pure (timeline to_lower limit feeds states raw)))))

  -- Where getItems does not fail, its timeline is of feeds with the URLs asked for, in their order,
  -- all in the tables afterwards; warming are those whose fetch state there has no success, and
  -- stale those with failures after a success. Its items are the first `limit` stories that dedupe
  -- keeps of the list that ListItems of these feeds, since the time asked for and with three times
  -- the limit, gives on those tables: newest first, no two of them copies of one story.
  pub get_items-Shows :
      (urls : List Text) (since : Option Time) (limit : ℕ) (now : Time) (c : Conn) (t : Timeline)
      → (get_items to_lower urls since limit now c).0 ≡ ok t
      → Shows urls since limit t (get_items to_lower urls since limit now c).1.db
  get_items-Shows urls since limit now c t h = (get_items-Ensures urls since limit now).at c t h
