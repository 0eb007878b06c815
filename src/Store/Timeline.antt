-- ===== src/Store/Timeline.antt =====
-- ListItems: which headlines a timeline shows.
use fcfeeds.Prelude.{
  ℕ, suc, ◌≤◌, ◌≡◌, refl, sym, ap, subst, ◌∙◌, ◌⊎◌, inl, inr, Bool, true, Option, none, some, List,
  [], ◌∷◌, arith, leb, ◌==◌, length, keep, find_row, take, In, In-keep, In-take, All, All-of_In,
  Bool-cases, length-take-le,
}
use fcfeeds.Prelude.Sort.{sort, Sorted, sort-Sorted, In-sort, Sorted-take}
use fcfeeds.Time.{Time, unix, unix-from_unix}
use fcfeeds.Store.Rows.{FeedRow, ItemRow, Db, Item, scan_item}
use fcfeeds.Store.Conn.{Conn}
use fcfeeds.Store.Feeds.{with_id, has_feed}
use fcfeeds.Store.Claims.{member}
use fcfeeds.Store.Items.{newer, selected, select_items, join_feeds, list_items}
use fcfeeds.Store.Retention.{newer_total, newer_trans}
use fcfeeds.Store.Success.{Ensures-query, Ensures-mono, Ensures}

-- Newest first.
abbrev pub later_first : Item → Item → Bool
later_first a b = leb b.published_at a.published_at

-- What the query guarantees of a headline: its feed was asked for, and it is not too old.
abbrev pub SinceOk : Option Time → ℕ → Type 0
SinceOk none published = Unit
SinceOk (some t) published = unix t ≤ published

module _ (feeds : List FeedRow) where
  -- a row and the headline that it is read into
  abbrev Reads : ItemRow → Item → Type 0
  Reads r it =
      (f : FeedRow) × (find_row (with_id r.feed_id) feeds ≡ some f) × (it ≡ scan_item f.url r)

  has_feed-some :
      (i : ℕ) (rs : List FeedRow)
      → has_feed rs i ≡ true
      → (f : FeedRow) × (find_row (with_id i) rs ≡ some f)
  unfolding find_row
  has_feed-some i [] h = cc
  has_feed-some i (r ∷ rs) h = elim (Bool-cases (r.id == i)) [
    | inl e ↦ (r, ground arith)
    | inr e ↦ let (f, p) = has_feed-some i rs (ground arith) in (f, ground arith)
  ]

  join_feeds-cons :
      (r : ItemRow) (rs : List ItemRow)
      → has_feed feeds r.feed_id ≡ true
      → (it : Item) × Reads r it × (join_feeds feeds (r ∷ rs) ≡ it ∷ join_feeds feeds rs)
  unfolding join_feeds
  join_feeds-cons r rs h =
      let (f, e) = has_feed-some r.feed_id feeds h in
      (scan_item f.url r, (f, e, refl), ground (arith, e))

  abbrev Known : List ItemRow → Type 0
  Known = All (λ r. has_feed feeds r.feed_id ≡ true)

  All-join_feeds :
      (Q : ItemRow → Type 0) (P : Item → Type 0) (rs : List ItemRow)
      → ((r : ItemRow) (it : Item) → Reads r it → Q r → P it)
      → Known rs
      → All Q rs
      → All P (join_feeds feeds rs)
  All-join_feeds Q P [] f _ _ = unfold join_feeds in tt
  All-join_feeds Q P (r ∷ rs) f (k, ks) (q, qs) =
      let (it, read, e) = join_feeds-cons r rs k in
      subst (All P) (sym e) (f r it read q, All-join_feeds Q P rs f ks qs)

  length-join_feeds : (rs : List ItemRow) → Known rs → length (join_feeds feeds rs) ≡ length rs
  length-join_feeds [] _ = unfold join_feeds in refl
  length-join_feeds (r ∷ rs) (k, ks) =
      let (it, read, e) = join_feeds-cons r rs k in ap length e ∙ ap suc (length-join_feeds rs ks)

  later_of_newer :
      (a b : ItemRow) (x y : Item)
      → Reads a x
      → Reads b y
      → newer a b ≡ true
      → later_first x y ≡ true
  later_of_newer a b x y (f, _, p) (g, _, q) h = rw p (rw q (unfold scan_item in ground arith))

  Sorted-join_feeds :
      (rs : List ItemRow) → Known rs → Sorted newer rs → Sorted later_first (join_feeds feeds rs)
  Sorted-join_feeds [] _ _ = unfold join_feeds in tt
  Sorted-join_feeds (r ∷ rs) (k, ks) (h, hs) =
      let (it, read, e) = join_feeds-cons r rs k in
      subst (Sorted later_first) (sym e) (
        All-join_feeds (λ q. newer r q ≡ true) (λ y. later_first it y ≡ true) rs
            (λ q y read' n. later_of_newer r q it y read read' n) ks h,
        Sorted-join_feeds rs ks hs,
      )

module _ (ids : List ℕ) (since : Option Time) (limit : ℕ) (db : Db) where
  selected_lem :
      (o : Option Time) (r : ItemRow)
      → selected db.feeds ids o r ≡ true
      → (member ids r.feed_id ≡ true)
        × SinceOk o r.published_at
        × (has_feed db.feeds r.feed_id ≡ true)
  selected_lem none r h = ground arith
  selected_lem (some t) r h = ground arith

  abbrev all : List ItemRow
  all = sort newer (keep (selected db.feeds ids since) db.items)

  row_selected : (r : ItemRow) → In r (take limit all) → selected db.feeds ids since r ≡ true
  row_selected r m =
      (In-keep (selected db.feeds ids since) r db.items
        (In-sort newer r _ (In-take limit r all m))).1

  rows-Known : All (λ r. has_feed db.feeds r.feed_id ≡ true) (take limit all)
  rows-Known =
      All-of_In _ (take limit all)
        (λ r m. let (_, _, k) = selected_lem since r (row_selected r m) in k)

  all-Sorted : Sorted newer all
  all-Sorted =
      sort-Sorted newer newer_total newer_trans (keep (selected db.feeds ids since) db.items)

  -- What a timeline shows of the tables.
  abbrev pub Shows : List Item → Type 0
  Shows its =
      (length its ≤ limit)
      × Sorted later_first its
      × All (λ it. (member ids it.feed_id ≡ true) × SinceOk since (unix it.published_at)) its

  shows : Shows (join_feeds db.feeds (take limit all))
  shows = (
    subst (λ n. n ≤ limit) (sym (length-join_feeds db.feeds (take limit all) rows-Known))
        (length-take-le limit all),
    Sorted-join_feeds db.feeds (take limit all) rows-Known (Sorted-take newer limit all all-Sorted),
    All-join_feeds db.feeds (λ r. selected db.feeds ids since r ≡ true) _ (take limit all)
        (λ r it (f, _, p) h.
          let (k, l, _) = selected_lem since r h in
          (
            rw p (unfold scan_item in k),
            subst (SinceOk since) (rw p (unfold scan_item in sym (unix-from_unix r.published_at)))
                l,
          ))
        rows-Known (All-of_In _ (take limit all) row_selected),
  )

  -- A headline that is left out stands behind a full page of headlines.
  abbrev pub ShownOrFull : ItemRow → List Item → Type 0
  ShownOrFull r its =
      ((it : Item) × Reads db.feeds r it × In it its)
      ⊎ ((length its ≡ limit) × All (λ it. r.published_at ≤ unix it.published_at) its)

pub list_items-Shows :
    (i : ℕ) (is : List ℕ) (since : Option Time) (limit : ℕ)
    → Ensures
        (λ db its db'. Shows (i ∷ is) since limit db its × (db' ≡ db))
        (list_items (i ∷ is) since limit)
unfolding list_items select_items
list_items-Shows i is since limit =
    Ensures-mono
      (λ db its db' (same, d).
        (subst (Shows (i ∷ is) since limit db) (sym same) (shows (i ∷ is) since limit db), d))
      (Ensures-query (λ db. join_feeds db.feeds (select_items (i ∷ is) since limit db)))
