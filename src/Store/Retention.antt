-- ===== src/Store/Retention.antt =====
-- PruneItems and EvictFeeds: what is deleted, and what stays.
use fcfeeds.Prelude.{
  ℕ, ◌+◌, ◌≤◌, ◌<◌, ◌≡◌, sym, ap, subst, ◌∙◌, ◌⊎◌, inl, inr, true, false, not, List, [], ◌∷◌, arith,
  ◌==◌, length, keep, find_row, take, In, In-keep, keep-In, All, All-of_In, All-In, In-take, ◌≢◌,
  Unique, Unique-keep, Bool-cases, length-take-le,
}
use fcfeeds.Prelude.Sort.{
  sort, sort-Sorted, sort-In, In-sort, Unique-take_sort, le_of_take-drop, In-take-drop,
  length-take_of_drop,
}
use fcfeeds.Prelude.Count.{
  unique_once, length-keep-hit_any, length-keep-not, length-keep-keep-le, keep-keep_implied,
}
use fcfeeds.Time.{Time, unix}
use fcfeeds.Store.Rows.{FeedRow, ItemRow, Db}
use fcfeeds.Store.Conn.{ok, Conn}
use fcfeeds.Store.Feeds.{item_of, has_feed, unrequested, delete_unrequested, evict_feeds}
use fcfeeds.Store.Items.{newer, newest, has_item, prunable, delete_items, prune_items}
use fcfeeds.Store.Invariant.{IsWellFormed}
use fcfeeds.Store.Success.{Ensures-statement}

pub newer_total : (a b : ItemRow) → newer a b ≡ false → newer b a ≡ true
newer_total a b h = ground arith

pub newer_trans : (a b c : ItemRow) → newer a b ≡ true → newer b c ≡ true → newer a c ≡ true
newer_trans a b c h k = ground arith

module _ (feed limit cutoff : ℕ) (db : Db) where
  abbrev top : List ItemRow
  top = newest feed limit db

  abbrev left : List ItemRow
  left = keep (λ r. not (prunable feed cutoff top r)) db.items

  length-newest : length top ≤ limit
  unfolding newest
  length-newest = length-take-le limit (sort newer (keep (item_of feed) db.items))

  -- of the feed's rows only rows of `top` are left
  length-left : Unique (λ i. i.id) db.items → length (keep (item_of feed) left) ≤ limit
  length-left u = omega (
    arith,
    length-keep-keep-le (item_of feed) (λ r. not (prunable feed cutoff top r))
        (λ r. has_item top r.id) db.items (λ r h k. ground arith),
    length-keep-hit_any (λ t r. t.id == r.id) db.items top
        (λ t. unique_once (λ r. r.id) t.id db.items u),
    length-newest,
  )

  left-recent : All (λ r. cutoff ≤ r.published_at) (keep (item_of feed) left)
  left-recent = All-of_In _ (keep (item_of feed) left) (λ r m.
      let (m1, own) = In-keep (item_of feed) r left m in
      let (m2, e) = In-keep (λ r. not (prunable feed cutoff top r)) r db.items m1 in ground arith)

  others-left : keep (λ r. not (item_of feed r)) left ≡ keep (λ r. not (item_of feed r)) db.items
  others-left =
      keep-keep_implied (λ r. not (item_of feed r)) (λ r. not (prunable feed cutoff top r)) db.items
        (λ r h. ground arith)

  has_item_of_In : (r : ItemRow) (rows : List ItemRow) → In r rows → has_item rows r.id ≡ true
  unfolding find_row
  has_item_of_In r [] m = elim m [ ]
  has_item_of_In r (t ∷ rows) m = ground (arith, has_item_of_In r rows)

  abbrev by_age : List ItemRow
  by_age = sort newer (keep (item_of feed) db.items)

  newest-or-older :
      (r : ItemRow)
      → In r db.items
      → r.feed_id ≡ feed
      → In r top ⊎ ((length top ≡ limit) × All (λ t. newer t r ≡ true) top)
  unfolding newest
  newest-or-older r m own =
      elim (In-take-drop newer limit by_age r
        (sort-In newer r _ (keep-In (item_of feed) r db.items m (ground arith)))) [
          | inl first ↦ inl first
          | inr later ↦ inr (
            length-take_of_drop newer limit by_age r later,
            All-of_In _ (take limit by_age) (λ t mt.
                le_of_take-drop newer limit by_age t r
                  (sort-Sorted newer newer_total newer_trans (keep (item_of feed) db.items)) mt
                  later),
          )
        ]

  -- A row of the feed that stands before `r`.
  abbrev pub Ahead : ItemRow → ItemRow → Type 0
  Ahead r t = In t db.items × (t.feed_id ≡ feed) × (newer t r ≡ true) × (t.id ≢ r.id)

  top-In : (t : ItemRow) → In t top → In t db.items × (t.feed_id ≡ feed)
  unfolding newest
  top-In t mt =
      let (mi, own) =
        In-keep (item_of feed) t db.items (In-sort newer t _ (In-take limit t by_age mt)) in
      (mi, ground arith)

  top-Unique : Unique (λ i. i.id) db.items → Unique (λ i. i.id) top
  unfolding newest
  top-Unique u =
      Unique-take_sort (λ i. i.id) newer limit (keep (item_of feed) db.items)
        (Unique-keep (λ i. i.id) (item_of feed) db.items u)

  differ : {i j : ℕ} → i ≡ j → has_item top i ≡ true → has_item top j ≡ false → ⊥
  differ e h k = ground (arith, ap (has_item top) e, h, k)

  kept-or-older :
      (r : ItemRow)
      → In r db.items
      → r.feed_id ≡ feed
      → In r left ⊎ ((r.published_at < cutoff) ⊎ ((length top ≡ limit) × All (Ahead r) top))
  kept-or-older r m own = elim (Bool-cases (prunable feed cutoff top r)) [
    | inr stays ↦ inl (keep-In (λ r. not (prunable feed cutoff top r)) r db.items m (ap not stays))
    | inl goes ↦ elim (newest-or-older r m own) [
      | inl first ↦ inr (inl (ground (arith, has_item_of_In r top first)))
      | inr (full, older) ↦ elim (Bool-cases (has_item top r.id)) [
        | inl known ↦ inr (inl (ground (arith, known, goes)))
        | inr unknown ↦ inr (
            inr (
              full,
              All-of_In _ top (λ t mt.
                  let (mi, own_t) = top-In t mt in
                  (
                    mi,
                    own_t,
                    All-In (λ x. newer x r ≡ true) top t older mt,
                    λ e. differ e (has_item_of_In t top mt) unknown,
                  )),
            ))
      ]
    ]
  ]

module _ (feed limit : ℕ) (older_than : Time) (c : Conn) (u : Unit {0}) where
  prune_items-items :
      (prune_items feed limit older_than c).0 ≡ ok u
      → (prune_items feed limit older_than c).1.db
        ≡ record c.db { items = left feed limit (unix older_than) c.db }
  unfolding prune_items delete_items
  prune_items-items h = ((Ensures-statement (delete_items feed limit (unix older_than))).at c u h).1

  -- After a successful prune of well-formed tables the feed has at most `limit` headlines, none
  -- published before the cutoff; the headlines of other feeds, the feeds and the states are as before;
  -- and a headline of the feed stays, or was published before the cutoff, or stands behind `limit`
  -- other rows of the feed in the order by publication time, then id, latest first.
  pub prune_keeps_newest :
      (r : ItemRow)
      → IsWellFormed c.db
      → (prune_items feed limit older_than c).0 ≡ ok u
      → In r c.db.items
      → r.feed_id ≡ feed
      → let db' = (prune_items feed limit older_than c).1.db in
        (length (keep (item_of feed) db'.items) ≤ limit)
        × All (λ i. unix older_than ≤ i.published_at) (keep (item_of feed) db'.items)
        × (keep (λ i. not (item_of feed i)) db'.items ≡ keep (λ i. not (item_of feed i)) c.db.items)
        × (db'.feeds ≡ c.db.feeds)
        × (db'.states ≡ c.db.states)
        × (In r db'.items
            ⊎ ((r.published_at < unix older_than)
                ⊎ ((length (newest feed limit c.db) ≡ limit)
                    × Unique (λ i. i.id) (newest feed limit c.db)
                    × All (Ahead feed limit (unix older_than) c.db r) (newest feed limit c.db))))
  prune_keeps_newest r h e m own =
      let d = prune_items-items e in
      let cutoff = unix older_than in
      (
        subst (λ x. length (keep (item_of feed) x.items) ≤ limit) (sym d)
            (length-left feed limit cutoff c.db h.item_ids),
        subst (λ x. All (λ i. cutoff ≤ i.published_at) (keep (item_of feed) x.items)) (sym d)
            (left-recent feed limit cutoff c.db),
        ap (λ x. keep (λ i. not (item_of feed i)) x.items) d ∙ others-left feed limit cutoff c.db,
        ap (λ x. x.feeds) d,
        ap (λ x. x.states) d,
        elim (kept-or-older feed limit cutoff c.db r m own) [
          | inl stays ↦ inl (subst (λ x. In r x.items) (sym d) stays)
          | inr (inl old) ↦ inr (inl old)
          | inr (inr (full, ahead)) ↦
              inr (inr (full, top-Unique feed limit cutoff c.db h.item_ids, ahead))
        ],
      )

has_feed_of_In : (r : FeedRow) (rs : List FeedRow) → In r rs → has_feed rs r.id ≡ true
unfolding find_row
has_feed_of_In r [] m = elim m [ ]
has_feed_of_In r (t ∷ rs) m = ground (arith, has_feed_of_In r rs)

module _ (before : Time) (c : Conn) (n : ℕ) where
  pub evict_feeds-Ensures :
      (evict_feeds before c).0 ≡ ok n
      → (n ≡ length (keep (unrequested (unix before)) c.db.feeds))
        × ((evict_feeds before c).1.db ≡ (delete_unrequested (unix before) c.db).1)
  unfolding evict_feeds delete_unrequested
  evict_feeds-Ensures h =
      let (e, d) = (Ensures-statement (delete_unrequested (unix before))).at c n h in
      (ground (arith, e), d)

  -- A successful eviction reports how many feeds it deleted, and leaves no feed that was last requested
  -- before the cutoff; a feed that was requested at the cutoff or later stays as it was, with all its
  -- states and headlines.
  pub evict_spares_requested :
      (r : FeedRow)
      → (evict_feeds before c).0 ≡ ok n
      → In r c.db.feeds
      → unix before ≤ r.last_requested_at
      → let db' = (evict_feeds before c).1.db in
        (n + length db'.feeds ≡ length c.db.feeds)
        × All (λ f. unix before ≤ f.last_requested_at) db'.feeds
        × In r db'.feeds
        × (keep (λ s. s.feed_id == r.id) db'.states ≡ keep (λ s. s.feed_id == r.id) c.db.states)
        × (keep (item_of r.id) db'.items ≡ keep (item_of r.id) c.db.items)
  unfolding delete_unrequested
  evict_spares_requested r h m le =
      let (e, d) = evict_feeds-Ensures h in
      let cutoff = unix before in
      let left = keep (λ f. not (unrequested cutoff f)) c.db.feeds in
      let stays : In r left =
        keep-In (λ f. not (unrequested cutoff f)) r c.db.feeds m (ground arith) in
      let known = has_feed_of_In r left stays in
      (
        rw (e, d) (length-keep-not (unrequested cutoff) c.db.feeds),
        subst (λ x. All (λ f. cutoff ≤ f.last_requested_at) x.feeds) (sym d)
            (All-of_In _ left (λ f mf.
              let (_, k) = In-keep (λ f. not (unrequested cutoff f)) f c.db.feeds mf in
              ground arith)),
        subst (λ x. In r x.feeds) (sym d) stays,
        rw d (
            keep-keep_implied (λ s. s.feed_id == r.id) (λ s. has_feed left s.feed_id) c.db.states
              (λ s k. ap (has_feed left) (same_id s.feed_id k) ∙ known)),
        rw d (
            keep-keep_implied (item_of r.id) (λ i. has_feed left i.feed_id) c.db.items
              (λ i k. ap (has_feed left) (same_id i.feed_id k) ∙ known)),
      )
    where
      same_id : (i : ℕ) → (i == r.id) ≡ true → i ≡ r.id
      same_id i k = ground arith
