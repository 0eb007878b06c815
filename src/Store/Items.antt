-- ===== src/Store/Items.antt =====
-- UpsertItems, ListItems and PruneItems of internal/store/store.go.
use fcfeeds.Prelude.{
  ℕ, ◌+◌, Bool, true, false, not, ◌&&◌, ◌||◌, Option, none, some, List, [], ◌∷◌, ◌++◌, ltb, leb,
  ◌==◌, if◌then◌else◌, take, keep, find_row,
}
use fcfeeds.Prelude.Sort.{sort}
use fcfeeds.Text.{Text, text_eq, is_empty}
use fcfeeds.Time.{Time, unix}
use fcfeeds.Store.Rows.{FeedRow, ItemRow, Db, Item, scan_item}
use fcfeeds.Store.Conn.{
  Result, ok, err, constraint, Exec, pure, ◌>>=◌, ◌>>◌, statement, query, tick, transaction,
}
use fcfeeds.Store.Feeds.{next_id, with_id, item_of, has_feed}
use fcfeeds.Store.Claims.{member}

unfoldable pub item_ids : List ItemRow → List ℕ
item_ids [] = []
item_ids (r ∷ rs) = r.id ∷ item_ids rs

-- ON CONFLICT(feed_id, item_key)
abbrev pub with_key : ℕ → Text → ItemRow → Bool
with_key feed k r = r.feed_id == feed && text_eq r.item_key k

-- SHA-256 in hexadecimal; its values are of no concern to the store.
module _ (hash_string : Text → Text) where
  unfoldable pub hash_of : Item → Text
  hash_of it =
      if is_empty it.url_hash && not (is_empty it.canonical_url)
      then hash_string it.canonical_url
      else it.url_hash

  unfoldable pub new_item : ℕ → ℕ → Item → Time → ItemRow
  unfolding hash_of
  new_item i feed it now = record {
    id = i;
    feed_id = feed;
    item_key = it.key;
    url = it.url;
    canonical_url = it.canonical_url;
    url_hash = hash_of it;
    title = it.title;
    source_name = it.source_name;
    source_url = it.source_url;
    image_url = it.image_url;
    published_at = unix it.published_at;
    first_seen_at = unix now;
    date_estimated = if it.date_estimated then 1 else 0;
  }

  abbrev pub add_item : ℕ → Item → Time → Db → Result ℕ × Db
  add_item feed it now db =
      if has_feed db.feeds feed
      then (
        ok 1,
        record db { items = db.items ++ new_item (next_id (item_ids db.items)) feed it now ∷ [] },
      )
      else (err constraint, db)

  -- INSERT INTO items ... ON CONFLICT(feed_id, item_key) DO NOTHING, and the rows affected
  unfoldable pub insert_item : ℕ → Item → Time → Db → Result ℕ × Db
  unfolding new_item next_id item_ids find_row
  insert_item feed it now db = elim (find_row (with_key feed it.key) db.items) [
    | some r ↦ (ok 0, db)
    | none ↦ add_item feed it now db
  ]

  -- the loop, whose counter is `inserted`
  unfoldable pub insert_each : ℕ → Time → ℕ → List Item → Exec ℕ
  unfolding insert_item statement ◌>>=◌ pure
  insert_each feed now inserted [] = pure inserted
  insert_each feed now inserted (it ∷ its) = do
    n ← statement (insert_item feed it now)
    insert_each feed now (if ltb 0 n then inserted + 1 else inserted) its

  -- PrepareContext is a statement too
  unfoldable pub upsert_items : ℕ → List Item → Time → Exec ℕ
  unfolding insert_each tick ◌>>=◌ pure transaction
  upsert_items feed [] now = pure 0
  upsert_items feed (it ∷ its) now = transaction (do tick; insert_each feed now 0 (it ∷ its))

-- ORDER BY published_at DESC, id DESC
abbrev pub newer : ItemRow → ItemRow → Bool
newer a b = ltb b.published_at a.published_at || (a.published_at == b.published_at && leb b.id a.id)

abbrev pub join_feed : List FeedRow → ItemRow → Option Item
join_feed feeds r = elim (find_row (with_id r.feed_id) feeds) [
  | none ↦ none
  | some f ↦ some (scan_item f.url r)
]

-- FROM items i JOIN feeds f ON f.id = i.feed_id
unfoldable pub join_feeds : List FeedRow → List ItemRow → List Item
unfolding find_row scan_item
join_feeds feeds [] = []
join_feeds feeds (r ∷ rs) = elim (join_feed feeds r) [
  | none ↦ join_feeds feeds rs
  | some it ↦ it ∷ join_feeds feeds rs
]

-- The WHERE clause; `none` is a zero `since`.
abbrev pub selected : List FeedRow → List ℕ → Option Time → ItemRow → Bool
selected feeds ids none r = member ids r.feed_id && has_feed feeds r.feed_id
selected feeds ids (some t) r =
    member ids r.feed_id && (has_feed feeds r.feed_id && leb (unix t) r.published_at)

unfoldable pub select_items : List ℕ → Option Time → ℕ → Db → List ItemRow
unfolding keep sort find_row
select_items ids since limit db =
    take limit (sort newer (keep (selected db.feeds ids since) db.items))

unfoldable pub list_items : List ℕ → Option Time → ℕ → Exec (List Item)
unfolding select_items join_feeds query pure
list_items [] since limit = pure []
list_items (i ∷ is) since limit =
    query (λ db. join_feeds db.feeds (select_items (i ∷ is) since limit db))

abbrev pub has_item : List ItemRow → ℕ → Bool
has_item rows i = elim (find_row (λ r. r.id == i) rows) [ none ↦ false | some r ↦ true ]

-- SELECT id FROM items WHERE feed_id = ? ORDER BY published_at DESC, id DESC LIMIT ?
unfoldable pub newest : ℕ → ℕ → Db → List ItemRow
unfolding keep sort
newest feed limit db = take limit (sort newer (keep (item_of feed) db.items))

abbrev pub prunable : ℕ → ℕ → List ItemRow → ItemRow → Bool
prunable feed cutoff top r =
    r.feed_id == feed && (ltb r.published_at cutoff || not (has_item top r.id))

unfoldable pub delete_items : ℕ → ℕ → ℕ → Db → Result (Unit {0}) × Db
unfolding newest keep find_row
delete_items feed limit cutoff db =
    let top = newest feed limit db in
    (ok tt, record db { items = keep (λ r. not (prunable feed cutoff top r)) db.items })

unfoldable pub prune_items : ℕ → ℕ → Time → Exec (Unit {0})
unfolding delete_items statement
prune_items feed limit older_than = statement (delete_items feed limit (unix older_than))
