-- ===== src/Store/Feeds.antt =====
-- EnsureFeed, EnsureFeeds, FeedByURL, EvictFeeds and Stats of internal/store/store.go.
use fcfeeds.Prelude.{
  ℕ, suc, ◌-◌, max, Bool, true, false, not, Option, none, some, List, [], ◌∷◌, ◌++◌, ltb, leb, ◌==◌,
  if◌then◌else◌, length, keep, modify, find_row,
}
use fcfeeds.Text.{Text, text_eq}
use fcfeeds.Time.{Time, Duration, unix, from_unix}
use fcfeeds.Store.Rows.{FeedRow, StateRow, ItemRow, Db, Feed, Stats, scan_feed}
use fcfeeds.Store.Conn.{
  Result, ok, err, constraint, Exec, pure, ◌>>=◌, ◌>>◌, statement, query, query_row,
}

-- The rowid of a new row is one more than the largest in the table.
unfoldable pub next_id : List ℕ → ℕ
next_id [] = 1
next_id (i ∷ is) = max (suc i) (next_id is)

unfoldable pub feed_ids : List FeedRow → List ℕ
feed_ids [] = []
feed_ids (r ∷ rs) = r.id ∷ feed_ids rs

abbrev pub with_url : Text → FeedRow → Bool
with_url u r = text_eq r.url u

abbrev pub with_id : ℕ → FeedRow → Bool
with_id i r = r.id == i

abbrev pub of_feed : ℕ → StateRow → Bool
of_feed i r = r.feed_id == i

abbrev pub item_of : ℕ → ItemRow → Bool
item_of i r = r.feed_id == i

-- The row that the INSERT makes, with the column defaults of the schema.
unfoldable pub new_feed : ℕ → Text → ℕ → FeedRow
new_feed i u now = record {
  id = i;
  url = u;
  kind = [];
  title = [];
  site_url = [];
  poll_interval_s = 900;
  created_at = now;
  last_requested_at = now;
}

unfoldable pub new_state : ℕ → ℕ → StateRow
new_state i now = record {
  feed_id = i;
  etag = [];
  last_modified = [];
  next_poll_at = now;
  locked_until = none;
  last_fetch_at = none;
  last_ok_at = none;
  last_status = 0;
  fail_count = 0;
  last_error = [];
  quiet_polls = 0;
}

-- INSERT INTO feeds ... ON CONFLICT(url) DO NOTHING, and the rows affected
unfoldable pub insert_feed : Text → ℕ → Db → Result ℕ × Db
unfolding next_id feed_ids new_feed find_row
insert_feed u now db = elim (find_row (with_url u) db.feeds) [
  | some r ↦ (ok 0, db)
  | none ↦
      (ok 1, record db { feeds = db.feeds ++ new_feed (next_id (feed_ids db.feeds)) u now ∷ [] })
]

abbrev pub add_state : ℕ → ℕ → Db → Result (Unit {0}) × Db
add_state i now db = elim (find_row (of_feed i) db.states) [
  | some s ↦ (err constraint, db)
  | none ↦ (ok tt, record db { states = db.states ++ new_state i now ∷ [] })
]

-- INSERT INTO fetch_state (feed_id, next_poll_at) SELECT id, ? FROM feeds WHERE url = ?
unfoldable pub insert_state : Text → ℕ → Db → Result (Unit {0}) × Db
unfolding new_state find_row
insert_state u now db = elim (find_row (with_url u) db.feeds) [
  | none ↦ (ok tt, db)
  | some r ↦ add_state r.id now db
]

-- last_requested_at = MAX(last_requested_at, ?)
unfoldable pub request : ℕ → FeedRow → FeedRow
request now r = record r { last_requested_at = max r.last_requested_at now }

unfoldable pub touch_feed : Text → ℕ → Db → Result (Unit {0}) × Db
unfolding request modify
touch_feed u now db = (ok tt, record db { feeds = modify (with_url u) (request now) db.feeds })

unfoldable pub feed_by_url : Text → Exec Feed
unfolding query_row find_row scan_feed
feed_by_url u =
    query_row
      (λ db. elim (find_row (with_url u) db.feeds) [ none ↦ none | some r ↦ some (scan_feed r) ])

-- The statement after the INSERT: a new feed gets its state, an old one is marked as requested.
unfoldable pub after_insert : Text → ℕ → ℕ → Exec (Unit {0})
unfolding insert_state touch_feed statement
after_insert u now created =
    if created == 1 then statement (insert_state u now) else statement (touch_feed u now)

unfoldable pub ensure_feed : Text → Time → Exec (Feed × Bool)
unfolding insert_feed after_insert feed_by_url ◌>>=◌ statement pure
ensure_feed u now = do
  created ← statement (insert_feed u (unix now))
  after_insert u (unix now) created
  f ← feed_by_url u
  pure (f, created == 1)

unfoldable pub ensure_feeds : List Text → Time → Exec (List Feed)
unfolding ensure_feed ◌>>=◌ pure
ensure_feeds [] now = pure []
ensure_feeds (u ∷ us) now = do (f, _) ← ensure_feed u now; fs ← ensure_feeds us now; pure (f ∷ fs)

abbrev pub unrequested : ℕ → FeedRow → Bool
unrequested cutoff r = ltb r.last_requested_at cutoff

abbrev pub has_feed : List FeedRow → ℕ → Bool
has_feed feeds i = elim (find_row (with_id i) feeds) [ none ↦ false | some r ↦ true ]

-- DELETE FROM feeds WHERE last_requested_at < ?, with ON DELETE CASCADE
unfoldable pub delete_unrequested : ℕ → Db → Result ℕ × Db
unfolding keep find_row
delete_unrequested cutoff db =
    let left = keep (λ r. not (unrequested cutoff r)) db.feeds in
    (
      ok (length (keep (unrequested cutoff) db.feeds)),
      record {
        feeds = left;
        states = keep (λ s. has_feed left s.feed_id) db.states;
        items = keep (λ i. has_feed left i.feed_id) db.items;
      },
    )

unfoldable pub evict_feeds : Time → Exec ℕ
unfolding delete_unrequested statement
evict_feeds before = statement (delete_unrequested (unix before))

-- MIN(next_poll_at), NULL over no rows
abbrev pub least : List StateRow → Option ℕ
least [] = none
least (s ∷ ss) = elim (least ss) [
  | none ↦ some s.next_poll_at
  | some n ↦ some (if ltb s.next_poll_at n then s.next_poll_at else n)
]

abbrev pub is_due : ℕ → StateRow → Bool
is_due now s = leb s.next_poll_at now

-- now.Sub of the oldest due time; the subtraction is exact, since a due time is not after `now`
abbrev pub due_age : Time → Option ℕ → Duration
due_age now none = 0
due_age now (some n) = now - from_unix n

unfoldable pub stats : Time → Exec Stats
unfolding query ◌>>=◌ pure keep
stats now = do
  feeds ← query (λ db. length db.feeds)
  backlog ← query (λ db. keep (is_due (unix now)) db.states)
  items ← query (λ db. length db.items)
  pure (record {
    feeds = feeds;
    due = length backlog;
    items = items;
    oldest_due_age = due_age now (least backlog);
  })
