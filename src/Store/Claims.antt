-- ===== src/Store/Claims.antt =====
-- The fetch state: ClaimDue, ClaimFeed, FetchState, FetchStates, RecordFetchOK and
-- RecordFetchError of internal/store/store.go.
use fcfeeds.Prelude.{
  ℕ, zero, suc, ◌+◌, ◌/◌, Bool, true, false, ◌&&◌, Option, none, some, List, [], ◌∷◌, ltb, leb,
  ◌==◌, if◌then◌else◌, length, take, keep, modify, find_row,
}
use fcfeeds.Prelude.Sort.{sort}
use fcfeeds.Text.{Text, is_empty}
use fcfeeds.Time.{Time, Duration, second, unix}
use fcfeeds.Store.Rows.{
  FeedRow, StateRow, Db, Feed, FetchState, Due, FetchOk, scan_feed, scan_state,
}
use fcfeeds.Store.Conn.{
  Result, ok, Exec, pure, ◌>>=◌, ◌>>◌, statement, query, query_row, transaction,
}
use fcfeeds.Store.Feeds.{with_id, of_feed}

-- locked_until IS NULL OR locked_until < ?
abbrev pub is_unlocked : ℕ → Option ℕ → Bool
is_unlocked now none = true
is_unlocked now (some until) = ltb until now

-- next_poll_at <= ? AND (locked_until IS NULL OR locked_until < ?)
abbrev pub is_claimable : ℕ → StateRow → Bool
is_claimable now s = leb s.next_poll_at now && is_unlocked now s.locked_until

abbrev pub sooner : StateRow → StateRow → Bool
sooner a b = leb a.next_poll_at b.next_poll_at

-- SELECT feed_id ... ORDER BY next_poll_at LIMIT ?
unfoldable pub claimable : ℕ → ℕ → Db → List StateRow
unfolding keep sort
claimable now limit db = take limit (sort sooner (keep (is_claimable now) db.states))

abbrev pub among : List StateRow → ℕ → Bool
among rows i = elim (find_row (of_feed i) rows) [ none ↦ false | some s ↦ true ]

-- SELECT ... FROM feeds WHERE id IN (...)
unfoldable pub due_feeds : ℕ → ℕ → Db → List FeedRow
unfolding claimable find_row keep
due_feeds now limit db = keep (λ r. among (claimable now limit db) r.id) db.feeds

unfoldable pub lock : ℕ → StateRow → StateRow
lock until s = record s { locked_until = some until }

-- UPDATE fetch_state SET locked_until = ? WHERE feed_id = ?
unfoldable pub lock_state : ℕ → ℕ → Db → Result (Unit {0}) × Db
unfolding lock modify
lock_state until i db = (ok tt, record db { states = modify (of_feed i) (lock until) db.states })

unfoldable pub fetch_state : ℕ → Exec FetchState
unfolding query_row find_row scan_state
fetch_state i =
    query_row
      (λ db. elim (find_row (of_feed i) db.states) [ none ↦ none | some s ↦ some (scan_state s) ])

-- the loop over the feeds found
unfoldable pub claim_each : ℕ → List FeedRow → Exec (List Due)
unfolding lock_state fetch_state statement ◌>>=◌ pure scan_feed
claim_each until [] = pure []
claim_each until (r ∷ rs) = do
  statement (lock_state until r.id)
  st ← fetch_state r.id
  more ← claim_each until rs
  pure (record { feed = scan_feed r; state = st } ∷ more)

unfoldable pub claim_due : Time → Duration → ℕ → Exec (List Due)
unfolding due_feeds claim_each query ◌>>=◌ transaction
claim_due now lock_for limit =
    transaction
      (do rows ← query (due_feeds (unix now) limit); claim_each (unix (now + lock_for)) rows)

abbrev pub lockable : ℕ → ℕ → StateRow → Bool
lockable i now s = s.feed_id == i && is_unlocked now s.locked_until

-- the UPDATE of ClaimFeed, and the rows affected
unfoldable pub try_lock : ℕ → ℕ → ℕ → Db → Result ℕ × Db
unfolding lock modify keep
try_lock until i now db = (
  ok (length (keep (lockable i now) db.states)),
  record db { states = modify (lockable i now) (lock until) db.states },
)

unfoldable pub feed_by_id : ℕ → Exec Feed
unfolding query_row find_row scan_feed
feed_by_id i =
    query_row
      (λ db. elim (find_row (with_id i) db.feeds) [ none ↦ none | some r ↦ some (scan_feed r) ])

abbrev pub claimed : ℕ → ℕ → Exec (Option Due)
claimed i zero = pure none
claimed i (suc n) = do
  f ← feed_by_id i
  st ← fetch_state i
  pure (some (record { feed = f; state = st }))

-- `none` is the result false
unfoldable pub claim_feed : ℕ → Time → Duration → Exec (Option Due)
unfolding try_lock feed_by_id fetch_state statement ◌>>=◌ pure
claim_feed i now lock_for = do
  n ← statement (try_lock (unix (now + lock_for)) i (unix now))
  claimed i n

-- CASE WHEN ? != '' THEN ? ELSE column END
abbrev pub or_old : Text → Text → Text
or_old new old = if is_empty new then old else new

unfoldable pub succeed : FetchOk → StateRow → StateRow
succeed r s = record s {
  etag = or_old r.etag s.etag;
  last_modified = or_old r.last_modified s.last_modified;
  next_poll_at = unix r.next_poll_at;
  locked_until = none;
  last_fetch_at = some (unix r.fetched_at);
  last_ok_at = some (unix r.fetched_at);
  last_status = r.status;
  fail_count = 0;
  last_error = [];
  quiet_polls = if ltb 0 r.new_items then 0 else s.quiet_polls + 1;
}

unfoldable pub refresh : FetchOk → FeedRow → FeedRow
refresh r f = record f {
  kind = or_old r.kind f.kind;
  title = or_old r.title f.title;
  site_url = or_old r.site_url f.site_url;
  poll_interval_s =
      if ltb 0 (r.poll_interval / second) then r.poll_interval / second else f.poll_interval_s;
}

unfoldable pub record_fetch_ok : ℕ → FetchOk → Exec (Unit {0})
unfolding succeed refresh modify statement ◌>>=◌ transaction
record_fetch_ok i r = transaction (do
  statement (λ db. (ok tt, record db { states = modify (of_feed i) (succeed r) db.states }))
  statement (λ db. (ok tt, record db { feeds = modify (with_id i) (refresh r) db.feeds })))

unfoldable pub fail_state : ℕ → Text → Time → Time → StateRow → StateRow
fail_state status msg fetched_at next_poll_at s = record s {
  next_poll_at = unix next_poll_at;
  locked_until = none;
  last_fetch_at = some (unix fetched_at);
  last_status = status;
  fail_count = s.fail_count + 1;
  last_error = msg;
}

-- if len(msg) > 500 { msg = msg[:500] }
abbrev pub cut_message : Text → Text
cut_message msg = if ltb 500 (length msg) then take 500 msg else msg

unfoldable pub record_fetch_error : ℕ → ℕ → Text → Time → Time → Exec (Unit {0})
unfolding fail_state modify statement
record_fetch_error i status msg fetched_at next_poll_at = statement (λ db. (
  ok tt,
  record db {
    states =
        modify (of_feed i) (fail_state status (cut_message msg) fetched_at next_poll_at) db.states;
  },
))

abbrev pub member : List ℕ → ℕ → Bool
member [] i = false
member (j ∷ js) i = if i == j then true else member js i

abbrev pub scan_states : List StateRow → List FetchState
scan_states [] = []
scan_states (s ∷ ss) = scan_state s ∷ scan_states ss

-- the map of FetchStates, as the list of its values; each carries its key
unfoldable pub fetch_states : List ℕ → Exec (List FetchState)
unfolding query keep scan_state pure
fetch_states [] = pure []
fetch_states (i ∷ is) = query (λ db. scan_states (keep (λ s. member (i ∷ is) s.feed_id) db.states))
