-- ===== src/Store/Tests.antt =====
-- The store's theorems at concrete tables.
use fcfeeds.Prelude.{
  Unique, Bool, ℕ, ◌+◌, ◌*◌, ◌≤◌, ◌<◌, ◌==◌, not, ◌≡◌, refl, ◌≢◌, ◌⊎◌, inl, inr, true, false, none,
  some, List, [], ◌∷◌, arith, length, keep, All, In, find_row,
}
use fcfeeds.Text.{Text, codes, text_eq}
use fcfeeds.Time.{Time, second}
use fcfeeds.Store.Rows.{
  Feed, FeedRow, StateRow, ItemRow, Db, empty_db, Due, Item, scan_feed, scan_state,
}
use fcfeeds.Store.Conn.{ok, err, fault, Conn, pure, ◌>>=◌}
use fcfeeds.Store.Feeds.{ensure_feed, evict_feeds, with_id, of_feed, item_of}
use fcfeeds.Store.Claims.{is_claimable, claim_due, claim_feed, record_fetch_ok, record_fetch_error}
use fcfeeds.Store.Items.{upsert_items, newest, prune_items}
use fcfeeds.Store.Invariant.{IsWellFormed}
use fcfeeds.Store.Calls.{
  Call, ensure, claim, upsert, prune, call, calls, calls-IsWellFormed, empty_db-IsWellFormed,
}
use fcfeeds.Store.Claimed.{due_ids}
use fcfeeds.Store.Runs.{quiet}
use fcfeeds.Store.Lease.Exclusive.{lease_exclusive}
use fcfeeds.Store.Batch.{claim_due_batch, Earlier}
use fcfeeds.Store.Atomic.{outcome, call_atomic}
use fcfeeds.Store.Upsert.{Adds, AllKnown, upsert-Adds, upsert_again}
use fcfeeds.Store.Retention.{Ahead, prune_keeps_newest, evict_spares_requested}
use fcfeeds.Store.Outcomes.{
  Failure, Failed, fail_all, not_modified, not_modified_keeps, failures_accumulate,
}
use fcfeeds.Store.Ensure.{Created, Renewed, ensure_registers}
use fcfeeds.Store.Orphan.{IsOrphan, requests, ensure_orphans}

abbrev no_hash : Text → Text
no_hash t = t

abbrev url_a : Text
url_a = codes "http://a"

abbrev now : Time
now = 1000 * second

abbrev soon : Time
soon = 1030 * second

abbrev feed_a : FeedRow
feed_a = record {
  id = 1;
  url = url_a;
  kind = [];
  title = [];
  site_url = [];
  poll_interval_s = 900;
  created_at = 900;
  last_requested_at = 900;
}

abbrev state_a : StateRow
state_a = record {
  feed_id = 1;
  etag = [];
  last_modified = [];
  next_poll_at = 900;
  locked_until = none;
  last_fetch_at = none;
  last_ok_at = none;
  last_status = 0;
  fail_count = 0;
  last_error = [];
  quiet_polls = 0;
}

abbrev row : ℕ → ℕ → ItemRow
row i published = record {
  id = i;
  feed_id = 1;
  item_key = i ∷ [];
  url = [];
  canonical_url = [];
  url_hash = [];
  title = [];
  source_name = [];
  source_url = [];
  image_url = [];
  published_at = published;
  first_seen_at = 900;
  date_estimated = 0;
}

abbrev item : ℕ → Item
item k = record {
  id = 0;
  feed_id = 0;
  feed_url = [];
  key = k ∷ [];
  url = [];
  canonical_url = [];
  url_hash = [];
  title = [];
  source_name = [];
  source_url = [];
  image_url = [];
  published_at = now;
  first_seen_at = 0;
  date_estimated = false;
}

abbrev one_feed : Db
one_feed = record { feeds = feed_a ∷ []; states = state_a ∷ []; items = row 1 800 ∷ row 2 700 ∷ [] }

abbrev locked_a : StateRow
locked_a = record state_a { locked_until = some 1060 }

abbrev due_a : Due
unfolding scan_feed scan_state
due_a = record { feed = scan_feed feed_a; state = scan_state locked_a }

one_feed-IsWellFormed : IsWellFormed one_feed
unfolding find_row
one_feed-IsWellFormed = record {
  feed_ids = ground arith;
  feed_urls = ground arith;
  state_ids = ground arith;
  state_feeds = ground arith;
  item_ids = ground arith;
  item_keys = ground arith;
  item_feeds = ground arith;
}

abbrev script : List Call
script = ensure (url_a ∷ []) now ∷ claim now (60 * second) 10 ∷ upsert 1 (item 5 ∷ []) now ∷ []

calls-IsWellFormed_example : IsWellFormed (calls no_hash script (quiet empty_db)).db
calls-IsWellFormed_example =
    calls-IsWellFormed no_hash script (quiet empty_db) empty_db-IsWellFormed

lease_exclusive_example :
    All (λ (e : Due). e.feed.id ≢ 1) []
    × ((claim_feed 1 soon (60 * second) (
          calls no_hash (prune 1 300 0 ∷ []) (claim_due now (60 * second) 10 (quiet one_feed)).1)).0
        ≢ ok (some due_a))
unfolding claim_due claim_feed calls prune_items scan_feed scan_state
lease_exclusive_example =
    lease_exclusive no_hash now (60 * second) 10 (quiet one_feed) (due_a ∷ []) due_a
      (prune 1 300 0 ∷ []) soon (60 * second) 10 [] due_a refl (inl refl) (tt, tt) (omega arith)
      refl

claim_due_batch_example :
    (length (due_a ∷ []) ≤ 10)
    × All
        (λ (d : Due).
          (t : StateRow) × In t one_feed.states
          × (t.feed_id ≡ d.feed.id)
          × (is_claimable 1000 t ≡ true))
        (due_a ∷ [])
    × (In 1 (due_ids (due_a ∷ []))
        ⊎ ((length (due_a ∷ []) ≡ 10)
            × All (λ (d : Due). Earlier one_feed d.feed.id 900) (due_a ∷ [])))
unfolding claim_due scan_feed scan_state
claim_due_batch_example =
    claim_due_batch now (60 * second) 10 (quiet one_feed) (due_a ∷ []) state_a one_feed-IsWellFormed
      refl (inl refl) refl

-- COMMIT fails, so the lock is taken back.
abbrev commit_fails : Conn
commit_fails = record { db = one_feed; faults = false ∷ false ∷ false ∷ false ∷ true ∷ [] }

call_atomic_example : (call no_hash (claim now (60 * second) 10) commit_fails).db ≡ commit_fails.db
unfolding call outcome claim_due
call_atomic_example = call_atomic no_hash (claim now (60 * second) 10) commit_fails fault tt refl

abbrev batch : List Item
batch = item 1 ∷ item 5 ∷ []

upsert-Adds_example :
    Adds 1 one_feed 1 (upsert_items no_hash 1 batch now (quiet one_feed)).1.db
    × AllKnown no_hash 1 now (upsert_items no_hash 1 batch now (quiet one_feed)).1.db.items batch
unfolding upsert_items text_eq
upsert-Adds_example = upsert-Adds no_hash 1 now batch (quiet one_feed) 1 refl

upsert_again_example :
    (◌≡◌ {A = ℕ} 0 0)
    × ((upsert_items no_hash 1 batch soon
          (upsert_items no_hash 1 batch now (quiet one_feed)).1).1.db
        ≡ (upsert_items no_hash 1 batch now (quiet one_feed)).1.db)
unfolding upsert_items text_eq
upsert_again_example =
    upsert_again no_hash 1 now soon batch (quiet one_feed)
      (upsert_items no_hash 1 batch now (quiet one_feed)).1 1 0 refl refl refl

prune_keeps_newest_example :
    let db' = (prune_items 1 1 (100 * second) (quiet one_feed)).1.db in
    (length (keep (item_of 1) db'.items) ≤ 1)
    × All (λ i. 100 ≤ i.published_at) (keep (item_of 1) db'.items)
    × (keep (λ i. not (item_of 1 i)) db'.items ≡ keep (λ i. not (item_of 1 i)) one_feed.items)
    × (db'.feeds ≡ one_feed.feeds)
    × (db'.states ≡ one_feed.states)
    × (In (row 2 700) db'.items
        ⊎ ((700 < 100)
            ⊎ ((length (newest 1 1 one_feed) ≡ 1)
                × Unique (λ i. i.id) (newest 1 1 one_feed)
                × All (Ahead 1 1 100 one_feed (row 2 700)) (newest 1 1 one_feed))))
unfolding prune_items
prune_keeps_newest_example =
    prune_keeps_newest 1 1 (100 * second) (quiet one_feed) tt (row 2 700) one_feed-IsWellFormed refl
      (inr (inl refl)) refl

evict_spares_requested_example :
    let db' = (evict_feeds (500 * second) (quiet one_feed)).1.db in
    (0 + length db'.feeds ≡ 1)
    × All (λ f. 500 ≤ f.last_requested_at) db'.feeds
    × In feed_a db'.feeds
    × (keep (λ s. s.feed_id == 1) db'.states ≡ keep (λ s. s.feed_id == 1) one_feed.states)
    × (keep (item_of 1) db'.items ≡ keep (item_of 1) one_feed.items)
unfolding evict_feeds
evict_spares_requested_example =
    evict_spares_requested (500 * second) (quiet one_feed) 0 feed_a refl (inl refl) (omega arith)

not_modified_keeps_example :
    let db' = (record_fetch_ok 1 (not_modified feed_a now soon) (quiet one_feed)).1.db in
    (find_row (with_id 1) db'.feeds ≡ some feed_a)
    × (find_row (of_feed 1) db'.states
        ≡ some (record state_a {
          next_poll_at = 1030;
          locked_until = none;
          last_fetch_at = some 1000;
          last_ok_at = some 1000;
          last_status = 304;
          fail_count = 0;
          last_error = [];
          quiet_polls = 1;
        }))
unfolding record_fetch_ok find_row
not_modified_keeps_example =
    not_modified_keeps 1 feed_a state_a now soon (quiet one_feed) tt refl refl refl

abbrev gone : Failure
gone = record { status = 404; msg = []; at = now; next = soon }

failures_accumulate_example :
    (s' : StateRow) × (find_row
        (of_feed 1)
        (fail_all 1 (gone ∷ gone ∷ []) (quiet one_feed)).1.db.states
      ≡ some s')
    × Failed 2 state_a s'
    × ((fail_all 1 (gone ∷ gone ∷ []) (quiet one_feed)).1.db.feeds ≡ one_feed.feeds)
    × ((fail_all 1 (gone ∷ gone ∷ []) (quiet one_feed)).1.db.items ≡ one_feed.items)
unfolding fail_all find_row ◌>>=◌ record_fetch_error pure
failures_accumulate_example =
    failures_accumulate 1 (gone ∷ gone ∷ []) state_a (quiet one_feed) tt refl refl

abbrev registered_a : Feed × Bool
registered_a = (
  record {
    id = 1;
    url = url_a;
    kind = [];
    title = [];
    site_url = [];
    poll_interval = 900 * second;
    created_at = now;
    last_requested_at = now;
  },
  true,
)

ensure_registers_example :
    Created url_a now empty_db registered_a (ensure_feed url_a now (quiet empty_db)).1.db
    ⊎ Renewed url_a now empty_db registered_a (ensure_feed url_a now (quiet empty_db)).1.db
unfolding ensure_feed text_eq
ensure_registers_example = ensure_registers url_a now (quiet empty_db) registered_a refl

abbrev interrupted : Conn
interrupted = record { db = empty_db; faults = false ∷ true ∷ [] }

ensure_orphans_example :
    ((ensure_feed url_a now interrupted).0 ≡ err fault)
    × IsOrphan url_a (requests url_a (now ∷ soon ∷ []) interrupted).db
unfolding find_row
ensure_orphans_example =
    ensure_orphans url_a now (soon ∷ []) interrupted [] empty_db-IsWellFormed refl refl
