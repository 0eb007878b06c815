-- ===== src/Store/Calls.antt =====
-- Sequences of calls of the store's operations, under any faults.
use fcfeeds.Prelude.{ℕ, refl, List, [], ◌∷◌}
use fcfeeds.Text.{Text}
use fcfeeds.Time.{Time, Duration, unix}
use fcfeeds.Store.Rows.{Db, empty_db, Item, FetchOk}
use fcfeeds.Store.Conn.{Conn}
use fcfeeds.Store.Feeds.{request, touch_feed, ensure_feed, ensure_feeds, evict_feeds}
use fcfeeds.Store.Claims.{
  lock, lock_state, claim_due, try_lock, claim_feed, succeed, refresh, record_fetch_ok, fail_state,
  record_fetch_error,
}
use fcfeeds.Store.Items.{upsert_items, delete_items, prune_items}
use fcfeeds.Store.Lift.{
  ensure_feed-Keeps, ensure_feeds-Keeps, LocksKeep-all, claim_due-Keeps, claim_feed-Keeps,
  upsert_items-Keeps,
}
use fcfeeds.Store.Keeps.{Keeps, Keeps-statement, Keeps-bind, Keeps-transaction}
use fcfeeds.Store.Invariant.{IsWellFormed}
use fcfeeds.Store.Preserve.{
  modify_feeds-IsWellFormed, modify_states-IsWellFormed, keep_items-IsWellFormed,
  insert_feed-IsWellFormed, insert_state-IsWellFormed, delete_unrequested-IsWellFormed,
  insert_item-IsWellFormed,
}

-- The operations that change tables.
pub data Call : Type 0 where
  ensure : List Text → Time → Call
  claim : Time → Duration → ℕ → Call
  claim_one : ℕ → Time → Duration → Call
  fetched : ℕ → FetchOk → Call
  failed : ℕ → ℕ → Text → Time → Time → Call
  upsert : ℕ → List Item → Time → Call
  prune : ℕ → ℕ → Time → Call
  evict : Time → Call

touch_feed-IsWellFormed :
    (u : Text) (now : ℕ) (db : Db) → IsWellFormed db → IsWellFormed (touch_feed u now db).1
unfolding touch_feed request
touch_feed-IsWellFormed u now db h =
    modify_feeds-IsWellFormed db h _ (request now) (λ r. refl) (λ r. refl)

try_lock-IsWellFormed :
    (until i now : ℕ) (db : Db) → IsWellFormed db → IsWellFormed (try_lock until i now db).1
unfolding try_lock lock
try_lock-IsWellFormed until i now db h = modify_states-IsWellFormed db h _ (lock until) (λ s. refl)

lock_state-IsWellFormed :
    (until i : ℕ) (db : Db) → IsWellFormed db → IsWellFormed (lock_state until i db).1
unfolding lock_state lock
lock_state-IsWellFormed until i db h = modify_states-IsWellFormed db h _ (lock until) (λ s. refl)

pub record_fetch_ok-Keeps : (i : ℕ) (r : FetchOk) → Keeps IsWellFormed (record_fetch_ok i r)
unfolding record_fetch_ok succeed refresh
record_fetch_ok-Keeps i r = Keeps-transaction _ (
    Keeps-bind _ _
      (Keeps-statement _ (λ db h. modify_states-IsWellFormed db h _ (succeed r) (λ s. refl)))
      (λ _.
        Keeps-statement _
          (λ db h. modify_feeds-IsWellFormed db h _ (refresh r) (λ f. refl) (λ f. refl))))

pub record_fetch_error-Keeps :
    (i status : ℕ) (msg : Text) (at next : Time)
    → Keeps IsWellFormed (record_fetch_error i status msg at next)
unfolding record_fetch_error fail_state
record_fetch_error-Keeps i status msg at next =
    Keeps-statement _
      (λ db h. modify_states-IsWellFormed db h _ (fail_state status _ at next) (λ s. refl))

pub prune_items-Keeps :
    (i limit : ℕ) (older_than : Time) → Keeps IsWellFormed (prune_items i limit older_than)
unfolding prune_items delete_items
prune_items-Keeps i limit older_than = Keeps-statement _ (λ db h. keep_items-IsWellFormed db h _)

pub evict_feeds-Keeps : (before : Time) → Keeps IsWellFormed (evict_feeds before)
unfolding evict_feeds
evict_feeds-Keeps before =
    Keeps-statement _ (λ db h. delete_unrequested-IsWellFormed db h (unix before))

pub claim_due-Keeps-IsWellFormed :
    (now : Time) (lock_for : Duration) (limit : ℕ)
    → Keeps IsWellFormed (claim_due now lock_for limit)
claim_due-Keeps-IsWellFormed now lock_for limit =
    claim_due-Keeps now lock_for limit (λ db p. LocksKeep-all _ _ (lock_state-IsWellFormed _))

pub claim_feed-Keeps-IsWellFormed :
    (i : ℕ) (now : Time) (lock_for : Duration) → Keeps IsWellFormed (claim_feed i now lock_for)
claim_feed-Keeps-IsWellFormed i now lock_for =
    claim_feed-Keeps i now lock_for (λ db p. try_lock-IsWellFormed _ i (unix now) db p)

pub upsert_items-Keeps-IsWellFormed :
    (hash_string : Text → Text) (i : ℕ) (its : List Item) (now : Time)
    → Keeps IsWellFormed (upsert_items hash_string i its now)
upsert_items-Keeps-IsWellFormed hash_string i its now =
    upsert_items-Keeps hash_string i now
      (λ it db p. insert_item-IsWellFormed hash_string db p i it now) its

pub ensure_feed-Keeps-IsWellFormed :
    (u : Text) (now : Time) → Keeps IsWellFormed (ensure_feed u now)
ensure_feed-Keeps-IsWellFormed u now =
    ensure_feed-Keeps now (λ v db p. insert_feed-IsWellFormed db p v (unix now))
      (λ v db p. insert_state-IsWellFormed db p v (unix now))
      (λ v db p. touch_feed-IsWellFormed v (unix now) db p) u

pub ensure_feeds-Keeps-IsWellFormed :
    (us : List Text) (now : Time) → Keeps IsWellFormed (ensure_feeds us now)
ensure_feeds-Keeps-IsWellFormed us now =
    ensure_feeds-Keeps now (λ u db p. insert_feed-IsWellFormed db p u (unix now))
      (λ u db p. insert_state-IsWellFormed db p u (unix now))
      (λ u db p. touch_feed-IsWellFormed u (unix now) db p) us

module _ (hash_string : Text → Text) where
  -- The connection after a call, whatever it returned.
  unfoldable pub call : Call → Conn → Conn
  call (ensure us now) c = (ensure_feeds us now c).1
  call (claim now lock_for limit) c = (claim_due now lock_for limit c).1
  call (claim_one i now lock_for) c = (claim_feed i now lock_for c).1
  call (fetched i r) c = (record_fetch_ok i r c).1
  call (failed i status msg at next) c = (record_fetch_error i status msg at next c).1
  call (upsert i its now) c = (upsert_items hash_string i its now c).1
  call (prune i limit older_than) c = (prune_items i limit older_than c).1
  call (evict before) c = (evict_feeds before c).1

  unfoldable pub calls : List Call → Conn → Conn
  unfolding call
  calls [] c = c
  calls (x ∷ xs) c = calls xs (call x c)

  call-IsWellFormed : (x : Call) (c : Conn) → IsWellFormed c.db → IsWellFormed (call x c).db
  unfolding call
  call-IsWellFormed (ensure us now) c h = (ensure_feeds-Keeps-IsWellFormed us now).at c h
  call-IsWellFormed (claim now lock_for limit) c h =
      (claim_due-Keeps-IsWellFormed now lock_for limit).at c h
  call-IsWellFormed (claim_one i now lock_for) c h =
      (claim_feed-Keeps-IsWellFormed i now lock_for).at c h
  call-IsWellFormed (fetched i r) c h = (record_fetch_ok-Keeps i r).at c h
  call-IsWellFormed (failed i status msg at next) c h =
      (record_fetch_error-Keeps i status msg at next).at c h
  call-IsWellFormed (upsert i its now) c h =
      (upsert_items-Keeps-IsWellFormed hash_string i its now).at c h
  call-IsWellFormed (prune i limit older_than) c h = (prune_items-Keeps i limit older_than).at c h
  call-IsWellFormed (evict before) c h = (evict_feeds-Keeps before).at c h

  -- From tables that meet the schema's constraints (unique feed ids and urls, one state for a feed,
  -- unique item ids and (feed, key) pairs, states and items only of feeds that exist), every
  -- sequence of the store's operations leads to such tables, whatever statements fail on the way.
  pub calls-IsWellFormed :
      (xs : List Call) (c : Conn) → IsWellFormed c.db → IsWellFormed (calls xs c).db
  unfolding calls
  calls-IsWellFormed [] c h = h
  calls-IsWellFormed (x ∷ xs) c h = calls-IsWellFormed xs (call x c) (call-IsWellFormed x c h)

pub empty_db-IsWellFormed : IsWellFormed empty_db
empty_db-IsWellFormed = record {
  feed_ids = tt;
  feed_urls = tt;
  state_ids = tt;
  state_feeds = tt;
  item_ids = tt;
  item_keys = tt;
  item_feeds = tt;
}
