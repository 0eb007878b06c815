-- ===== src/Store/Atomic.antt =====
-- Which calls change nothing when they return an error.
use fcfeeds.Prelude.{List, ℕ, ◌+◌, modify, ◌≡◌, refl, Option, none, some, [], ◌∷◌, arith}
use fcfeeds.Text.{Text}
use fcfeeds.Time.{Time, Duration, unix}
use fcfeeds.Store.Rows.{Db, FetchOk, Item}
use fcfeeds.Store.Conn.{
  Error, Result, ok, err, Conn, Exec, statement, transaction, pure, query, tick, ◌>>=◌, ◌>>◌,
}
use fcfeeds.Store.Feeds.{of_feed, with_id, ensure_feeds, delete_unrequested, evict_feeds}
use fcfeeds.Store.Claims.{
  due_feeds, claim_each, succeed, refresh, fail_state, cut_message, claim_due, claim_feed,
  record_fetch_ok, record_fetch_error,
}
use fcfeeds.Store.Items.{insert_each, upsert_items, delete_items, prune_items}
use fcfeeds.Store.Keeps.{transaction_rollback}
use fcfeeds.Store.Calls.{
  Call, ensure, claim, claim_one, fetched, failed, upsert, prune, evict, call,
}

module _ {A : Type 0} where
  abbrev pub error_of : Result A → Option Error
  error_of (ok a) = none
  error_of (err e) = some e

  err_of_error : (r : Result A) (e : Error) → error_of r ≡ some e → r ≡ err e
  err_of_error r e h = ground arith

  -- Where `m` returns an error it has changed no table.
  record Reverts (m : Exec A) : Type 0 where
    at : (c : Conn) (e : Error) → (m c).0 ≡ err e → (m c).1.db ≡ c.db

  Reverts-statement :
      (f : Db → Result A × Db) → ((db : Db) → error_of (f db).0 ≡ none) → Reverts (statement f)
  unfolding statement
  Reverts-statement f g = record { at = λ c e h. ground (arith, g c.db) }

  Reverts-transaction : (body : Exec A) → Reverts (transaction body)
  Reverts-transaction body = record { at = λ c e h. transaction_rollback body c e h }

  Reverts-pure : (a : A) → Reverts (pure a)
  unfolding pure
  Reverts-pure a = record { at = λ c e h. refl }

claim_due-Reverts :
    (now : Time) (lock_for : Duration) (limit : ℕ) → Reverts (claim_due now lock_for limit)
unfolding claim_due
claim_due-Reverts now lock_for limit =
    Reverts-transaction
      (query (due_feeds (unix now) limit) >>= λ rows. claim_each (unix (now + lock_for)) rows)

record_fetch_ok-Reverts : (i : ℕ) (r : FetchOk) → Reverts (record_fetch_ok i r)
unfolding record_fetch_ok
record_fetch_ok-Reverts i r = Reverts-transaction (
    statement (λ db. (ok tt, record db { states = modify (of_feed i) (succeed r) db.states }))
    >> statement (λ db. (ok tt, record db { feeds = modify (with_id i) (refresh r) db.feeds })))

record_fetch_error-Reverts :
    (i status : ℕ) (msg : Text) (at next : Time) → Reverts (record_fetch_error i status msg at next)
unfolding record_fetch_error
record_fetch_error-Reverts i status msg at next =
    Reverts-statement
      (λ db. (
        ok tt,
        record db {
          states = modify (of_feed i) (fail_state status (cut_message msg) at next) db.states;
        },
      ))
      (λ db. refl)

upsert_items-Reverts :
    (hash_string : Text → Text) (i : ℕ) (its : List Item) (now : Time)
    → Reverts (upsert_items hash_string i its now)
unfolding upsert_items
upsert_items-Reverts hash_string i [] now = Reverts-pure 0
upsert_items-Reverts hash_string i (it ∷ its) now =
    Reverts-transaction (tick >> insert_each hash_string i now 0 (it ∷ its))

prune_items-Reverts : (i limit : ℕ) (older_than : Time) → Reverts (prune_items i limit older_than)
unfolding prune_items delete_items
prune_items-Reverts i limit older_than =
    Reverts-statement (delete_items i limit (unix older_than)) (λ db. refl)

evict_feeds-Reverts : (before : Time) → Reverts (evict_feeds before)
unfolding evict_feeds delete_unrequested
evict_feeds-Reverts before = Reverts-statement (delete_unrequested (unix before)) (λ db. refl)

module _ (hash_string : Text → Text) where
  -- The error that a call returns.
  unfoldable pub outcome : Call → Conn → Option Error
  outcome (ensure us now) c = error_of (ensure_feeds us now c).0
  outcome (claim now lock_for limit) c = error_of (claim_due now lock_for limit c).0
  outcome (claim_one i now lock_for) c = error_of (claim_feed i now lock_for c).0
  outcome (fetched i r) c = error_of (record_fetch_ok i r c).0
  outcome (failed i status msg at next) c = error_of (record_fetch_error i status msg at next c).0
  outcome (upsert i its now) c = error_of (upsert_items hash_string i its now c).0
  outcome (prune i limit older_than) c = error_of (prune_items i limit older_than c).0
  outcome (evict before) c = error_of (evict_feeds before c).0

-- The calls that are one statement or one transaction.
abbrev pub IsAtomic : Call → Type 0
IsAtomic (ensure us now) = ⊥
IsAtomic (claim_one i now lock_for) = ⊥
IsAtomic _ = Unit

-- ClaimDue, RecordFetchOK, RecordFetchError, UpsertItems, PruneItems and EvictFeeds are atomic: where
-- such a call returns an error, whichever statement failed, every table is as it was before the call.
pub call_atomic :
    (hash_string : Text → Text) (x : Call) (c : Conn) (e : Error)
    → IsAtomic x
    → outcome hash_string x c ≡ some e
    → (call hash_string x c).db ≡ c.db
unfolding call outcome
call_atomic hash_string (ensure us now) c e a h = elim a [ ]
call_atomic hash_string (claim_one i now lock_for) c e a h = elim a [ ]
call_atomic hash_string (claim now lock_for limit) c e a h =
    (claim_due-Reverts now lock_for limit).at c e (err_of_error _ e h)
call_atomic hash_string (fetched i r) c e a h =
    (record_fetch_ok-Reverts i r).at c e (err_of_error _ e h)
call_atomic hash_string (failed i status msg at next) c e a h =
    (record_fetch_error-Reverts i status msg at next).at c e (err_of_error _ e h)
call_atomic hash_string (upsert i its now) c e a h =
    (upsert_items-Reverts hash_string i its now).at c e (err_of_error _ e h)
call_atomic hash_string (prune i limit older_than) c e a h =
    (prune_items-Reverts i limit older_than).at c e (err_of_error _ e h)
call_atomic hash_string (evict before) c e a h =
    (evict_feeds-Reverts before).at c e (err_of_error _ e h)
