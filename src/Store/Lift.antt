-- ===== src/Store/Lift.antt =====
-- From what the statements of an operation keep to what the operation keeps.
use fcfeeds.Prelude.{ℕ, zero, suc, ◌+◌, true, false, [], ◌∷◌, List, ltb, if◌then◌else◌}
use fcfeeds.Text.{Text}
use fcfeeds.Time.{Time, Duration, unix}
use fcfeeds.Store.Rows.{FeedRow, Db, Item}
use fcfeeds.Store.Conn.{Exec, ◌>>=◌, statement, query, tick}
use fcfeeds.Store.Feeds.{
  insert_feed, insert_state, touch_feed, after_insert, feed_by_url, ensure_feed, ensure_feeds,
}
use fcfeeds.Store.Claims.{
  lock_state, fetch_state, claim_each, due_feeds, claim_due, try_lock, feed_by_id, claimed,
  claim_feed,
}
use fcfeeds.Store.Items.{insert_item, insert_each, upsert_items}
use fcfeeds.Store.Keeps.{
  Keeps, Keeps-pure, Keeps-statement, Keeps-bind, Keeps-query_row, Keeps-if, Keeps-transaction,
}

-- `P` is kept when any of the feeds is locked.
abbrev pub LocksKeep : (Db → Type 0) → ℕ → List FeedRow → Type 0
LocksKeep P until [] = Unit
LocksKeep P until (r ∷ rs) =
    ((db : Db) → P db → P (lock_state until r.id db).1) × LocksKeep P until rs

module _ {P : Db → Type 0} where
  -- What follows a query may use that its result comes from tables with the property.
  Keeps-bind_query :
      {A B : Type 0} (f : Db → A) (k : A → Exec B)
      → ((db : Db) → P db → Keeps P (k (f db)))
      → Keeps P (query f >>= k)
  unfolding ◌>>=◌ query statement
  Keeps-bind_query f k h = record { at = λ c p. go c.db c.faults p }
    where
      go : (db : Db) (fs : _) → P db → P ((query f >>= k) (record { db = db; faults = fs })).1.db
      go db [] p = (h db p).at (record { db = db; faults = [] }) p
      go db (true ∷ fs) p = p
      go db (false ∷ fs) p = (h db p).at (record { db = db; faults = fs }) p

  tick-Keeps : Keeps P tick
  unfolding tick
  tick-Keeps = Keeps-statement _ (λ db h. h)

  pub fetch_state-Keeps : (i : ℕ) → Keeps P (fetch_state i)
  unfolding fetch_state
  fetch_state-Keeps i = Keeps-query_row _

  module _ (now : Time) (insert : (u : Text) (db : Db) → P db → P (insert_feed u (unix now) db).1)
      (state : (u : Text) (db : Db) → P db → P (insert_state u (unix now) db).1)
      (touch : (u : Text) (db : Db) → P db → P (touch_feed u (unix now) db).1) where
    pub ensure_feed-Keeps : (u : Text) → Keeps P (ensure_feed u now)
    unfolding ensure_feed after_insert feed_by_url
    ensure_feed-Keeps u = Keeps-bind _ _ (Keeps-statement _ (insert u)) (λ n.
        Keeps-bind _ _ (Keeps-if _ _ _ (Keeps-statement _ (state u)) (Keeps-statement _ (touch u)))
          (λ _. Keeps-bind _ _ (Keeps-query_row _) (λ f. Keeps-pure _)))

    pub ensure_feeds-Keeps : (us : List Text) → Keeps P (ensure_feeds us now)
    unfolding ensure_feeds
    ensure_feeds-Keeps [] = Keeps-pure _
    ensure_feeds-Keeps (u ∷ us) =
        Keeps-bind _ _ (ensure_feed-Keeps u)
          (λ p. Keeps-bind _ _ (ensure_feeds-Keeps us) (λ fs. Keeps-pure _))

  module _ (until : ℕ) where
    claim_each-Keeps : (rs : List FeedRow) → LocksKeep P until rs → Keeps P (claim_each until rs)
    unfolding claim_each
    claim_each-Keeps [] _ = Keeps-pure _
    claim_each-Keeps (r ∷ rs) (k, ks) = Keeps-bind _ _ (Keeps-statement _ k) (λ _.
        Keeps-bind _ _ (fetch_state-Keeps r.id)
          (λ st. Keeps-bind _ _ (claim_each-Keeps rs ks) (λ more. Keeps-pure _)))

    pub LocksKeep-all :
        (rs : List FeedRow)
        → ((i : ℕ) (db : Db) → P db → P (lock_state until i db).1)
        → LocksKeep P until rs
    LocksKeep-all [] h = tt
    LocksKeep-all (r ∷ rs) h = (h r.id, LocksKeep-all rs h)

  pub claim_due-Keeps :
      (now : Time) (lock_for : Duration) (limit : ℕ)
      → ((db : Db) → P db → LocksKeep P (unix (now + lock_for)) (due_feeds (unix now) limit db))
      → Keeps P (claim_due now lock_for limit)
  unfolding claim_due
  claim_due-Keeps now lock_for limit h =
      Keeps-transaction _
        (Keeps-bind_query _ _ (λ db p. claim_each-Keeps (unix (now + lock_for)) _ (h db p)))

  claimed-Keeps : (i n : ℕ) → Keeps P (claimed i n)
  unfolding feed_by_id
  claimed-Keeps i zero = Keeps-pure _
  claimed-Keeps i (suc n) =
      Keeps-bind _ _ (Keeps-query_row _)
        (λ f. Keeps-bind _ _ (fetch_state-Keeps i) (λ st. Keeps-pure _))

  pub claim_feed-Keeps :
      (i : ℕ) (now : Time) (lock_for : Duration)
      → ((db : Db) → P db → P (try_lock (unix (now + lock_for)) i (unix now) db).1)
      → Keeps P (claim_feed i now lock_for)
  unfolding claim_feed
  claim_feed-Keeps i now lock_for h = Keeps-bind _ _ (Keeps-statement _ h) (claimed-Keeps i)

  module _ (hash_string : Text → Text) (feed : ℕ) (now : Time)
      (insert : (it : Item) (db : Db) → P db → P (insert_item hash_string feed it now db).1) where
    insert_each-Keeps : (n : ℕ) (its : List Item) → Keeps P (insert_each hash_string feed now n its)
    unfolding insert_each
    insert_each-Keeps n [] = Keeps-pure n
    insert_each-Keeps n (it ∷ its) =
        Keeps-bind _ _ (Keeps-statement _ (insert it))
          (λ k. insert_each-Keeps (if ltb 0 k then n + 1 else n) its)

    pub upsert_items-Keeps : (its : List Item) → Keeps P (upsert_items hash_string feed its now)
    unfolding upsert_items
    upsert_items-Keeps [] = Keeps-pure 0
    upsert_items-Keeps (it ∷ its) =
        Keeps-transaction _ (Keeps-bind _ _ tick-Keeps (λ _. insert_each-Keeps 0 (it ∷ its)))
