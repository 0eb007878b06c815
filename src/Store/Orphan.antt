-- ===== src/Store/Orphan.antt =====
-- EnsureFeed runs its statements outside a transaction: what a failure between its two INSERTs
-- leaves, and what later calls make of it. And: a registered feed outlives an eviction.
use fcfeeds.Prelude.{
  ℕ, ◌≡◌, refl, sym, ap, subst, ◌∙◌, ◌≢◌, inl, inr, Bool, true, false, none, some, List, [], ◌∷◌,
  ◌++◌, arith, ◌==◌, find_row, keep, All, Bool-cases,
}
use mathlib.Core.Path.{ap₂}
use fcfeeds.Text.{Text}
use fcfeeds.Time.{Time, unix}
use fcfeeds.Store.Rows.{FeedRow, StateRow, Db}
use fcfeeds.Store.Conn.{Result, ok, err, fault, Conn, Exec, ◌>>=◌, statement}
use fcfeeds.Store.Feeds.{
  next_id, feed_ids, with_url, of_feed, has_feed, new_feed, insert_feed, request, touch_feed,
  after_insert, feed_by_url, ensure_feed,
}
use fcfeeds.Store.Keeps.{Keeps, Keeps-statement, Keeps-bind, Keeps-query_row, Keeps-pure}
use fcfeeds.Store.Invariant.{IsWellFormed, feed_id-ne-next}
use fcfeeds.Store.Ensure.{find_url-append, find_url-request}

-- no state refers to an id that is not there
has_no_feed : (rs : List FeedRow) (i : ℕ) → All (λ r. r.id ≢ i) rs → has_feed rs i ≡ false
unfolding find_row
has_no_feed [] i _ = refl
has_no_feed (r ∷ rs) i (ne, h) = ground (arith, has_no_feed rs i h)

no_state_of :
    (rs : List FeedRow) (i : ℕ) (ss : List StateRow)
    → has_feed rs i ≡ false
    → All (λ s. has_feed rs s.feed_id ≡ true) ss
    → find_row (of_feed i) ss ≡ none
unfolding find_row
no_state_of rs i [] h _ = refl
no_state_of rs i (s ∷ ss) h (k, ks) = elim (Bool-cases (s.feed_id == i)) [
  | inl e ↦ absurd (ground (arith, ap (has_feed rs) (same s.feed_id i e)))
  | inr e ↦ rw e (no_state_of rs i ss h ks)
]
  where
    same : (a b : ℕ) → (a == b) ≡ true → a ≡ b
    same a b e = ground arith

find_row-keep :
    (p q : FeedRow → Bool) (rs : List FeedRow) (r : FeedRow)
    → find_row p rs ≡ some r
    → q r ≡ true
    → find_row p (keep q rs) ≡ some r
unfolding find_row keep
find_row-keep p q [] r h e = cc
find_row-keep p q (s ∷ rs) r h e = ground (arith, find_row-keep p q rs r)

module _ (u : Text) where
  -- A feed with no fetch state: it is never due, and no read of its state succeeds.
  abbrev pub IsOrphan : Db → Type 0
  IsOrphan db =
      (r : FeedRow) × (find_row (with_url u) db.feeds ≡ some r)
      × (find_row (of_feed r.id) db.states ≡ none)

  -- The first statement succeeds and the second fails.
  interrupted :
      (now : Time) (c : Conn) (fs : List Bool)
      → find_row (with_url u) c.db.feeds ≡ none
      → c.faults ≡ false ∷ true ∷ fs
      → ((ensure_feed u now c).0 ≡ err fault)
        × ((ensure_feed u now c).1.db ≡ (insert_feed u (unix now) c.db).1)
  unfolding ensure_feed insert_feed after_insert
  interrupted now c fs absent e = (ground arith, ground arith)

  -- An orphan is one as far as its own row and the states go.
  IsOrphan-of :
      (db db' : Db) (r r' : FeedRow)
      → find_row (with_url u) db'.feeds ≡ some r'
      → r'.id ≡ r.id
      → db'.states ≡ db.states
      → find_row (of_feed r.id) db.states ≡ none
      → IsOrphan db'
  IsOrphan-of db db' r r' found same_id same h =
      (r', found, ap₂ (λ (i : ℕ) (ss : List StateRow). find_row (of_feed i) ss) same_id same ∙ h)

  insert_feed-IsOrphan : (now : ℕ) (db : Db) → IsOrphan db → IsOrphan (insert_feed u now db).1
  unfolding insert_feed
  insert_feed-IsOrphan now db (r, found, h) =
      IsOrphan-of db (insert_feed u now db).1 r r (ground arith) refl (ground arith) h

  touch_feed-IsOrphan : (now : ℕ) (db : Db) → IsOrphan db → IsOrphan (touch_feed u now db).1
  unfolding touch_feed request
  touch_feed-IsOrphan now db (r, found, h) =
      IsOrphan-of db (touch_feed u now db).1 r (request now r)
        (find_url-request u now db.feeds r found) refl refl h

  -- The INSERT of a state runs only for a feed that the first statement has just created.
  ensure_feed-Keeps-IsOrphan : (now : Time) → Keeps IsOrphan (ensure_feed u now)
  unfolding ensure_feed feed_by_url
  ensure_feed-Keeps-IsOrphan now =
      bind_known (λ db o. old db o)
        (Keeps-bind _ _
          (unfold after_insert in Keeps-statement _ (λ db o. touch_feed-IsOrphan (unix now) db o))
          (λ _. Keeps-bind _ _ (Keeps-query_row _) (λ f. Keeps-pure _)))
    where
      old : (db : Db) → IsOrphan db → insert_feed u (unix now) db ≡ (ok 0, db)
      old db (r, found, h) = unfold insert_feed in ground arith

      -- a statement that always succeeds with 0 and changes nothing
      bind_known :
          {B : Type 0} {f : Db → Result ℕ × Db} {k : ℕ → Exec B}
          → ((db : Db) → IsOrphan db → f db ≡ (ok 0, db))
          → Keeps IsOrphan (k 0)
          → Keeps IsOrphan (statement f >>= k)
      bind_known {B} {f} {k} same h = record { at = λ c o. go c.db c.faults o (same c.db o) }
        where
          go :
              (db : Db) (fs : List Bool)
              → IsOrphan db
              → f db ≡ (ok 0, db)
              → IsOrphan ((statement f >>= k) (record { db = db; faults = fs })).1.db
          go db [] o e = unfold ◌>>=◌ statement in rw e (h.at (record { db = db; faults = [] }) o)
          go db (true ∷ fs) o e = unfold ◌>>=◌ statement in o
          go db (false ∷ fs) o e =
              unfold ◌>>=◌ statement in rw e (h.at (record { db = db; faults = fs }) o)

  -- Later requests for the same feed, each with its own outcome.
  abbrev pub requests : List Time → Conn → Conn
  requests [] c = c
  requests (t ∷ ts) c = requests ts (ensure_feed u t c).1

  requests-IsOrphan : (ts : List Time) (c : Conn) → IsOrphan c.db → IsOrphan (requests ts c).db
  requests-IsOrphan [] c o = o
  requests-IsOrphan (t ∷ ts) c o =
      requests-IsOrphan ts (ensure_feed u t c).1 ((ensure_feed-Keeps-IsOrphan t).at c o)

  feeds-insert_feed :
      (now : ℕ) (db : Db)
      → find_row (with_url u) db.feeds ≡ none
      → (insert_feed u now db).1.feeds
        ≡ db.feeds ++ new_feed (next_id (feed_ids db.feeds)) u now ∷ []
  unfolding insert_feed
  feeds-insert_feed now db absent = ground arith

  states-insert_feed : (now : ℕ) (db : Db) → (insert_feed u now db).1.states ≡ db.states
  unfolding insert_feed
  states-insert_feed now db = ground arith

  insert_feed-orphans :
      (now : ℕ) (db : Db)
      → IsWellFormed db
      → find_row (with_url u) db.feeds ≡ none
      → IsOrphan (insert_feed u now db).1
  insert_feed-orphans now db w absent =
      let i = next_id (feed_ids db.feeds) in
      (
        new_feed i u now,
        ap (find_row (with_url u)) (feeds-insert_feed now db absent)
            ∙ (find_url-append u db.feeds (new_feed i u now) absent (unfold new_feed in refl)),
        unfold new_feed in
            ap (find_row (of_feed i)) (states-insert_feed now db)
            ∙ (no_state_of db.feeds i db.states (has_no_feed db.feeds i (feed_id-ne-next db.feeds))
                w.state_feeds),
      )

  -- In well-formed tables that lack the feed, an EnsureFeed whose second statement fails returns
  -- the error and leaves the feed without a fetch state; it stays so through any later calls of
  -- EnsureFeed for it, whether their statements fail or not.
  pub ensure_orphans :
      (now : Time) (ts : List Time) (c : Conn) (fs : List Bool)
      → IsWellFormed c.db
      → find_row (with_url u) c.db.feeds ≡ none
      → c.faults ≡ false ∷ true ∷ fs
      → ((ensure_feed u now c).0 ≡ err fault) × IsOrphan (requests (now ∷ ts) c).db
  ensure_orphans now ts c fs w absent e =
      let (failed, left) = interrupted now c fs absent e in
      (
        failed,
        requests-IsOrphan ts (ensure_feed u now c).1
            (subst IsOrphan (sym left) (insert_feed-orphans (unix now) c.db w absent)),
      )
