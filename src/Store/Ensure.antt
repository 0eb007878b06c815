-- ===== src/Store/Ensure.antt =====
-- EnsureFeed: registration of a feed, and what a failure between its two INSERTs leaves.
use fcfeeds.Prelude.{
  ℕ, ◌≡◌, refl, sym, ap, subst, ◌∙◌, ◌⊎◌, inl, inr, Bool, true, false, Option, none, some, List, [],
  ◌∷◌, ◌++◌, arith, ◌==◌, find_row, modify, Option-cases, ◌≤◌, ◌≢◌, max, All,
}
use mathlib.Core.Path.{ap₂}
use fcfeeds.Text.{Text, text_eq_iff}
use fcfeeds.Time.{Time, unix}
use fcfeeds.Store.Rows.{FeedRow, StateRow, Db, Feed, scan_feed}
use fcfeeds.Store.Conn.{ok, Conn}
use fcfeeds.Store.Feeds.{
  next_id, feed_ids, with_url, of_feed, new_feed, new_state, insert_feed, add_state, insert_state,
  request, touch_feed, after_insert, feed_by_url, ensure_feed,
}
use fcfeeds.Store.Invariant.{feed_id-ne-next}
use fcfeeds.Store.Success.{
  Ensures, Ensures-mono, Ensures-statement, Ensures-query_row, Ensures-pure, Ensures-bind,
  Ensures-if,
}

abbrev pub was_absent : Option FeedRow → Bool
was_absent none = true
was_absent (some r) = false

-- The state rows afterwards: a new feed has a state that is due now, an old one keeps its own.
abbrev pub StateAfter : ℕ → ℕ → Db → Db → Option FeedRow → Type 0
StateAfter i now db db' none = find_row (of_feed i) db'.states ≡ some (new_state i now)
StateAfter i now db db' (some r) = db'.states ≡ db.states

module _ (u : Text) where
  pub find_url-append :
      (rs : List FeedRow) (r : FeedRow)
      → find_row (with_url u) rs ≡ none
      → r.url ≡ u
      → find_row (with_url u) (rs ++ r ∷ []) ≡ some r
  unfolding find_row
  find_url-append [] r h e = ground (arith, text_eq_iff r.url u)
  find_url-append (s ∷ rs) r h e = ground (arith, find_url-append rs r)

  pub find_url-request :
      (now : ℕ) (rs : List FeedRow) (r : FeedRow)
      → find_row (with_url u) rs ≡ some r
      → find_row (with_url u) (modify (with_url u) (request now) rs) ≡ some (request now r)
  unfolding find_row modify request
  find_url-request now [] r h = cc
  find_url-request now (s ∷ rs) r h = ground (arith, find_url-request now rs r)

  -- The row of the feed after it was ensured, from the row before, if there was one.
  abbrev pub ensured : ℕ → List FeedRow → Option FeedRow → FeedRow
  ensured now rs none = new_feed (next_id (feed_ids rs)) u now
  ensured now rs (some r) = request now r

  insert_feed_lem :
      (now : ℕ) (db : Db) (n : ℕ)
      → (insert_feed u now db).0 ≡ ok n
      → ((find_row (with_url u) db.feeds ≡ none)
          × (n ≡ 1)
          × (find_row (with_url u) (insert_feed u now db).1.feeds
              ≡ some (ensured now db.feeds none))
          × ((insert_feed u now db).1.states ≡ db.states))
        ⊎ ((r : FeedRow) × (find_row (with_url u) db.feeds ≡ some r)
            × (n ≡ 0)
            × ((insert_feed u now db).1 ≡ db))
  unfolding insert_feed new_feed
  insert_feed_lem now db n h = elim (Option-cases (find_row (with_url u) db.feeds)) [
    | inl e ↦
        inl (e, ground arith, rw (e, insert_feed) (find_url-append db.feeds _ e refl), ground arith)
    | inr (r, e) ↦ inr (r, e, ground arith, ground arith)
  ]

  touched :
      (now : ℕ) (db : Db) (r : FeedRow)
      → find_row (with_url u) db.feeds ≡ some r
      → find_row (with_url u) (touch_feed u now db).1.feeds ≡ some (request now r)
  unfolding touch_feed
  touched now db r e = find_url-request now db.feeds r e

  feeds-insert_state : (now : ℕ) (db : Db) → (insert_state u now db).1.feeds ≡ db.feeds
  unfolding insert_state
  feeds-insert_state now db = ground arith

  -- the state of the feed is there, if the INSERT of it succeeded
  state-insert_state :
      (now : ℕ) (db : Db) (r : FeedRow) (v : Unit {0})
      → find_row (with_url u) db.feeds ≡ some r
      → (insert_state u now db).0 ≡ ok v
      → find_row (of_feed r.id) (insert_state u now db).1.states ≡ some (new_state r.id now)
  unfolding insert_state
  state-insert_state now db r v e h = elim (Option-cases (find_row (of_feed r.id) db.states)) [
    | inl absent ↦
        rw (e, insert_state) (rw (absent, add_state) (find_state-append r.id now db.states absent))
    | inr (s, p) ↦ absurd (ground arith)
  ]
    where
      find_state-append :
          (i now : ℕ) (ss : List StateRow)
          → find_row (of_feed i) ss ≡ none
          → find_row (of_feed i) (ss ++ new_state i now ∷ []) ≡ some (new_state i now)
      find_state-append i now [] h = unfold find_row new_state in ground arith
      find_state-append i now (s ∷ ss) h =
          unfold find_row in ground (arith, find_state-append i now ss)

  pub after_insert-Ensures :
      (now created : ℕ)
      → Ensures
          (λ db v db'.
            (((created == 1) ≡ true)
              × (((insert_state u now db).0 ≡ ok v) × (db' ≡ (insert_state u now db).1)))
            ⊎ (((created == 1) ≡ false)
                × (((touch_feed u now db).0 ≡ ok v) × (db' ≡ (touch_feed u now db).1))))
          (after_insert u now created)
  unfolding after_insert
  after_insert-Ensures now created =
      Ensures-if (created == 1) (Ensures-statement (insert_state u now))
        (Ensures-statement (touch_feed u now))

  -- what the SELECT at the end reads
  read_back :
      (db : Db) (r : FeedRow) (f : Feed)
      → find_row (with_url u) db.feeds ≡ some r
      → elim (find_row (with_url u) db.feeds) [ none ↦ none | some q ↦ some (scan_feed q) ] ≡ some f
      → f ≡ scan_feed r
  read_back db r f e h = ground arith

  -- What a successful EnsureFeed returns, and the tables after it.
  abbrev pub Ensured : Time → Db → Feed × Bool → Db → Option FeedRow → Type 0
  Ensured now db p db' before =
      (find_row (with_url u) db.feeds ≡ before)
      × (find_row (with_url u) db'.feeds ≡ some (ensured (unix now) db.feeds before))
      × (p ≡ (scan_feed (ensured (unix now) db.feeds before), was_absent before))
      × StateAfter (ensured (unix now) db.feeds before).id (unix now) db db' before

  abbrev AfterInsert : ℕ → ℕ → Db → Unit {0} → Db → Type 0
  AfterInsert now created db v db' =
      (((created == 1) ≡ true)
        × (((insert_state u now db).0 ≡ ok v) × (db' ≡ (insert_state u now db).1)))
      ⊎ (((created == 1) ≡ false)
          × (((touch_feed u now db).0 ≡ ok v) × (db' ≡ (touch_feed u now db).1)))

  states-touch_feed : (now : ℕ) (db : Db) → (touch_feed u now db).1.states ≡ db.states
  unfolding touch_feed
  states-touch_feed now db = refl

  -- The tables between the second statement and the SELECT.
  after_insert_lem :
      (now : ℕ) (db db1 db2 : Db) (n : ℕ) (v : Unit {0})
      → (insert_feed u now db).0 ≡ ok n
      → db1 ≡ (insert_feed u now db).1
      → AfterInsert now n db1 v db2
      → (before : Option FeedRow) × (find_row (with_url u) db.feeds ≡ before)
        × (find_row (with_url u) db2.feeds ≡ some (ensured now db.feeds before))
        × ((n == 1) ≡ was_absent before)
        × StateAfter (ensured now db.feeds before).id now db db2 before
  after_insert_lem now db db1 db2 n v e d (inl (one, (e2, d2))) =
      elim (insert_feed_lem now db n e) [
        | inl (absent, _, found, same) ↦
            let found1 = ap (λ (x : Db). find_row (with_url u) x.feeds) d ∙ found in
            (
              none,
              absent,
              ap (λ (x : Db). find_row (with_url u) x.feeds) d2
                  ∙ ap (find_row (with_url u)) (feeds-insert_state now db1)
                  ∙ found1,
              one,
              ap (λ (x : Db). find_row (of_feed (ensured now db.feeds none).id) x.states) d2
                  ∙ state-insert_state now db1 (ensured now db.feeds none) v found1 e2,
            )
        | inr (r, _, zero, _) ↦ absurd (ground (arith, one, zero))
      ]
  after_insert_lem now db db1 db2 n v e d (inr (other, (e2, d2))) =
      elim (insert_feed_lem now db n e) [
        | inl (absent, one, _, _) ↦ absurd (ground (arith, one, other))
        | inr (r, found, zero, same) ↦ (
          some r,
          found,
          ap (λ (x : Db). find_row (with_url u) x.feeds) d2
              ∙ touched now db1 r
                  (ap (λ (x : Db). find_row (with_url u) x.feeds) (d ∙ same) ∙ found),
          other,
          ap (λ (x : Db). x.states) d2
              ∙ states-touch_feed now db1
              ∙ ap (λ (x : Db). x.states) (d ∙ same),
        )
      ]

  pub ensure_feed-Ensures :
      (now : Time)
      → Ensures
          (λ db p db'. (before : Option FeedRow) × Ensured now db p db' before)
          (ensure_feed u now)
  unfolding ensure_feed
  ensure_feed-Ensures now =
      Ensures-mono
        (λ db p db' (n, db1, (e1, d1), (v, db2, ai, (f, db3, (ef, d3), (ep, d4)))).
          let (before, was, found, created, state) =
            after_insert_lem (unix now) db db1 db2 n v e1 d1 ai in
          let same : db' ≡ db2 = d4 ∙ d3 in
          (
            before,
            (
              was,
              ap (λ (x : Db). find_row (with_url u) x.feeds) same ∙ found,
              ep ∙ ap₂ (λ (x : Feed) (b : Bool). (x, b)) (read_back db2 _ f found ef) created,
              subst (λ x. StateAfter (ensured (unix now) db.feeds before).id (unix now) db x before)
                  (sym same) state,
            ),
          ))
        (Ensures-bind (Ensures-statement (insert_feed u (unix now))) (λ n.
          Ensures-bind (after_insert-Ensures (unix now) n)
            (λ _. Ensures-bind (unfold feed_by_url in Ensures-query_row _) (λ f. Ensures-pure _))))

  -- A feed that was not there is a new row with a new id, and a state that is due and unlocked.
  abbrev pub Created : Time → Db → Feed × Bool → Db → Type 0
  Created now db (f, created) db' =
      (r : FeedRow) × (s : StateRow) × (find_row (with_url u) db.feeds ≡ none)
      × (created ≡ true)
      × (find_row (with_url u) db'.feeds ≡ some r)
      × (f ≡ scan_feed r)
      × (r.url ≡ u)
      × (r.created_at ≡ unix now)
      × (r.last_requested_at ≡ unix now)
      × All (λ old. old.id ≢ r.id) db.feeds
      × (find_row (of_feed r.id) db'.states ≡ some s)
      × (s.next_poll_at ≤ unix now)
      × (s.locked_until ≡ none)
      × (s.last_ok_at ≡ none)
      × (s.fail_count ≡ 0)

  -- A feed that was there is marked as requested; nothing of it goes back.
  abbrev pub Renewed : Time → Db → Feed × Bool → Db → Type 0
  Renewed now db (f, created) db' =
      (old : FeedRow) × (r : FeedRow) × (find_row (with_url u) db.feeds ≡ some old)
      × (created ≡ false)
      × (find_row (with_url u) db'.feeds ≡ some r)
      × (f ≡ scan_feed r)
      × (r ≡ record old { last_requested_at = r.last_requested_at })
      × (old.last_requested_at ≤ r.last_requested_at)
      × (unix now ≤ r.last_requested_at)
      × ((r.last_requested_at ≡ old.last_requested_at) ⊎ (r.last_requested_at ≡ unix now))
      × (db'.states ≡ db.states)

  registered :
      (now : Time) (db : Db) (p : Feed × Bool) (db' : Db) (before : Option FeedRow)
      → Ensured now db p db' before
      → Created now db p db' ⊎ Renewed now db p db'
  unfolding new_feed new_state request
  registered now db p db' none (was, found, e, state) = inl (
    new_feed (next_id (feed_ids db.feeds)) u (unix now),
    new_state (next_id (feed_ids db.feeds)) (unix now),
    was,
    ap (λ (q : Feed × Bool). q.1) e,
    found,
    ap (λ (q : Feed × Bool). q.0) e,
    refl,
    refl,
    refl,
    feed_id-ne-next db.feeds,
    state,
    omega arith,
    refl,
    refl,
    refl,
  )
  registered now db p db' (some old) (was, found, e, state) = inr (
    old,
    request (unix now) old,
    was,
    ap (λ (q : Feed × Bool). q.1) e,
    found,
    ap (λ (q : Feed × Bool). q.0) e,
    refl,
    omega arith,
    omega arith,
    max_is old.last_requested_at (unix now),
    state,
  )
    where
      max_is : (a b : ℕ) → (max a b ≡ a) ⊎ (max a b ≡ b)
      max_is a b = ground arith

  -- A successful EnsureFeed returns the feed with this url as it stands in the table afterwards, and
  -- says whether it is new. A new one has an id that no feed had, was created and requested now, and
  -- has a fetch state that is due, unlocked and without a success or a failure. An old one differs
  -- from its row before at most in the time of its last request, which is the later of the old one
  -- and now; all fetch states are as before.
  pub ensure_registers :
      (now : Time) (c : Conn) (p : Feed × Bool)
      → (ensure_feed u now c).0 ≡ ok p
      → Created now c.db p (ensure_feed u now c).1.db
        ⊎ Renewed now c.db p (ensure_feed u now c).1.db
  ensure_registers now c p h =
      let (before, e) = (ensure_feed-Ensures now).at c p h in
      registered now c.db p (ensure_feed u now c).1.db before e
