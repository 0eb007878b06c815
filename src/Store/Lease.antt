-- ===== src/Store/Lease.antt =====
-- A lock on a feed is a lease: nobody else claims the feed before it ends, whatever is done
-- between, unless the fetch is recorded or the feed is evicted.
pub mod Exclusive
use fcfeeds.Prelude.{
  ℕ, zero, suc, ◌+◌, ◌≤◌, ◌<◌, ◌≡◌, refl, sym, ap, subst, ◌∙◌, ◌≢◌, ◌⊎◌, inl, inr, Bool, true,
  false, ◌&&◌, Option, none, some, List, [], ◌∷◌, ◌++◌, arith, ltb, leb, ◌==◌, if◌then◌else◌, keep,
  modify, find_row, In, All, All-mono, All-append, All-of_In, Bool-cases,
}
use fcfeeds.Text.{Text}
use fcfeeds.Time.{Time, Duration, unix}
use fcfeeds.Store.Rows.{FeedRow, StateRow, Db, Due, FetchOk, Item}
use fcfeeds.Store.Conn.{Result, ok, err, Conn}
use fcfeeds.Store.Feeds.{
  of_feed, feed_ids, insert_feed, add_state, insert_state, touch_feed, with_url, new_state,
}
use fcfeeds.Store.Claims.{
  is_unlocked, is_claimable, claimable, among, due_feeds, lock, lock_state, lockable, try_lock,
  claim_due, claim_feed, record_fetch_ok, succeed, record_fetch_error, fail_state,
}
use fcfeeds.Store.Items.{insert_item, prune_items, delete_items}
use fcfeeds.Store.Calls.{
  Call, ensure, claim, claim_one, fetched, failed, upsert, prune, evict, call, calls,
}
use fcfeeds.Store.Keeps.{Keeps, Keeps-statement, Keeps-bind, Keeps-transaction}
use fcfeeds.Store.Success.{Ensures}
use fcfeeds.Store.Lift.{
  LocksKeep, claim_due-Keeps, claim_feed-Keeps, ensure_feeds-Keeps, upsert_items-Keeps,
}
use fcfeeds.Store.Claimed.{due_ids, lock_rows, claim_due-Ensures, due_feeds-In}

module _ (i until : ℕ) where
  abbrev pub Holds : StateRow → Type 0
  Holds s = s.feed_id ≡ i → s.locked_until ≡ some until

  -- The feed has a state, and the state is locked until then.
  pub record IsLocked (db : Db) : Type 0 where
    pub present : among db.states i ≡ true
    pub held : All Holds db.states

  among-modify :
      (p : StateRow → Bool) (f : StateRow → StateRow) (ss : List StateRow)
      → ((s : StateRow) → (f s).feed_id ≡ s.feed_id)
      → among (modify p f ss) i ≡ among ss i
  unfolding find_row modify
  among-modify p f [] same = refl
  among-modify p f (s ∷ ss) same = ground (arith, same s, among-modify p f ss same)

  -- an UPDATE that leaves the rows of the feed alone, or locks them until the same time
  modify-IsLocked :
      (p : StateRow → Bool) (f : StateRow → StateRow)
      → ((s : StateRow) → (f s).feed_id ≡ s.feed_id)
      → ((s : StateRow) → Holds s → Holds (if p s then f s else s))
      → (ss : List StateRow) → All Holds ss
      → All Holds (modify p f ss)
  unfolding modify
  modify-IsLocked p f same k [] _ = tt
  modify-IsLocked p f same k (s ∷ ss) (h, hs) = (k s h, modify-IsLocked p f same k ss hs)

  lock_state-IsLocked :
      (j : ℕ) (later : ℕ) (db : Db)
      → (j ≢ i) ⊎ (later ≡ until)
      → IsLocked db
      → IsLocked (lock_state later j db).1
  unfolding lock_state lock
  lock_state-IsLocked j later db other h = record {
    present = among-modify (of_feed j) (lock later) db.states (λ s. refl) ∙ h.present;
    held =
        modify-IsLocked (of_feed j) (lock later) (λ s. refl) (λ s k. ground arith) db.states h.held;
  }

  -- A locked feed is not among those that may be claimed.
  due_feeds-ne :
      (now limit : ℕ) (db : Db)
      → IsLocked db
      → now ≤ until
      → All (λ r. r.id ≢ i) (due_feeds now limit db)
  due_feeds-ne now limit db h le =
      All-of_In (λ r. r.id ≢ i) (due_feeds now limit db)
        (λ r m e.
          let (s, ms, p, t) = due_feeds-In now limit db r m in
          held_not_claimable s (All-In db.states s h.held ms (p ∙ e)) t)
    where
      All-In : (ss : List StateRow) (s : StateRow) → All Holds ss → In s ss → Holds s
      All-In (t ∷ ss) s (k, ks) (inl e) = rw e k
      All-In (t ∷ ss) s (k, ks) (inr m) = All-In ss s ks m
      All-In [] s k m = elim m [ ]

      held_not_claimable :
          (s : StateRow) → s.locked_until ≡ some until → is_claimable now s ≡ true → ⊥
      held_not_claimable s e t = ground arith

  LocksKeep-of_ne :
      (later : ℕ) (rs : List FeedRow) → All (λ r. r.id ≢ i) rs → LocksKeep IsLocked later rs
  LocksKeep-of_ne later [] _ = tt
  LocksKeep-of_ne later (r ∷ rs) (ne, h) =
      (λ db p. lock_state-IsLocked r.id later db (inl ne) p, LocksKeep-of_ne later rs h)

  try_lock-IsLocked :
      (j later now : ℕ) (db : Db) → now ≤ until → IsLocked db → IsLocked (try_lock later j now db).1
  unfolding try_lock lock
  try_lock-IsLocked j later now db le h = record {
    present = among-modify (lockable j now) (lock later) db.states (λ s. refl) ∙ h.present;
    held =
        modify-IsLocked (lockable j now) (lock later) (λ s. refl) (λ s k. ground arith) db.states
          h.held;
  }

  IsLocked-of_states : (db db' : Db) → db'.states ≡ db.states → IsLocked db → IsLocked db'
  IsLocked-of_states db db' e h = record {
    present = ap (λ ss. among ss i) e ∙ h.present;
    held = subst (All Holds) (sym e) h.held;
  }

  insert_feed-IsLocked :
      (u : Text) (now : ℕ) (db : Db) → IsLocked db → IsLocked (insert_feed u now db).1
  unfolding insert_feed
  insert_feed-IsLocked u now db h = IsLocked-of_states db _ (ground arith) h

  among-append :
      (ss : List StateRow) (s : StateRow) → among ss i ≡ true → among (ss ++ s ∷ []) i ≡ true
  unfolding find_row
  among-append [] s h = cc
  among-append (t ∷ ss) s h = ground (arith, among-append ss s)

  among-none :
      (ss : List StateRow) (j : ℕ) → among ss i ≡ true → find_row (of_feed j) ss ≡ none → j ≢ i
  among-none ss j h e p = ground (arith, ap (λ k. find_row (of_feed k) ss) p)

  -- The state of a new feed is another row.
  add_state-IsLocked : (j now : ℕ) (db : Db) → IsLocked db → IsLocked (add_state j now db).1
  unfolding new_state
  add_state-IsLocked j now db h = go (find_row (of_feed j) db.states) refl
    where
      go :
          (o : Option StateRow)
          → find_row (of_feed j) db.states ≡ o
          → IsLocked (add_state j now db).1
      go (some s) e = rw (e, add_state) h
      go none e =
          rw (e, add_state)
            (record {
              present = among-append db.states _ h.present;
              held =
                  All-append Holds db.states _ h.held
                    ((λ p. absurd (among-none db.states j h.present e p)), tt);
            })

  insert_state-IsLocked :
      (u : Text) (now : ℕ) (db : Db) → IsLocked db → IsLocked (insert_state u now db).1
  unfolding insert_state
  insert_state-IsLocked u now db h = go (find_row (with_url u) db.feeds) refl
    where
      go :
          (o : Option FeedRow)
          → find_row (with_url u) db.feeds ≡ o
          → IsLocked (insert_state u now db).1
      go none e = rw (e, insert_state) h
      go (some r) e = rw (e, insert_state) (add_state-IsLocked r.id now db h)

  touch_feed-IsLocked :
      (u : Text) (now : ℕ) (db : Db) → IsLocked db → IsLocked (touch_feed u now db).1
  unfolding touch_feed
  touch_feed-IsLocked u now db h = IsLocked-of_states db _ refl h

  record_fetch_ok-IsLocked : (j : ℕ) (r : FetchOk) → j ≢ i → Keeps IsLocked (record_fetch_ok j r)
  unfolding record_fetch_ok succeed
  record_fetch_ok-IsLocked j r ne = Keeps-transaction _ (
      Keeps-bind _ _
        (Keeps-statement _ (λ db h. record {
          present = among-modify (of_feed j) (succeed r) db.states (λ s. refl) ∙ h.present;
          held =
              modify-IsLocked (of_feed j) (succeed r) (λ s. refl) (λ s k. ground arith) db.states
                h.held;
        }))
        (λ _. Keeps-statement _ (λ db h. IsLocked-of_states db _ refl h)))

  record_fetch_error-IsLocked :
      (j status : ℕ) (msg : Text) (at next : Time)
      → j ≢ i
      → Keeps IsLocked (record_fetch_error j status msg at next)
  unfolding record_fetch_error fail_state
  record_fetch_error-IsLocked j status msg at next ne = Keeps-statement _ (λ db h. record {
    present =
        among-modify (of_feed j) (fail_state status _ at next) db.states (λ s. refl) ∙ h.present;
    held =
        modify-IsLocked (of_feed j) (fail_state status _ at next) (λ s. refl) (λ s k. ground arith)
          db.states h.held;
  })

  prune_items-IsLocked :
      (j limit : ℕ) (older_than : Time) → Keeps IsLocked (prune_items j limit older_than)
  unfolding prune_items delete_items
  prune_items-IsLocked j limit older_than =
      Keeps-statement _ (λ db h. IsLocked-of_states db _ refl h)

  -- What may happen while the feed is locked: claims no later than the lock's end, records of
  -- other feeds, no eviction.
  abbrev pub Spares : Call → Type 0
  Spares (claim now lock_for limit) = unix now ≤ until
  Spares (claim_one j now lock_for) = unix now ≤ until
  Spares (fetched j r) = j ≢ i
  Spares (failed j status msg at next) = j ≢ i
  Spares (evict before) = ⊥
  Spares _ = Unit

  module _ (hash_string : Text → Text) where
    insert_item-IsLocked :
        (feed : ℕ) (it : Item) (now : Time) (db : Db)
        → IsLocked db
        → IsLocked (insert_item hash_string feed it now db).1
    unfolding insert_item
    insert_item-IsLocked feed it now db h = IsLocked-of_states db _ (ground arith) h

    call-IsLocked :
        (x : Call) (c : Conn) → Spares x → IsLocked c.db → IsLocked (call hash_string x c).db
    unfolding call
    call-IsLocked (ensure us now) c spared h =
        (ensure_feeds-Keeps now (λ u. insert_feed-IsLocked u (unix now))
            (λ u. insert_state-IsLocked u (unix now)) (λ u. touch_feed-IsLocked u (unix now)) us).at
          c h
    call-IsLocked (claim now lock_for limit) c le h =
        (claim_due-Keeps now lock_for limit
            (λ db p. LocksKeep-of_ne _ _ (due_feeds-ne (unix now) limit db p le))).at
          c h
    call-IsLocked (claim_one j now lock_for) c le h =
        (claim_feed-Keeps j now lock_for (λ db p. try_lock-IsLocked j _ (unix now) db le p)).at c h
    call-IsLocked (fetched j r) c ne h = (record_fetch_ok-IsLocked j r ne).at c h
    call-IsLocked (failed j status msg at next) c ne h =
        (record_fetch_error-IsLocked j status msg at next ne).at c h
    call-IsLocked (upsert j its now) c spared h =
        (upsert_items-Keeps hash_string j now (λ it. insert_item-IsLocked j it now) its).at c h
    call-IsLocked (prune j limit older_than) c spared h =
        (prune_items-IsLocked j limit older_than).at c h
    call-IsLocked (evict before) c spared h = elim spared [ ]

    -- A lock holds through every sequence of calls that spares it, whatever statements fail.
    calls-IsLocked :
        (xs : List Call) (c : Conn)
        → All Spares xs
        → IsLocked c.db
        → IsLocked (calls hash_string xs c).db
    unfolding calls
    calls-IsLocked [] c _ h = h
    calls-IsLocked (x ∷ xs) c (s, ss) h =
        calls-IsLocked xs (call hash_string x c) ss (call-IsLocked x c s h)
