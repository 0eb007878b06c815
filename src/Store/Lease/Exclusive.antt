-- ===== src/Store/Lease/Exclusive.antt =====
-- ClaimDue and ClaimFeed give a feed to one caller at a time.
use fcfeeds.Prelude.{
  ℕ, ◌+◌, ◌≤◌, ◌≡◌, refl, sym, ap, subst, ◌∙◌, ◌≢◌, inl, inr, true, some, List, [], ◌∷◌, arith,
  keep, modify, find_row, length, In, All, All-of_In,
}
use fcfeeds.Text.{Text}
use fcfeeds.Time.{Time, Duration, unix}
use fcfeeds.Store.Rows.{FeedRow, StateRow, Db, Due}
use fcfeeds.Store.Conn.{ok, Conn, ◌>>=◌, statement}
use fcfeeds.Store.Feeds.{of_feed, feed_ids}
use fcfeeds.Store.Claims.{among, due_feeds, lock, lockable, try_lock, claim_due, claim_feed}
use fcfeeds.Store.Calls.{Call, calls}
use fcfeeds.Store.Claimed.{lock_rows, due_feeds-In, In-feed_ids, In-due_ids, claim_due-Ensures}
use fcfeeds.Store.Lease.{
  Holds, IsLocked, Spares, among-modify, modify-IsLocked, due_feeds-ne, calls-IsLocked,
}

module _ (until : ℕ) where
  modify_locks :
      (i : ℕ) (ss : List StateRow) → All (Holds i until) (modify (of_feed i) (lock until) ss)
  unfolding modify lock
  modify_locks i [] = tt
  modify_locks i (s ∷ ss) = (λ e. ground arith, modify_locks i ss)

  lock_rows-keeps :
      (i : ℕ) (rs : List FeedRow) (db : Db)
      → All (Holds i until) db.states
      → All (Holds i until) (lock_rows until rs db).states
  unfolding lock_rows lock
  lock_rows-keeps i [] db h = h
  lock_rows-keeps i (r ∷ rs) db h = lock_rows-keeps i rs _ (
      modify-IsLocked i until (of_feed r.id) (lock until) (λ s. refl) (λ s k. ground arith)
        db.states h)

  lock_rows-held :
      (i : ℕ) (rs : List FeedRow) (db : Db)
      → In i (feed_ids rs)
      → All (Holds i until) (lock_rows until rs db).states
  unfolding lock_rows feed_ids
  lock_rows-held i [] db h = elim h [ ]
  lock_rows-held i (r ∷ rs) db (inl e) = lock_rows-keeps i rs _ (rw e (modify_locks r.id db.states))
  lock_rows-held i (r ∷ rs) db (inr h) = lock_rows-held i rs _ h

  among-lock_rows :
      (i : ℕ) (rs : List FeedRow) (db : Db)
      → among (lock_rows until rs db).states i ≡ among db.states i
  unfolding lock_rows lock
  among-lock_rows i [] db = refl
  among-lock_rows i (r ∷ rs) db =
      among-lock_rows i rs _
      ∙ among-modify i until (of_feed r.id) (lock until) db.states (λ s. refl)

among_of_In :
    (i : ℕ) (ss : List StateRow) (s : StateRow) → In s ss → s.feed_id ≡ i → among ss i ≡ true
unfolding find_row
among_of_In i [] s m e = elim m [ ]
among_of_In i (t ∷ ss) s m e = ground (arith, among_of_In i ss s)

module _ (now : Time) (lock_for : Duration) (limit : ℕ) (c : Conn) (ds : List Due)
    (h : (claim_due now lock_for limit c).0 ≡ ok ds) where
  claim_due-feed : (d : Due) → In d ds → In d.feed.id (feed_ids (due_feeds (unix now) limit c.db))
  claim_due-feed d m =
      subst (In d.feed.id) ((claim_due-Ensures now lock_for limit).at c ds h).1 (In-due_ids d ds m)

  -- Every feed that ClaimDue returns is locked for `lock_for` afterwards.
  pub claim_due-IsLocked :
      (d : Due)
      → In d ds
      → IsLocked d.feed.id (unix (now + lock_for)) (claim_due now lock_for limit c).1.db
  claim_due-IsLocked d m =
      let (after, _) = (claim_due-Ensures now lock_for limit).at c ds h in
      let (r, mr, e) = In-feed_ids d.feed.id _ (claim_due-feed d m) in
      let (s, ms, p, _) = due_feeds-In (unix now) limit c.db r mr in
      subst (IsLocked d.feed.id (unix (now + lock_for))) (sym after) (record {
        present =
            among-lock_rows (unix (now + lock_for)) d.feed.id _ c.db
            ∙ among_of_In d.feed.id c.db.states s ms (p ∙ e);
        held = lock_rows-held (unix (now + lock_for)) d.feed.id _ c.db (claim_due-feed d m);
      })

  -- A feed that is locked is not returned.
  pub claim_due_spares :
      (i until : ℕ) → IsLocked i until c.db → unix now ≤ until → (d : Due) → In d ds → d.feed.id ≢ i
  claim_due_spares i until locked le d m e =
      let (r, mr, p) = In-feed_ids d.feed.id _ (claim_due-feed d m) in
      All-In _ r (due_feeds-ne i until (unix now) limit c.db locked le) mr (p ∙ e)
    where
      All-In : (rs : List FeedRow) (r : FeedRow) → All (λ r. r.id ≢ i) rs → In r rs → r.id ≢ i
      All-In (t ∷ rs) r (k, ks) (inl e) = rw e k
      All-In (t ∷ rs) r (k, ks) (inr m) = All-In rs r ks m
      All-In [] r k m = elim m [ ]

module _ (i until now later : ℕ) (le : now ≤ until) where
  none_lockable :
      (ss : List StateRow) → All (Holds i until) ss → length (keep (lockable i now) ss) ≡ 0
  unfolding keep
  none_lockable [] _ = refl
  none_lockable (s ∷ ss) (k, ks) = ground (arith, none_lockable ss ks)

  try_lock_locked : (db : Db) → IsLocked i until db → (try_lock later i now db).0 ≡ ok 0
  unfolding try_lock
  try_lock_locked db h = ap ok (none_lockable db.states h.held)

-- ClaimFeed on a locked feed returns no claim.
claim_feed_locked :
    (i until : ℕ) (now : Time) (lock_for : Duration) (c : Conn) (d : Due)
    → IsLocked i until c.db
    → unix now ≤ until
    → (claim_feed i now lock_for c).0 ≢ ok (some d)
unfolding claim_feed ◌>>=◌ statement
claim_feed_locked i until now lock_for c d h le e =
    ground (arith, try_lock_locked i until (unix now) (unix (now + lock_for)) le c.db h)

module _ (hash_string : Text → Text) where
  -- A lease is exclusive. Suppose that ClaimDue returned a feed, and that after any calls that spare
  -- its lock (claims no later than the end of the lock, records of other feeds, no eviction; any
  -- statements failing) a second ClaimDue at a time no later than the end of the lock succeeds. Then
  -- the second does not return that feed, and a ClaimFeed of it at that time returns no claim.
  pub lease_exclusive :
      (now : Time) (lock_for : Duration) (limit : ℕ) (c : Conn) (ds : List Due) (d : Due)
      (xs : List Call) (now' : Time) (lock_for' : Duration) (limit' : ℕ) (ds' : List Due) (d' : Due)
      → (claim_due now lock_for limit c).0 ≡ ok ds
      → In d ds
      → All (Spares d.feed.id (unix (now + lock_for))) xs
      → unix now' ≤ unix (now + lock_for)
      → (claim_due now' lock_for' limit'
          (calls hash_string xs (claim_due now lock_for limit c).1)).0
        ≡ ok ds'
      → All (λ e. e.feed.id ≢ d.feed.id) ds'
        × ((claim_feed d.feed.id now' lock_for'
              (calls hash_string xs (claim_due now lock_for limit c).1)).0
            ≢ ok (some d'))
  lease_exclusive now lock_for limit c ds d xs now' lock_for' limit' ds' d' h m spared le h' =
      let locked =
        calls-IsLocked d.feed.id (unix (now + lock_for)) hash_string xs
          (claim_due now lock_for limit c).1 spared
          (claim_due-IsLocked now lock_for limit c ds h d m) in
      let until = unix (now + lock_for) in
      (
        All-of_In (λ e. e.feed.id ≢ d.feed.id) ds'
            (claim_due_spares now' lock_for' limit' _ ds' h' d.feed.id until locked le),
        claim_feed_locked d.feed.id until now' lock_for' _ d' locked le,
      )
