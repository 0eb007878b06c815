-- ===== src/Store/Claimed.antt =====
-- What a successful ClaimDue returns and does.
use fcfeeds.Prelude.{
  ℕ, ◌+◌, ◌≡◌, refl, sym, ap, ◌∙◌, inl, inr, true, List, [], ◌∷◌, arith, ◌==◌, modify, find_row, In,
  In-keep, In-take, Bool-cases,
}
use fcfeeds.Prelude.Sort.{In-sort}
use fcfeeds.Time.{Time, Duration, unix}
use fcfeeds.Store.Rows.{FeedRow, StateRow, Db, Due}
use fcfeeds.Store.Success.{
  Ensures, Ensures-mono, Ensures-statement, Ensures-query, Ensures-query_row, Ensures-pure,
  Ensures-bind, Ensures-transaction,
}
use fcfeeds.Store.Feeds.{of_feed, feed_ids}
use fcfeeds.Store.Claims.{
  is_claimable, sooner, claimable, among, due_feeds, lock_state, fetch_state, claim_each, claim_due,
  lock,
}

abbrev pub due_ids : List Due → List ℕ
due_ids [] = []
due_ids (d ∷ ds) = d.feed.id ∷ due_ids ds

-- the tables after locking each of the feeds
unfoldable pub lock_rows : ℕ → List FeedRow → Db → Db
unfolding lock modify
lock_rows until [] db = db
lock_rows until (r ∷ rs) db =
    lock_rows until rs (record db { states = modify (of_feed r.id) (lock until) db.states })

claim_each-Ensures :
    (until : ℕ) (rs : List FeedRow)
    → Ensures
        (λ db ds db'. (db' ≡ lock_rows until rs db) × (due_ids ds ≡ feed_ids rs))
        (claim_each until rs)
unfolding claim_each
claim_each-Ensures until [] =
    Ensures-mono (λ db ds db' (e, d). unfold lock_rows feed_ids in (d, ap due_ids e))
      (Ensures-pure [])
claim_each-Ensures until (r ∷ rs) =
    Ensures-mono
      (λ db ds db' (_, db1, (_, d1), (st, db2, (_, d2), (more, db3, (d3, same), (e, d4)))).
        unfold lock_rows lock_state lock feed_ids in
        (d4 ∙ d3 ∙ ap (lock_rows until rs) (d2 ∙ d1), ap due_ids e ∙ ap (◌∷◌ r.id) same))
      (Ensures-bind (Ensures-statement (lock_state until r.id)) (λ _.
        Ensures-bind (unfold fetch_state in Ensures-query_row _)
          (λ st. Ensures-bind (claim_each-Ensures until rs) (λ more. Ensures-pure _))))

pub In-due_ids : (d : Due) (ds : List Due) → In d ds → In d.feed.id (due_ids ds)
In-due_ids d [] h = elim h [ ]
In-due_ids d (e ∷ ds) (inl p) = inl (ap (λ x. x.feed.id) p)
In-due_ids d (e ∷ ds) (inr h) = inr (In-due_ids d ds h)

pub In-feed_ids :
    (i : ℕ) (rs : List FeedRow) → In i (feed_ids rs) → (r : FeedRow) × In r rs × (r.id ≡ i)
unfolding feed_ids
In-feed_ids i [] h = elim h [ ]
In-feed_ids i (r ∷ rs) (inl e) = (r, inl refl, sym e)
In-feed_ids i (r ∷ rs) (inr h) = let (q, m, e) = In-feed_ids i rs h in (q, inr m, e)

pub feed_ids-In : (r : FeedRow) (rs : List FeedRow) → In r rs → In r.id (feed_ids rs)
unfolding feed_ids
feed_ids-In r [] m = elim m [ ]
feed_ids-In r (q ∷ rs) (inl e) = inl (ap (λ x. x.id) e)
feed_ids-In r (q ∷ rs) (inr m) = inr (feed_ids-In r rs m)

pub among-some :
    (rows : List StateRow) (i : ℕ)
    → among rows i ≡ true
    → (s : StateRow) × In s rows × (s.feed_id ≡ i)
unfolding find_row
among-some [] i h = cc
among-some (s ∷ rows) i h = elim (Bool-cases (s.feed_id == i)) [
  | inl e ↦ (s, inl refl, ground arith)
  | inr e ↦ let (t, m, p) = among-some rows i (ground arith) in (t, inr m, p)
]

module _ (now limit : ℕ) (db : Db) where
  -- Only rows of due and unlocked feeds are claimed.
  pub claimable-In :
      (s : StateRow) → In s (claimable now limit db) → In s db.states × (is_claimable now s ≡ true)
  unfolding claimable
  claimable-In s m =
      In-keep (is_claimable now) s db.states (In-sort sooner s _ (In-take limit s _ m))

  pub due_feeds-In :
      (r : FeedRow)
      → In r (due_feeds now limit db)
      → (s : StateRow) × In s db.states × (s.feed_id ≡ r.id) × (is_claimable now s ≡ true)
  unfolding due_feeds
  due_feeds-In r m =
      let (m', e) = In-keep (λ r. among (claimable now limit db) r.id) r db.feeds m in
      let (s, ms, p) = among-some (claimable now limit db) r.id e in
      let (mt, t) = claimable-In s ms in (s, mt, p, t)

-- On success the claimed feeds are the due and unlocked ones, and exactly they are locked.
pub claim_due-Ensures :
    (now : Time) (lock_for : Duration) (limit : ℕ)
    → Ensures
        (λ db ds db'.
          (db' ≡ lock_rows (unix (now + lock_for)) (due_feeds (unix now) limit db) db)
          × (due_ids ds ≡ feed_ids (due_feeds (unix now) limit db)))
        (claim_due now lock_for limit)
unfolding claim_due
claim_due-Ensures now lock_for limit = Ensures-transaction (
    Ensures-mono
      (λ db ds db' (rows, db1, (e, d1), (d2, same)). (
        d2
            ∙ ap (λ x. lock_rows (unix (now + lock_for)) x db1) e
            ∙ ap (lock_rows (unix (now + lock_for)) (due_feeds (unix now) limit db)) d1,
        same ∙ ap feed_ids e,
      ))
      (Ensures-bind (Ensures-query (due_feeds (unix now) limit))
        (λ rows. claim_each-Ensures (unix (now + lock_for)) rows)))
