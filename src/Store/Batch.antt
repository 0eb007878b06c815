-- ===== src/Store/Batch.antt =====
-- ClaimDue: how many feeds one call claims, and which it leaves for later.
use fcfeeds.Prelude.{
  ℕ, ◌≤◌, ◌≡◌, refl, sym, ap, subst, ◌∙◌, ◌⊎◌, inl, inr, true, false, List, [], ◌∷◌, arith, ◌==◌,
  keep, find_row, length, drop, In, In-keep, keep-In, All, All-In, All-of_In, Unique, Unique-keep,
  Bool-cases, length-take-le,
}
use fcfeeds.Prelude.Sort.{
  sort, sort-Sorted, sort-In, Unique-take_sort, length-take_of_drop, le_of_take-drop, In-take-drop,
}
use fcfeeds.Prelude.Count.{length-Unique, unique_once, length-keep-hit_any}
use fcfeeds.Time.{Time, Duration, unix}
use fcfeeds.Store.Rows.{FeedRow, StateRow, Db, Due}
use fcfeeds.Store.Conn.{ok, Conn}
use fcfeeds.Store.Feeds.{has_feed, feed_ids}
use fcfeeds.Store.Claims.{is_claimable, sooner, claimable, among, due_feeds, claim_due}
use fcfeeds.Store.Invariant.{IsWellFormed}
use fcfeeds.Store.Claimed.{
  due_ids, claim_due-Ensures, due_feeds-In, In-due_ids, among-some, claimable-In, In-feed_ids,
  feed_ids-In,
}

length-due_ids :
    (ds : List Due) (rs : List FeedRow) → due_ids ds ≡ feed_ids rs → length ds ≡ length rs
unfolding feed_ids
length-due_ids [] [] e = refl
length-due_ids [] (r ∷ rs) e = absurd (cc)
length-due_ids (d ∷ ds) [] e = absurd (cc)
length-due_ids (d ∷ ds) (r ∷ rs) e = omega (arith, length-due_ids ds rs (cc))

-- no more feeds than states are found
due_feeds-le : (now limit : ℕ) (db : Db) → IsWellFormed db → length (due_feeds now limit db) ≤ limit
unfolding due_feeds claimable
due_feeds-le now limit db h = omega (
  arith,
  length-keep-hit_any (λ s r. s.feed_id == r.id) db.feeds (claimable now limit db)
      (λ s. unique_once (λ r. r.id) s.feed_id db.feeds h.feed_ids),
  length-take-le limit (sort sooner (keep (is_claimable now) db.states)),
)

among-In : (rows : List StateRow) (s : StateRow) → In s rows → among rows s.feed_id ≡ true
unfolding find_row
among-In [] s m = elim m [ ]
among-In (t ∷ rows) s m = ground (arith, among-In rows s)

has_feed-some :
    (feeds : List FeedRow) (i : ℕ)
    → has_feed feeds i ≡ true
    → (r : FeedRow) × In r feeds × (r.id ≡ i)
unfolding find_row
has_feed-some [] i h = cc
has_feed-some (r ∷ feeds) i h = elim (Bool-cases (r.id == i)) [
  | inl e ↦ (r, inl refl, ground arith)
  | inr e ↦ let (q, m, p) = has_feed-some feeds i (ground arith) in (q, inr m, p)
]

sooner_total : (a b : StateRow) → sooner a b ≡ false → sooner b a ≡ true
sooner_total a b h = ground arith

sooner_trans : (a b c : StateRow) → sooner a b ≡ true → sooner b c ≡ true → sooner a c ≡ true
sooner_trans a b c h k = ground arith

-- A state of the feed that falls due no later.
abbrev pub Earlier : Db → ℕ → ℕ → Type 0
Earlier db i next = (t : StateRow) × In t db.states × (t.feed_id ≡ i) × (t.next_poll_at ≤ next)

length-feed_ids : (rs : List FeedRow) → length (feed_ids rs) ≡ length rs
unfolding feed_ids
length-feed_ids [] = refl
length-feed_ids (r ∷ rs) = omega (arith, length-feed_ids rs)

state_known :
    (db : Db) (s : StateRow) → IsWellFormed db → In s db.states → has_feed db.feeds s.feed_id ≡ true
state_known db s w m = All-In (λ x. has_feed db.feeds x.feed_id ≡ true) db.states s w.state_feeds m

module _ (now limit : ℕ) (db : Db) where
  due_feeds-Earlier :
      (s : StateRow)
      → In s db.states
      → is_claimable now s ≡ true
      → has_feed db.feeds s.feed_id ≡ true
      → IsWellFormed db
      → In s.feed_id (feed_ids (due_feeds now limit db))
        ⊎ ((limit ≤ length (due_feeds now limit db))
            × ((r : FeedRow) → In r (due_feeds now limit db) → Earlier db r.id s.next_poll_at))
  unfolding due_feeds
  due_feeds-Earlier s m t known w = elim split [
    | inl first ↦
        let (r, mr, e) = has_feed-some db.feeds s.feed_id known in
        let chosen =
          keep-In (λ q. among (claimable now limit db) q.id) r db.feeds mr
            (ap (among (claimable now limit db)) e ∙ among-In (claimable now limit db) s first) in
        inl (subst (λ i. In i (feed_ids (due_feeds now limit db))) e (feed_ids-In r _ chosen))
    | inr later ↦ inr (
      full later,
      λ r mr.
          let (_, e) = In-keep (λ q. among (claimable now limit db) q.id) r db.feeds mr in
          let (q, mq, p) = among-some (claimable now limit db) r.id e in
          (q, (claimable-In now limit db q mq).0, p, before q mq later),
    )
  ]
    where
      all : List StateRow
      all = sort sooner (keep (is_claimable now) db.states)

      split : In s (claimable now limit db) ⊎ In s (drop limit all)
      split =
          unfold claimable in
          In-take-drop sooner limit all s
            (sort-In sooner s _ (keep-In (is_claimable now) s db.states m t))

      claimable-Unique : Unique (λ q. q.feed_id) (claimable now limit db)
      claimable-Unique =
          unfold claimable in
          Unique-take_sort (λ q. q.feed_id) sooner limit (keep (is_claimable now) db.states)
            (Unique-keep (λ q. q.feed_id) (is_claimable now) db.states w.state_ids)

      full : In s (drop limit all) → limit ≤ length (due_feeds now limit db)
      full later =
          let ids = feed_ids (keep (λ r. among (claimable now limit db) r.id) db.feeds) in
          let count =
            length-Unique (λ q. q.feed_id) (claimable now limit db) ids claimable-Unique
              (All-of_In _ (claimable now limit db) chosen) in
          omega (arith, count, page, ids_of)
        where
          page : length (claimable now limit db) ≡ limit
          page = unfold claimable in length-take_of_drop sooner limit all s later

          ids_of :
              length (feed_ids (keep (λ r. among (claimable now limit db) r.id) db.feeds))
              ≡ length (due_feeds now limit db)
          ids_of = length-feed_ids (keep (λ r. among (claimable now limit db) r.id) db.feeds)

          chosen :
              (q : StateRow)
              → In q (claimable now limit db)
              → In q.feed_id (feed_ids (keep (λ r. among (claimable now limit db) r.id) db.feeds))
          chosen q mq =
              let (r, mr, e) =
                has_feed-some db.feeds q.feed_id
                  (state_known db q w (claimable-In now limit db q mq).0) in
              subst
                (λ i. In i (feed_ids (keep (λ r. among (claimable now limit db) r.id) db.feeds))) e
                (feed_ids-In r _ (
                  keep-In (λ x. among (claimable now limit db) x.id) r db.feeds mr
                    (ap (among (claimable now limit db)) e
                      ∙ among-In (claimable now limit db) q mq)))

      before :
          (q : StateRow)
          → In q (claimable now limit db)
          → In s (drop limit all)
          → q.next_poll_at ≤ s.next_poll_at
      before q mq ms =
          let h : sooner q s ≡ true =
            le_of_take-drop sooner limit all q s
              (sort-Sorted sooner sooner_total sooner_trans (keep (is_claimable now) db.states))
              (unfold claimable in mq) ms in
          ground arith

module _ (now : Time) (lock_for : Duration) (limit : ℕ) (c : Conn) (ds : List Due) where
  -- A successful ClaimDue on well-formed tables returns at most `limit` feeds, each with a state that
  -- was due and not locked; and a feed whose state is due and not locked is either returned, or
  -- `limit` feeds are, all with states that fell due no later than its own.
  pub claim_due_batch :
      (s : StateRow)
      → IsWellFormed c.db
      → (claim_due now lock_for limit c).0 ≡ ok ds
      → In s c.db.states
      → is_claimable (unix now) s ≡ true
      → (length ds ≤ limit)
        × All
            (λ d.
              (t : StateRow) × In t c.db.states
              × (t.feed_id ≡ d.feed.id)
              × (is_claimable (unix now) t ≡ true))
            ds
        × (In s.feed_id (due_ids ds)
            ⊎ ((length ds ≡ limit) × All (λ d. Earlier c.db d.feed.id s.next_poll_at) ds))
  claim_due_batch s h e m t =
      let (_, same) = (claim_due-Ensures now lock_for limit).at c ds e in
      (
        subst (λ n. n ≤ limit) (sym (length-due_ids ds _ same))
            (due_feeds-le (unix now) limit c.db h),
        All-of_In _ ds (λ d md.
            let (r, mr, p) = In-feed_ids d.feed.id _ (feed_of same d md) in
            let (q, mq, p', k) = due_feeds-In (unix now) limit c.db r mr in (q, mq, p' ∙ p, k)),
        elim (due_feeds-Earlier (unix now) limit c.db s m t (state_known c.db s h m) h) [
          | inl chosen ↦ inl (subst (In s.feed_id) (sym same) chosen)
          | inr (full, earlier) ↦ inr (
            omega (arith, full, length-due_ids ds _ same, due_feeds-le (unix now) limit c.db h),
            All-of_In _ ds (λ d md.
                let (r, mr, p) = In-feed_ids d.feed.id _ (feed_of same d md) in
                subst (λ i. Earlier c.db i s.next_poll_at) p (earlier r mr)),
          )
        ],
      )
    where
      feed_of :
          due_ids ds ≡ feed_ids (due_feeds (unix now) limit c.db)
          → (d : Due) → In d ds
          → In d.feed.id (feed_ids (due_feeds (unix now) limit c.db))
      feed_of same d md = subst (In d.feed.id) same (In-due_ids d ds md)
