-- ===== src/Api/Reading.antt =====
-- What getItems of internal/api/server.go reads of the tables: feeds, their states, and headlines.
use fcfeeds.Prelude.{
  ℕ, ◌≡◌, refl, sym, ap, subst, ◌∙◌, inl, inr, Bool, true, false, not, ◌&&◌, Option, none, some,
  List, [], ◌∷◌, ◌++◌, arith, ltb, ◌==◌, map, keep, modify, find_row, find_row-some, All, All-mono,
  Bool-cases, Option-cases,
}
use mathlib.Core.Path.{ap₂}
use fcfeeds.Text.{Text, text_eq_iff}
use fcfeeds.Time.{Time, unix}
use fcfeeds.Store.Rows.{FeedRow, StateRow, Db, Feed, FetchState, scan_feed, scan_state, null_time}
use fcfeeds.Store.Conn.{ok, Exec, query, statement, pure}
use fcfeeds.Store.Feeds.{
  with_url, of_feed, new_feed, insert_feed, insert_state, request, touch_feed, feed_by_url,
  ensure_feed, ensure_feeds,
}
use fcfeeds.Store.Claims.{member, scan_states, fetch_states}
use fcfeeds.Store.Items.{list_items}
use fcfeeds.Store.Runs.{quiet}
use fcfeeds.Store.Success.{
  Ensures, Ensures-mono, Ensures-statement, Ensures-query, Ensures-query_row, Ensures-pure,
  Ensures-bind,
}
use fcfeeds.Store.Ensure.{ensured, after_insert-Ensures, ensure_feed-Ensures}
use fcfeeds.Api.Query.{state_of, is_warming, is_stale_of, warming_urls, stale_urls}

-- The row with this url has this id.
abbrev pub Known : Text → ℕ → List FeedRow → Type 0
Known u i rs = (r : FeedRow) × (find_row (with_url u) rs ≡ some r) × (r.id ≡ i)

Known-append :
    (u : Text) (i : ℕ) (rs : List FeedRow) (q : FeedRow) → Known u i rs → Known u i (rs ++ q ∷ [])
unfolding find_row
Known-append u i [] q (r, h, e) = absurd (cc)
Known-append u i (x ∷ rs) q (r, h, e) = elim (Bool-cases (with_url u x)) [
  | inl k ↦ (r, ground (arith, h, k), e)
  | inr k ↦
      let (s, hs, es) = Known-append u i rs q (r, ground (arith, h, k), e) in
      (s, ground (arith, hs, k), es)
]

Known-modify :
    (u v : Text) (i now : ℕ) (rs : List FeedRow)
    → Known u i rs
    → Known u i (modify (with_url v) (request now) rs)
unfolding find_row modify request
Known-modify u v i now [] (r, h, e) = absurd (cc)
Known-modify u v i now (x ∷ rs) (r, h, e) = elim (Bool-cases (with_url u x)) [
  | inl k ↦ elim (Bool-cases (with_url v x)) [
    | inl l ↦ (request now x, ground (arith, h, k, l), ground (arith, h, k, e))
    | inr l ↦ (x, ground (arith, h, k, l), ground (arith, h, k, e))
  ]
  | inr k ↦
      let (s, hs, es) = Known-modify u v i now rs (r, ground (arith, h, k), e) in
      (
        s,
        elim (Bool-cases (with_url v x)) [
          | inl l ↦ ground (arith, hs, k, l)
          | inr l ↦ ground (arith, hs, k, l)
        ],
        es,
      )
]

module _ (u v : Text) (i now : ℕ) where
  Known-insert_feed : (db : Db) → Known u i db.feeds → Known u i (insert_feed v now db).1.feeds
  unfolding insert_feed find_row
  Known-insert_feed db k = elim (Option-cases (find_row (with_url v) db.feeds)) [
    | inl e ↦ rw (e, insert_feed) (Known-append u i db.feeds _ k)
    | inr (r, e) ↦ rw (e, insert_feed) k
  ]

  Known-insert_state : (db : Db) → Known u i db.feeds → Known u i (insert_state v now db).1.feeds
  Known-insert_state db k = subst (Known u i) (sym same) k
    where
      same : (insert_state v now db).1.feeds ≡ db.feeds
      same = unfold insert_state in ground arith

  Known-touch_feed : (db : Db) → Known u i db.feeds → Known u i (touch_feed v now db).1.feeds
  unfolding touch_feed
  Known-touch_feed db k = Known-modify u v i now db.feeds k

-- A feed that is known stays known when another one is registered.
abbrev StaysKnown : Db → Db → Type 0
StaysKnown db db' = (u : Text) (i : ℕ) → Known u i db.feeds → Known u i db'.feeds

ensure_feed-StaysKnown :
    (v : Text) (now : Time) → Ensures (λ db p db'. StaysKnown db db') (ensure_feed v now)
unfolding ensure_feed
ensure_feed-StaysKnown v now =
    Ensures-mono
      (λ db p db' (n, db1, (e1, d1), (w, db2, ai, (f, db3, (ef, d3), (ep, d4)))) u i k.
        let k1 =
          subst (λ (x : Db). Known u i x.feeds) (sym d1)
            (Known-insert_feed u v i (unix now) db k) in
        let k2 : Known u i db2.feeds = elim ai [
          | inl (_, (_, d2)) ↦
              subst (λ (x : Db). Known u i x.feeds) (sym d2)
                (Known-insert_state u v i (unix now) db1 k1)
          | inr (_, (_, d2)) ↦
              subst (λ (x : Db). Known u i x.feeds) (sym d2)
                (Known-touch_feed u v i (unix now) db1 k1)
        ] in
        subst (λ (x : Db). Known u i x.feeds) (sym (d4 ∙ d3)) k2)
      (Ensures-bind (Ensures-statement (insert_feed v (unix now))) (λ n.
        Ensures-bind (after_insert-Ensures v (unix now) n)
          (λ _. Ensures-bind (unfold feed_by_url in Ensures-query_row _) (λ f. Ensures-pure _))))

pub ensured_url :
    (u : Text) (now : ℕ) (rs : List FeedRow) (o : Option FeedRow)
    → find_row (with_url u) rs ≡ o
    → (scan_feed (ensured u now rs o)).url ≡ u
unfolding scan_feed
ensured_url u now rs none e = unfold new_feed in refl
ensured_url u now rs (some r) e =
    unfold request in (text_eq_iff r.url u).0 (find_row-some (with_url u) rs r e).1

Ensures-both :
    {A : Type 0} {Q R : Db → A → Db → Type 0} {m : Exec A}
    → Ensures Q m
    → Ensures R m
    → Ensures (λ db a db'. Q db a db' × R db a db') m
Ensures-both q r = record { at = λ c a h. (q.at c a h, r.at c a h) }

-- The feed that EnsureFeed returns is known by its url and its id.
ensure_feed-Known :
    (v : Text) (now : Time)
    → Ensures (λ db p db'. (p.0.url ≡ v) × Known v p.0.id db'.feeds) (ensure_feed v now)
ensure_feed-Known v now =
    Ensures-mono
      (λ db p db' (before, (was, found, same, _)). (
        ap (λ (q : Feed × Bool). q.0.url) same ∙ ensured_url v (unix now) db.feeds before was,
        (
          ensured v (unix now) db.feeds before,
          found,
          sym (ap (λ (q : Feed × Bool). q.0.id) same ∙ unfold scan_feed in refl),
        ),
      ))
      (ensure_feed-Ensures v now)

abbrev pub feed_url : Feed → Text
feed_url f = f.url

abbrev pub Registered : Db → Feed → Type 0
Registered db f = Known f.url f.id db.feeds

-- EnsureFeeds returns a feed for each url, in their order, and all of them are in the tables.
pub ensure_feeds-Registered :
    (us : List Text) (now : Time)
    → Ensures
        (λ db fs db'. (map feed_url fs ≡ us) × All (Registered db') fs × StaysKnown db db')
        (ensure_feeds us now)
unfolding ensure_feeds
ensure_feeds-Registered [] now =
    Ensures-mono
      (λ db fs db' (e, d). (
        ap (map feed_url) e,
        subst (All (Registered db')) (sym e) tt,
        λ u i k. subst (λ (x : Db). Known u i x.feeds) (sym d) k,
      ))
      (Ensures-pure [])
ensure_feeds-Registered (u ∷ us) now =
    Ensures-mono
      (λ db fs db' (p, db1, ((url, known), stays), (gs, db2, (urls, all, later), (e, d))).
        let last : StaysKnown db2 db' = λ v i k. subst (λ (x : Db). Known v i x.feeds) (sym d) k in
        (
          ap (map feed_url) e ∙ ap₂ (λ (x : Text) (xs : List Text). x ∷ xs) url urls,
          subst (All (Registered db')) (sym e) (
            last p.0.url p.0.id
                (later p.0.url p.0.id (subst (λ v. Known v p.0.id db1.feeds) (sym url) known)),
            All-mono (Registered db2) (Registered db') gs (λ f k. last f.url f.id k) all,
          ),
          λ v i k. last v i (later v i (stays v i k)),
        ))
      (Ensures-bind (Ensures-both (ensure_feed-Known u now) (ensure_feed-StaysKnown u now))
        (λ p. Ensures-bind (ensure_feeds-Registered us now) (λ gs. Ensures-pure (p.0 ∷ gs))))

abbrev pub is_none : Option ℕ → Bool
is_none none = true
is_none (some t) = false

-- The state of a feed in the tables has no success; or has failures after one.
abbrev pub no_success : Option StateRow → Bool
no_success none = true
no_success (some s) = is_none s.last_ok_at

abbrev pub fails_now : Option StateRow → Bool
fails_now none = false
fails_now (some s) = ltb 0 s.fail_count && not (is_none s.last_ok_at)

abbrev pub state_row : Db → Feed → Option StateRow
state_row db f = find_row (of_feed f.id) db.states

abbrev pub scanned : Option StateRow → Option FetchState
scanned none = none
scanned (some s) = some (scan_state s)

state_of-scanned :
    (ids : List ℕ) (f : Feed) (ss : List StateRow)
    → member ids f.id ≡ true
    → state_of (scan_states (keep (λ s. member ids s.feed_id) ss)) f
      ≡ scanned (find_row (of_feed f.id) ss)
unfolding find_row keep scan_state
state_of-scanned ids f [] m = refl
state_of-scanned ids f (s ∷ ss) m = elim (Bool-cases (s.feed_id == f.id)) [
  | inl e ↦
      let same : s.feed_id ≡ f.id = ground arith in
      let k : member ids s.feed_id ≡ true = ap (member ids) same ∙ m in rw k (rw e refl)
  | inr e ↦ elim (Bool-cases (member ids s.feed_id)) [
    | inl k ↦ rw k (rw e (state_of-scanned ids f ss m))
    | inr k ↦ rw k (rw e (state_of-scanned ids f ss m))
  ]
]

-- FetchStates has the states of the feeds that it is asked for, as the tables have them.
pub fetch_states-Scanned :
    (ids : List ℕ)
    → Ensures
        (λ db st db'.
          (db' ≡ db)
          × ((f : Feed) → member ids f.id ≡ true → state_of st f ≡ scanned (state_row db f)))
        (fetch_states ids)
unfolding fetch_states
fetch_states-Scanned [] =
    Ensures-mono (λ db st db' (_, d). (d, λ f m. absurd (cc (m)))) (Ensures-pure [])
fetch_states-Scanned (i ∷ is) =
    Ensures-mono
      (λ db st db' (e, d).
        (d, λ f m. ap (λ x. state_of x f) e ∙ state_of-scanned (i ∷ is) f db.states m))
      (Ensures-query (λ db. scan_states (keep (λ s. member (i ∷ is) s.feed_id) db.states)))

-- ListItems answers as it does on the same tables without faults.
pub list_items-quiet :
    (ids : List ℕ) (since : Option Time) (limit : ℕ)
    → Ensures
        (λ db its db'. (db' ≡ db) × ((list_items ids since limit (quiet db)).0 ≡ ok its))
        (list_items ids since limit)
unfolding list_items query statement pure
list_items-quiet [] since limit =
    Ensures-mono (λ db its db' (e, d). (d, ap ok (sym e))) (Ensures-pure [])
list_items-quiet (i ∷ is) since limit =
    Ensures-mono (λ db its db' (e, d). (d, ap ok (sym e))) (Ensures-query _)

module _ (states : List FetchState) (db : Db) where
  abbrev Scanned : Feed → Type 0
  Scanned f = state_of states f ≡ scanned (state_row db f)

  warming_row : (o : Option StateRow) → is_warming (scanned o) ≡ no_success o
  unfolding scan_state null_time
  warming_row none = refl
  warming_row (some s) = elim (Option-cases s.last_ok_at) [
    | inl e ↦ rw e refl
    | inr (t, e) ↦ rw e refl
  ]

  stale_row : (o : Option StateRow) → is_stale_of (scanned o) ≡ fails_now o
  unfolding scan_state null_time
  stale_row none = refl
  stale_row (some s) = elim (Option-cases s.last_ok_at) [
    | inl e ↦ rw e refl
    | inr (t, e) ↦ rw e refl
  ]

  pub warming_urls_lem :
      (fs : List Feed)
      → All Scanned fs
      → warming_urls states fs ≡ map feed_url (keep (λ f. no_success (state_row db f)) fs)
  unfolding keep
  warming_urls_lem [] _ = refl
  warming_urls_lem (f ∷ fs) (h, hs) =
      let e = ap is_warming h ∙ warming_row (state_row db f) in
      elim (Bool-cases (no_success (state_row db f))) [
        | inl w ↦ rw (e, w) (ap (λ us. f.url ∷ us) (warming_urls_lem fs hs))
        | inr w ↦ rw (e, w) (warming_urls_lem fs hs)
      ]

  pub stale_urls_lem :
      (fs : List Feed)
      → All Scanned fs
      → stale_urls states fs ≡ map feed_url (keep (λ f. fails_now (state_row db f)) fs)
  unfolding keep
  stale_urls_lem [] _ = refl
  stale_urls_lem (f ∷ fs) (h, hs) =
      let e = ap is_warming h ∙ warming_row (state_row db f) in
      let q = ap is_stale_of h ∙ stale_row (state_row db f) in
      let rest = stale_urls_lem fs hs in
      elim (Bool-cases (no_success (state_row db f))) [
        | inl w ↦ rw (e, w) (rw (not_both (state_row db f) w) rest)
        | inr w ↦ elim (Bool-cases (fails_now (state_row db f))) [
          | inl k ↦ rw (e, w) (rw (q, k) (ap (λ us. f.url ∷ us) rest))
          | inr k ↦ rw (e, w) (rw (q, k) rest)
        ]
      ]
    where
      not_both : (o : Option StateRow) → no_success o ≡ true → fails_now o ≡ false
      not_both none w = refl
      not_both (some s) w = ground (arith, w)
