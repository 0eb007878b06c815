-- ===== src/Store/Outcomes.antt =====
-- RecordFetchOK and RecordFetchError: what a fetch leaves in the tables.
use fcfeeds.Prelude.{
  ℕ, ◌+◌, ◌*◌, ◌/◌, ◌≡◌, refl, ap, ◌∙◌, ◌≢◌, none, some, List, [], ◌∷◌, arith, length, modify,
  find_row,
}
use fcfeeds.Text.{Text}
use fcfeeds.Time.{Time, unix, second}
use fcfeeds.Store.Rows.{FeedRow, StateRow, Db, FetchOk, scan_feed}
use fcfeeds.Store.Conn.{ok, Conn, Exec, pure, ◌>>◌}
use fcfeeds.Store.Feeds.{of_feed, with_id}
use fcfeeds.Store.Claims.{
  succeed, refresh, record_fetch_ok, fail_state, record_fetch_error, cut_message,
}
use fcfeeds.Store.Success.{
  Ensures, Ensures-mono, Ensures-statement, Ensures-pure, Ensures-bind, Ensures-transaction,
}

module _ (i : ℕ) (f : StateRow → StateRow) (same : (s : StateRow) → (f s).feed_id ≡ s.feed_id) where
  find_state-modify :
      (ss : List StateRow) (s : StateRow)
      → find_row (of_feed i) ss ≡ some s
      → find_row (of_feed i) (modify (of_feed i) f ss) ≡ some (f s)
  unfolding find_row modify
  find_state-modify [] s h = cc
  find_state-modify (t ∷ ss) s h = ground (arith, same t, find_state-modify ss s)

  find_state-modify_ne :
      (j : ℕ) (ss : List StateRow)
      → j ≢ i
      → find_row (of_feed j) (modify (of_feed i) f ss) ≡ find_row (of_feed j) ss
  unfolding find_row modify
  find_state-modify_ne j [] ne = refl
  find_state-modify_ne j (t ∷ ss) ne = ground (arith, same t, find_state-modify_ne j ss)

find_feed-modify :
    (i : ℕ) (f : FeedRow → FeedRow) (rs : List FeedRow) (r : FeedRow)
    → ((r : FeedRow) → (f r).id ≡ r.id)
    → find_row (with_id i) rs ≡ some r
    → find_row (with_id i) (modify (with_id i) f rs) ≡ some (f r)
unfolding find_row modify
find_feed-modify i f [] r same h = cc
find_feed-modify i f (t ∷ rs) r same h = ground (arith, same t, find_feed-modify i f rs r)

record_fetch_ok-Ensures :
    (i : ℕ) (r : FetchOk)
    → Ensures
        (λ db u db'. db' ≡ record db {
          states = modify (of_feed i) (succeed r) db.states;
          feeds = modify (with_id i) (refresh r) db.feeds;
        })
        (record_fetch_ok i r)
unfolding record_fetch_ok
record_fetch_ok-Ensures i r = Ensures-transaction (
    Ensures-mono
      (λ db u db' (v, db1, (_, d1), (_, d)).
        d ∙ ap (λ (x : Db). record x { feeds = modify (with_id i) (refresh r) x.feeds }) d1)
      (Ensures-bind (Ensures-statement _) (λ _. Ensures-statement _)))

-- What the poller records for a 304: no validators, no metadata, the feed's own interval.
abbrev pub not_modified : FeedRow → Time → Time → FetchOk
not_modified f now next = record {
  etag = [];
  last_modified = [];
  status = 304;
  fetched_at = now;
  next_poll_at = next;
  kind = [];
  title = [];
  site_url = [];
  poll_interval = (scan_feed f).poll_interval;
  new_items = 0;
}

refresh_not_modified : (f : FeedRow) (now next : Time) → refresh (not_modified f now next) f ≡ f
unfolding refresh scan_feed
refresh_not_modified f now next = ground (arith, same f.poll_interval_s)
  where
    same : (n : ℕ) → (n * second) / second ≡ n
    same n = omega arith

-- Recording a 304 of a feed leaves its row of metadata as it was, keeps both validators, unlocks the
-- feed, sets its next poll, forgets earlier failures and counts one more quiet poll.
pub not_modified_keeps :
    (i : ℕ) (f : FeedRow) (s : StateRow) (now next : Time) (c : Conn) (u : Unit {0})
    → find_row (with_id i) c.db.feeds ≡ some f
    → find_row (of_feed i) c.db.states ≡ some s
    → (record_fetch_ok i (not_modified f now next) c).0 ≡ ok u
    → let db' = (record_fetch_ok i (not_modified f now next) c).1.db in
      (find_row (with_id i) db'.feeds ≡ some f)
      × (find_row (of_feed i) db'.states
          ≡ some (record s {
            next_poll_at = unix next;
            locked_until = none;
            last_fetch_at = some (unix now);
            last_ok_at = some (unix now);
            last_status = 304;
            fail_count = 0;
            last_error = [];
            quiet_polls = s.quiet_polls + 1;
          }))
not_modified_keeps i f s now next c u hf hs h =
    let r = not_modified f now next in
    let d = (record_fetch_ok-Ensures i r).at c u h in
    (
      ap (λ x. find_row (with_id i) x.feeds) d
          ∙ find_feed-modify i (refresh r) c.db.feeds f (λ g. unfold refresh in refl) hf
          ∙ ap some (refresh_not_modified f now next),
      ap (λ x. find_row (of_feed i) x.states) d
          ∙ find_state-modify i (succeed r) (λ t. unfold succeed in refl) c.db.states s hs
          ∙ (unfold succeed in refl),
    )

pub record Failure : Type 0 where
  pub status : ℕ
  pub msg : Text
  pub at : Time
  pub next : Time

-- Failed fetches of one feed, one after the other.
unfoldable pub fail_all : ℕ → List Failure → Exec (Unit {0})
fail_all i [] = pure tt
fail_all i (x ∷ xs) = do record_fetch_error i x.status x.msg x.at x.next; fail_all i xs

record_fetch_error-Ensures :
    (i : ℕ) (x : Failure)
    → Ensures
        (λ db u db'. db' ≡ record db {
          states =
              modify (of_feed i) (fail_state x.status (cut_message x.msg) x.at x.next) db.states;
        })
        (record_fetch_error i x.status x.msg x.at x.next)
unfolding record_fetch_error
record_fetch_error-Ensures i x = Ensures-mono (λ db u db' (_, d). d) (Ensures-statement _)

-- What a run of failures leaves of a state.
pub record Failed (n : ℕ) (s s' : StateRow) : Type 0 where
  pub count : s'.fail_count ≡ s.fail_count + n
  pub last_ok : s'.last_ok_at ≡ s.last_ok_at
  pub etag : s'.etag ≡ s.etag
  pub last_modified : s'.last_modified ≡ s.last_modified
  pub quiet : s'.quiet_polls ≡ s.quiet_polls

fail_all-Ensures :
    (i : ℕ) (xs : List Failure)
    → Ensures
        (λ db u db'.
          (s : StateRow)
          → find_row (of_feed i) db.states ≡ some s
          → (s' : StateRow) × (find_row (of_feed i) db'.states ≡ some s')
            × Failed (length xs) s s'
            × (db'.feeds ≡ db.feeds)
            × (db'.items ≡ db.items))
        (fail_all i xs)
unfolding fail_all
fail_all-Ensures i [] =
    Ensures-mono
      (λ db u db' (_, d) s h. (
        s,
        ap (λ x. find_row (of_feed i) x.states) d ∙ h,
        record {
          count = omega arith;
          last_ok = refl;
          etag = refl;
          last_modified = refl;
          quiet = refl;
        },
        ap (λ x. x.feeds) d,
        ap (λ x. x.items) d,
      ))
      (Ensures-pure tt)
fail_all-Ensures i (x ∷ xs) =
    Ensures-mono
      (λ db u db' (v, db1, d, rest) s h.
        let g = fail_state x.status (cut_message x.msg) x.at x.next in
        let (s', h', fl, df, di) = rest (g s) (
          ap (λ y. find_row (of_feed i) y.states) d
          ∙ find_state-modify i g (λ t. unfold fail_state in refl) db.states s h) in
        (
          s',
          h',
          unfold fail_state in
              record {
                count = omega (arith, fl.count);
                last_ok = fl.last_ok;
                etag = fl.etag;
                last_modified = fl.last_modified;
                quiet = fl.quiet;
              },
          df ∙ ap (λ y. y.feeds) d,
          di ∙ ap (λ y. y.items) d,
        ))
      (Ensures-bind (record_fetch_error-Ensures i x) (λ _. fail_all-Ensures i xs))

-- After any run of recorded failures of a feed its failure count has grown by their number; the time
-- of the last success, the validators and the quiet polls are as before; and so are all feeds and
-- all headlines, which stay servable.
pub failures_accumulate :
    (i : ℕ) (xs : List Failure) (s : StateRow) (c : Conn) (u : Unit {0})
    → find_row (of_feed i) c.db.states ≡ some s
    → (fail_all i xs c).0 ≡ ok u
    → (s' : StateRow) × (find_row (of_feed i) (fail_all i xs c).1.db.states ≡ some s')
      × Failed (length xs) s s'
      × ((fail_all i xs c).1.db.feeds ≡ c.db.feeds)
      × ((fail_all i xs c).1.db.items ≡ c.db.items)
failures_accumulate i xs s c u h e = (fail_all-Ensures i xs).at c u e s h
