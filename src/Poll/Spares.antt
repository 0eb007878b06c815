-- ===== src/Poll/Spares.antt =====
-- A fetch of internal/poll/poller.go leaves the other feeds as they are.
use fcfeeds.Prelude.{
  ℕ, ◌-◌, ◌≡◌, ◌≢◌, refl, ap, ◌∙◌, ◌⊎◌, inl, inr, none, some, List, [], ◌∷◌, map, arith, modify,
  find_row,
}
use fcfeeds.Prelude.Int.{ℤ, pos}
use fcfeeds.Text.{Text}
use fcfeeds.Time.{Time}
use fcfeeds.Store.Rows.{FeedRow, StateRow, Db, Due, FetchOk, Item}
use fcfeeds.Store.Conn.{Result, ok, err, pure, attempt}
use fcfeeds.Store.Feeds.{of_feed, with_id, has_feed}
use fcfeeds.Store.Claims.{succeed, refresh, fail_state, record_fetch_ok, record_fetch_error}
use fcfeeds.Store.Items.{insert_item, prune_items, delete_items}
use fcfeeds.Store.Keeps.{
  Keeps, Keeps-pure, Keeps-statement, Keeps-bind, Keeps-transaction, Keeps-attempt, Keeps-if,
}
use fcfeeds.Store.Lift.{upsert_items-Keeps}
use fcfeeds.Fetch.Types.{Validators, FetchResult, Got, got, refused}
use fcfeeds.Parse.Types.{ParsedFeed}
use fcfeeds.Poll.Schedule.{Config}
use fcfeeds.Poll.Fetch.{
  PollResult, message, classify, http_message, result_parse_error, result_ok, result_error,
  result_not_modified, store_error, join, trouble_of, outcome, to_store_item, record_error,
  record_not_modified, not_modified_ok, fetch_ok_of, pruned, upserted, parsed, fetched,
  fetch_claimed, is_failure,
}

module _ (i : ℕ) (before : Db) where
  -- All other feeds are as they were before.
  abbrev pub Spares : Db → Type 0
  Spares db =
      (j : ℕ)
      → (j ≢ i → find_row (of_feed j) db.states ≡ find_row (of_feed j) before.states)
        × (has_feed db.feeds j ≡ has_feed before.feeds j)

  find_other :
      (f : StateRow → StateRow) (ss : List StateRow) (j : ℕ)
      → ((s : StateRow) → (f s).feed_id ≡ s.feed_id)
      → j ≢ i
      → find_row (of_feed j) (modify (of_feed i) f ss) ≡ find_row (of_feed j) ss
  unfolding find_row modify
  find_other f [] j same ne = refl
  find_other f (s ∷ ss) j same ne = ground (arith, same s, ne, find_other f ss j same ne)

  has_feed-modify :
      (f : FeedRow → FeedRow) (fs : List FeedRow) (j : ℕ)
      → ((r : FeedRow) → (f r).id ≡ r.id)
      → has_feed (modify (with_id i) f fs) j ≡ has_feed fs j
  unfolding find_row modify
  has_feed-modify f [] j same = refl
  has_feed-modify f (r ∷ fs) j same = ground (arith, same r, has_feed-modify f fs j same)

  states_changed :
      (f : StateRow → StateRow) (db : Db)
      → ((s : StateRow) → (f s).feed_id ≡ s.feed_id)
      → Spares db
      → Spares (record db { states = modify (of_feed i) f db.states })
  states_changed f db same h j = (λ ne. find_other f db.states j same ne ∙ (h j).0 ne, (h j).1)

  record_fetch_ok-Spares : (r : FetchOk) → Keeps Spares (record_fetch_ok i r)
  unfolding record_fetch_ok
  record_fetch_ok-Spares r = Keeps-transaction _ (
      Keeps-bind _ _
        (Keeps-statement _ (λ db h. states_changed (succeed r) db (λ s. unfold succeed in refl) h))
        (λ _. Keeps-statement _ (λ db h j. (
          (h j).0,
          has_feed-modify (refresh r) db.feeds j (λ f. unfold refresh in refl) ∙ (h j).1,
        ))))

  record_fetch_error-Spares :
      (status : ℕ) (msg : Text) (at next : Time)
      → Keeps Spares (record_fetch_error i status msg at next)
  unfolding record_fetch_error
  record_fetch_error-Spares status msg at next =
      Keeps-statement _ (λ db h. states_changed _ db (λ s. unfold fail_state in refl) h)

  prune_items-Spares : (n : ℕ) (at : Time) → Keeps Spares (prune_items i n at)
  unfolding prune_items delete_items
  prune_items-Spares n at = Keeps-statement _ (λ db h. h)

  insert_item-Spares :
      (hash_string : Text → Text) (it : Item) (now : Time) (db : Db)
      → Spares db
      → Spares (insert_item hash_string i it now db).1
  insert_item-Spares hash_string it now db h j = (
    λ ne. ap (find_row (of_feed j)) states ∙ (h j).0 ne,
    ap (λ fs. has_feed fs j) feeds ∙ (h j).1,
  )
    where
      states : (insert_item hash_string i it now db).1.states ≡ db.states
      states = unfold insert_item in ground arith

      feeds : (insert_item hash_string i it now db).1.feeds ≡ db.feeds
      feeds = unfold insert_item in ground arith

module _ (hash_string : Text → Text) (get : Text → Validators → Got)
    (parse : Text → Text → Time → Text ⊎ ParsedFeed) (jitter : ℤ → ℤ) (cfg : Config) where
  module _ (d : Due) (before : Db) where
    record_error-Spares :
        (status : ℕ) (retry_after : ℤ) (msg : Text) (kind : PollResult) (now : Time)
        → Keeps
            (Spares d.feed.id before)
            (record_error hash_string get parse jitter cfg d status retry_after msg kind now)
    unfolding record_error
    record_error-Spares status retry_after msg kind now =
        Keeps-bind _ _
          (Keeps-attempt _ (record_fetch_error-Spares d.feed.id before status msg now _))
          (λ r. Keeps-pure (outcome kind status 0 (some (join msg r))))

    upserted-Spares :
        (res : FetchResult) (feed : ParsedFeed) (now : Time) (r : Result ℕ)
        → Keeps
            (Spares d.feed.id before)
            (upserted hash_string get parse jitter cfg d res feed now r)
    unfolding upserted pruned
    upserted-Spares res feed now (err e) =
        Keeps-pure (outcome result_error res.status 0 (some (store_error e)))
    upserted-Spares res feed now (ok n) =
        Keeps-bind _ _
          (Keeps-attempt _ (
            record_fetch_ok-Spares d.feed.id before
              (fetch_ok_of hash_string get parse jitter cfg d res feed n now)))
          last
      where
        last :
            (r : Result (Unit {0}))
            → Keeps
                (Spares d.feed.id before)
                (pruned hash_string get parse jitter cfg d res.status n now r)
        last (err e) = Keeps-pure (outcome result_error res.status 0 (some (store_error e)))
        last (ok u) =
            let prune = prune_items d.feed.id cfg.keep_items (now - cfg.keep_for) in
            Keeps-bind (attempt prune) (λ _. pure (outcome result_ok res.status n none))
              (Keeps-attempt prune
                (prune_items-Spares d.feed.id before cfg.keep_items (now - cfg.keep_for)))
              (λ r. Keeps-pure (outcome result_ok res.status n none))

    parsed-Spares :
        (res : FetchResult) (now : Time) (p : Text ⊎ ParsedFeed)
        → Keeps (Spares d.feed.id before) (parsed hash_string get parse jitter cfg d res now p)
    unfolding parsed
    parsed-Spares res now (inl msg) =
        record_error-Spares res.status (pos 0) msg result_parse_error now
    parsed-Spares res now (inr feed) =
        Keeps-bind _ _
          (Keeps-attempt _ (
            upsert_items-Keeps hash_string d.feed.id now
              (λ it db h. insert_item-Spares d.feed.id before hash_string it now db h)
              (map to_store_item feed.items)))
          (λ r. upserted-Spares res feed now r)

    fetched-Spares :
        (now : Time) (g : Got)
        → Keeps (Spares d.feed.id before) (fetched hash_string get parse jitter cfg d now g)
    unfolding fetched
    fetched-Spares now (refused e) = record_error-Spares 0 (pos 0) (message e) (classify e) now
    fetched-Spares now (got res) =
        Keeps-if res.not_modified _ _
          (unfold record_not_modified in
            Keeps-bind _ _
              (Keeps-attempt _ (
                record_fetch_ok-Spares d.feed.id before
                  (not_modified_ok hash_string get parse jitter cfg d res.status now)))
              (λ r. Keeps-pure (outcome result_not_modified res.status 0 (trouble_of r))))
          (Keeps-if (is_failure res.status) _ _
            (record_error-Spares res.status res.retry_after (http_message res.status) result_error
              now)
            (parsed-Spares res now (parse res.body d.feed.url now)))

    pub fetch_claimed-Spares :
        (now : Time)
        → Keeps (Spares d.feed.id before) (fetch_claimed hash_string get parse jitter cfg d now)
    unfolding fetch_claimed
    fetch_claimed-Spares now =
        fetched-Spares now
          (get d.feed.url (record { etag = d.state.etag; last_modified = d.state.last_modified }))
