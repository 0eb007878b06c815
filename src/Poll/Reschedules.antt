-- ===== src/Poll/Reschedules.antt =====
-- A fetch of a claimed feed always gives it back: whatever the publisher sends, its lock is taken
-- off and its next poll is set.
use fcfeeds.Prelude.{
  ℕ, ◌+◌, ◌-◌, ◌≤◌, ◌<◌, ◌^◌, ◌≡◌, refl, sym, ap, subst, ◌∙◌, ◌⊎◌, inl, inr, Bool, true, false,
  none, some, map, arith, find_row, if◌then◌else◌, ◌==◌, zero, suc,
}
use fcfeeds.Prelude.Int.{ℤ, pos}
use fcfeeds.Text.{Text}
use fcfeeds.Time.{Time, unix}
use fcfeeds.Store.Rows.{StateRow, Db, Due, FetchOk}
use fcfeeds.Store.Conn.{Result, ok, Exec, pure}
use fcfeeds.Store.Feeds.{of_feed, has_feed}
use fcfeeds.Store.Claims.{succeed, fail_state, cut_message}
use fcfeeds.Store.Runs.{Runs, Runs-mono, Runs-pure, Runs-attempt, Runs-bind}
use fcfeeds.Fetch.Types.{Validators, FetchResult, Got, got, refused}
use fcfeeds.Parse.Types.{ParsedFeed}
use fcfeeds.Poll.Schedule.{Config, next_interval, backoff}
use fcfeeds.Poll.Bounds.{next_interval_bounds}
use fcfeeds.Poll.Fetch.{
  PollResult, result_ok, result_error, result_parse_error, http_message, result_not_modified,
  Trouble, Outcome, after, to_store_item, classify, message, join, trouble_of, outcome, is_failure,
  quiet_after, record_error, record_not_modified, not_modified_ok, fetch_ok_of, pruned, upserted,
  parsed, fetched, fetch_claimed,
}
use fcfeeds.Poll.Steps.{
  record_fetch_ok-Runs, record_fetch_error-Runs, prune_items-Runs, upsert_items-Runs,
}

module _ (jitter : ℤ → ℤ) (cfg : Config) (d : Due) (now : Time) (s : StateRow) where
  -- A success: the next poll is set by the interval of NextInterval, which keeps to its bounds.
  abbrev pub Succeeded : PollResult → ℤ → ℕ → Outcome → StateRow → Type 0
  Succeeded result ttl quiet out s' =
      (n : ℕ) × (out.result ≡ result)
      × (out.trouble ≡ none)
      × (s'.fail_count ≡ 0)
      × (next_interval ttl quiet cfg ≡ pos n)
      × (s'.next_poll_at ≡ unix (now + n))
      × (cfg.min_interval ≤ n)
      × (n ≤ cfg.max_interval)

  -- A failure: one more is counted, and the next poll is set by Backoff.
  abbrev pub FailedAgain : PollResult → ℕ → ℤ → Outcome → StateRow → Type 0
  FailedAgain result status retry_after out s' =
      (t : Trouble) × (out.result ≡ result)
      × (out.status ≡ status)
      × (out.trouble ≡ some t)
      × (s'.fail_count ≡ s.fail_count + 1)
      × (s'.next_poll_at
          ≡ unix (
              after now (
                backoff jitter (pos d.feed.poll_interval) (d.state.fail_count + 1) retry_after
                  status cfg)))

  -- After the document was parsed: quiet polls are counted on where no item is new.
  abbrev pub ByDocument : FetchResult → Text ⊎ ParsedFeed → Outcome → StateRow → Type 0
  ByDocument res (inl msg) out s' = FailedAgain result_parse_error res.status (pos 0) out s'
  ByDocument res (inr feed) out s' =
      Succeeded result_ok feed.ttl (if out.new_items == 0 then d.state.quiet_polls + 1 else 0) out
        s'

  abbrev pub ByAnswer : (Text → Text → Time → Text ⊎ ParsedFeed) → Got → Outcome → StateRow → Type 0
  ByAnswer parse (refused e) out s' = FailedAgain (classify e) 0 (pos 0) out s'
  ByAnswer parse (got res) out s' =
      ((res.not_modified ≡ true)
        × Succeeded result_not_modified (pos d.feed.poll_interval) (d.state.quiet_polls + 1) out s')
      ⊎ (((res.not_modified ≡ false)
            × ((res.status < 200) ⊎ (299 < res.status))
            × FailedAgain result_error res.status res.retry_after out s')
          ⊎ ((res.not_modified ≡ false)
              × (200 ≤ res.status)
              × (res.status ≤ 299)
              × ByDocument res (parse res.body d.feed.url now) out s'))

  -- The state row of the feed after a fetch of it: given back, with `P` of the row and the outcome.
  abbrev pub Rescheduled : (Outcome → StateRow → Type 0) → Outcome → Db → Type 0
  Rescheduled P out db' =
      (s' : StateRow) × (find_row (of_feed d.feed.id) db'.states ≡ some s')
      × (s'.locked_until ≡ none)
      × (s'.last_fetch_at ≡ some (unix now))
      × P out s'

  Rescheduled-mono :
      {P Q : Outcome → StateRow → Type 0}
      → ((out : Outcome) (s' : StateRow) → P out s' → Q out s')
      → (out : Outcome) (db' : Db) → Rescheduled P out db'
      → Rescheduled Q out db'
  Rescheduled-mono f out db' (s', found, unlocked, at, p) = (s', found, unlocked, at, f out s' p)

module _ (hash_string : Text → Text) (get : Text → Validators → Got)
    (parse : Text → Text → Time → Text ⊎ ParsedFeed) (jitter : ℤ → ℤ) (cfg : Config)
    (cap_small : cfg.max_interval < 2 ^ 62) (ordered : cfg.min_interval ≤ cfg.max_interval) where
  module _ (d : Due) (now : Time) (s : StateRow) where
    abbrev Given : (Outcome → StateRow → Type 0) → Outcome → Db → Type 0
    Given P = Rescheduled jitter cfg d now s P

    record_error-Runs :
        (status : ℕ) (retry_after : ℤ) (msg : Text) (kind : PollResult) (db : Db)
        → find_row (of_feed d.feed.id) db.states ≡ some s
        → Runs
            (record_error hash_string get parse jitter cfg d status retry_after msg kind now)
            db
            (Given (FailedAgain jitter cfg d now s kind status retry_after))
    unfolding record_error
    record_error-Runs status retry_after msg kind db e =
        let next = after now (
          backoff jitter (pos d.feed.poll_interval) (d.state.fail_count + 1) retry_after status
            cfg) in
        Runs-bind db _ (λ r. pure (outcome kind status 0 (some (join msg r))))
          (Runs-attempt db _ (record_fetch_error-Runs d.feed.id status msg now next db s e))
          (λ r db' (u, er, h). Runs-pure db' (outcome kind status 0 (some (join msg r))) (
            fail_state status (cut_message msg) now next s,
            h,
            unfold fail_state in refl,
            unfold fail_state in refl,
            (join msg r, refl, refl, refl, unfold fail_state in refl, unfold fail_state in refl),
          ))

    -- the state that a success leaves
    after_ok :
        (r : FetchOk) (result : PollResult) (ttl : ℤ) (quiet_polls : ℕ) (out : Outcome) (db : Db)
        → r.next_poll_at ≡ after now (next_interval ttl quiet_polls cfg)
        → r.fetched_at ≡ now
        → out.result ≡ result
        → out.trouble ≡ none
        → find_row (of_feed d.feed.id) db.states ≡ some (succeed r s)
        → Given (Succeeded jitter cfg d now s result ttl quiet_polls) out db
    after_ok r reported ttl quiet_polls out db e at kind clean h =
        let (n, m, is_n, _, low, up, high) =
          next_interval_bounds cfg cap_small ttl quiet_polls 0 ordered in
        (
          succeed r s,
          h,
          unfold succeed in refl,
          unfold succeed in ap (λ (t : Time). some (unix t)) at,
          (
            n,
            kind,
            clean,
            unfold succeed in refl,
            is_n,
            unfold succeed in ap unix (e ∙ ap (after now) is_n),
            low,
            omega arith,
          ),
        )

    record_not_modified-Runs :
        (status : ℕ) (db : Db)
        → find_row (of_feed d.feed.id) db.states ≡ some s
        → Runs (record_not_modified hash_string get parse jitter cfg d status now) db (
            Given (
              Succeeded jitter cfg d now s result_not_modified
                (pos d.feed.poll_interval)
                (d.state.quiet_polls + 1)))
    unfolding record_not_modified not_modified_ok
    record_not_modified-Runs status db e =
        let fo = not_modified_ok hash_string get parse jitter cfg d status now in
        let out = λ (r : Result (Unit {0})). outcome result_not_modified status 0 (trouble_of r) in
        Runs-bind db _ (λ r. pure (out r))
          (Runs-attempt db _ (record_fetch_ok-Runs d.feed.id fo db s e))
          (λ r db' (u, er, h). Runs-pure db' (out r) (
            after_ok fo result_not_modified (pos d.feed.poll_interval) (d.state.quiet_polls + 1)
              (out r) db' refl refl refl (ap trouble_of er) h))

    quiet_polls_lem : (n q : ℕ) → quiet_after n q ≡ (if n == 0 then q + 1 else 0)
    quiet_polls_lem zero q = refl
    quiet_polls_lem (suc n) q = ground arith

    upserted-Runs :
        (res : FetchResult) (feed : ParsedFeed) (n : ℕ) (db : Db)
        → find_row (of_feed d.feed.id) db.states ≡ some s
        → Runs
            (upserted hash_string get parse jitter cfg d res feed now (ok n))
            db
            (Given (ByDocument jitter cfg d now s res (inr feed)))
    unfolding upserted pruned fetch_ok_of
    upserted-Runs res feed n db e =
        let last = pruned hash_string get parse jitter cfg d res.status n now in
        let fo = fetch_ok_of hash_string get parse jitter cfg d res feed n now in
        let out = outcome result_ok res.status n none in
        Runs-bind db _ last (Runs-attempt db _ (record_fetch_ok-Runs d.feed.id fo db s e))
          (λ r db' (u, er, h).
            subst (λ x. Runs (last x) db' (Given (ByDocument jitter cfg d now s res (inr feed))))
              (sym er)
              (Runs-bind db' _ (λ _. pure out)
                (Runs-attempt db' _
                  (prune_items-Runs d.feed.id cfg.keep_items (now - cfg.keep_for) db'))
                (λ _ db2 (_, _, same). Runs-pure db2 out (
                  after_ok fo result_ok feed.ttl (if n == 0 then d.state.quiet_polls + 1 else 0) out
                    db2
                    (ap (λ q. after now (next_interval feed.ttl q cfg))
                      (quiet_polls_lem n d.state.quiet_polls))
                    refl refl refl (ap (find_row (of_feed d.feed.id)) same ∙ h)))))

    parsed-Runs :
        (res : FetchResult) (p : Text ⊎ ParsedFeed) (db : Db)
        → find_row (of_feed d.feed.id) db.states ≡ some s
        → has_feed db.feeds d.feed.id ≡ true
        → Runs
            (parsed hash_string get parse jitter cfg d res now p)
            db
            (Given (ByDocument jitter cfg d now s res p))
    unfolding parsed
    parsed-Runs res (inl msg) db e h =
        record_error-Runs res.status (pos 0) msg result_parse_error db e
    parsed-Runs res (inr feed) db e h =
        let next = upserted hash_string get parse jitter cfg d res feed now in
        Runs-bind db _ next
          (Runs-attempt db _
            (upsert_items-Runs hash_string d.feed.id now (map to_store_item feed.items) db h))
          (λ r db' (n, er, same).
            subst (λ x. Runs (next x) db' (Given (ByDocument jitter cfg d now s res (inr feed))))
              (sym er) (upserted-Runs res feed n db' (ap (find_row (of_feed d.feed.id)) same ∙ e)))

    fetched-Runs :
        (g : Got) (db : Db)
        → find_row (of_feed d.feed.id) db.states ≡ some s
        → has_feed db.feeds d.feed.id ≡ true
        → Runs
            (fetched hash_string get parse jitter cfg d now g)
            db
            (Given (ByAnswer jitter cfg d now s parse g))
    unfolding fetched
    fetched-Runs (refused r) db e h = record_error-Runs 0 (pos 0) (message r) (classify r) db e
    fetched-Runs (got res) db e h =
        choose res.not_modified _ _
          (λ m.
            Runs-mono db (Rescheduled-mono jitter cfg d now s (λ out s' p. inl (m, p)))
              (record_not_modified-Runs res.status db e))
          (λ m.
            choose (is_failure res.status) _ _
              (λ f.
                Runs-mono db
                  (Rescheduled-mono jitter cfg d now s
                    (λ out s' p. inr (inl (m, failing res.status f, p))))
                  (record_error-Runs res.status res.retry_after (http_message res.status)
                    result_error db e))
              (λ f.
                Runs-mono db
                  (Rescheduled-mono jitter cfg d now s
                    (λ out s' p. inr (inr (m, ground (arith, f), ground (arith, f), p))))
                  (parsed-Runs res (parse res.body d.feed.url now) db e h)))
      where
        choose :
            (b : Bool) (m n : Exec Outcome)
            → (b ≡ true → Runs m db (Given (ByAnswer jitter cfg d now s parse (got res))))
            → (b ≡ false → Runs n db (Given (ByAnswer jitter cfg d now s parse (got res))))
            → Runs (if b then m else n) db (Given (ByAnswer jitter cfg d now s parse (got res)))
        choose true m n km kn = km refl
        choose false m n km kn = kn refl

        failing : (status : ℕ) → is_failure status ≡ true → (status < 200) ⊎ (299 < status)
        failing status f = ground (arith, f)

    -- With MaxInterval below 2 ^ 62 and MinInterval not above it: when no statement fails, the fetch
    -- of a feed that is in the tables with a state returns, takes the lock off and records the time.
    -- After a 304, and after a status from 200 to 299 with a document that is parsed, it reports no
    -- error, clears the count of failures and sets the next poll NextInterval from now, which is
    -- between the smallest and the largest interval: of the feed's interval and one more quiet poll,
    -- or of the document's TTL and one more quiet poll if no item was new, and none otherwise. After
    -- any other answer it reports an error, adds one to the count and sets the next poll Backoff
    -- from now: for status 0 where there was no answer, and else for the status, with the Retry-After
    -- of one that is not from 200 to 299.
    pub fetch_reschedules :
        (db : Db)
        → find_row (of_feed d.feed.id) db.states ≡ some s
        → has_feed db.feeds d.feed.id ≡ true
        → Runs (fetch_claimed hash_string get parse jitter cfg d now) db (
            Rescheduled jitter cfg d now s (
              ByAnswer jitter cfg d now s parse (
                get d.feed.url
                  (record { etag = d.state.etag; last_modified = d.state.last_modified }))))
    unfolding fetch_claimed
    fetch_reschedules db e h =
        fetched-Runs
          (get d.feed.url (record { etag = d.state.etag; last_modified = d.state.last_modified }))
          db e h
