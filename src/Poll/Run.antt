-- ===== src/Poll/Run.antt =====
-- Run and evict of internal/poll/poller.go, as the sequence of what its tickers set off. The workers
-- fetch the claimed feeds one after the other here; what holds of the tables after any sequence of
-- the store's calls does not depend on how concurrent fetches interleave them.
use fcfeeds.Prelude.{◌-◌, ◌⊎◌, ◌++◌, List, [], ◌∷◌}
use fcfeeds.Prelude.Int.{ℤ}
use fcfeeds.Text.{Text}
use fcfeeds.Time.{Time}
use fcfeeds.Store.Rows.{Due}
use fcfeeds.Store.Conn.{Result, ok, err, Exec, pure, ◌>>=◌, attempt}
use fcfeeds.Store.Feeds.{evict_feeds}
use fcfeeds.Store.Claims.{claim_due}
use fcfeeds.Fetch.Types.{Validators, Got}
use fcfeeds.Parse.Types.{ParsedFeed}
use fcfeeds.Poll.Schedule.{Config}
use fcfeeds.Poll.Fetch.{Outcome, fetch_one}

-- The readings of the clock in one fetch.
pub record Clock : Type 0 where
  pub start : Time
  pub now : Time
  pub finish : Time

pub data Event : Type 0 where
  tick : Time → (Due → Clock) → Event  -- ticker.C
  evict : Time → Event  -- evict.C

module _ (hash_string : Text → Text) (get : Text → Validators → Got)
    (parse : Text → Text → Time → Text ⊎ ParsedFeed) (jitter : ℤ → ℤ) (cfg : Config) where
  -- the loop over the claimed feeds
  unfoldable pub fetch_all : (Due → Clock) → List Due → Exec (List Outcome)
  unfolding fetch_one ◌>>=◌ pure
  fetch_all clock [] = pure []
  fetch_all clock (d ∷ ds) = do
    out ←
        fetch_one hash_string get parse jitter cfg d (clock d).start (clock d).now (clock d).finish
    outs ← fetch_all clock ds
    pure (out ∷ outs)

  -- an error of ClaimDue is logged, and the tick is over
  unfoldable pub fetch_due : (Due → Clock) → Result (List Due) → Exec (List Outcome)
  unfolding fetch_all pure
  fetch_due clock (err e) = pure []
  fetch_due clock (ok ds) = fetch_all clock ds

  unfoldable pub handle : Event → Exec (List Outcome)
  unfolding claim_due evict_feeds fetch_due attempt ◌>>=◌ pure
  handle (tick at clock) = do
    r ← attempt (claim_due at cfg.lock_for cfg.claim_batch)
    fetch_due clock r
  handle (evict at) = do _ ← attempt (evict_feeds (at - cfg.evict_after)); pure []

  unfoldable pub run : List Event → Exec (List Outcome)
  unfolding handle ◌>>=◌ pure
  run [] = pure []
  run (e ∷ es) = do outs ← handle e; more ← run es; pure (outs ++ more)
