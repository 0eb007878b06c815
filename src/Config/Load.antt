-- ===== src/Config/Load.antt =====
-- internal/config/config.go.
use fcfeeds.Prelude.{◌*◌, ◌^◌, ◌⊎◌, inl, inr, Option, none, some, if◌then◌else◌}
use fcfeeds.Prelude.Int.{ℤ, pos, lt_int}
use fcfeeds.Text.{Text, codes, is_empty}
use fcfeeds.Time.{second, minute, hour}

pub record ServiceConfig : Type 0 where
  pub addr : Text
  pub db_path : Text
  pub user_agent : Text
  pub min_poll : ℤ
  pub workers : ℤ
  pub max_body_bytes : ℤ
  pub fetch_timeout : ℤ
  pub evict_after : ℤ
  pub cold_fetch_budget : ℤ

-- The messages of `Load`: "%s: %w" with the variable, "%q is not a positive integer", and the
-- two of the last checks.
pub data LoadError : Type 0 where
  malformed : Text → Text → LoadError
  not_positive : Text → LoadError
  no_workers : LoadError
  poll_too_short : LoadError

abbrev pub default_service : ServiceConfig
default_service = record {
  addr = codes ":8080";
  db_path = codes "/data/feeds.db";
  user_agent = codes "feeds/1.0 (+https://github.com/FACorreiaa/FCFeeds; shared aggregator)";
  min_poll = pos (5 * minute);
  workers = pos 4;
  max_body_bytes = pos (5 * 2 ^ 20);
  fetch_timeout = pos (15 * second);
  evict_after = pos (14 * 24 * hour);
  cold_fetch_budget = pos (8 * second);
}

-- if v := getenv(key); v != "" { c.Field = v }
abbrev pub text_or : Text → Text → Text
text_or v def = if is_empty v then def else v

-- What `Load` returns: the configuration as far as it was read, and its error.
abbrev pub Loaded : Type 0
Loaded = ServiceConfig × Option LoadError

-- if err != nil { return c, err }
abbrev pub continue : Loaded → (ServiceConfig → Loaded) → Loaded
continue (c, some e) next = (c, some e)
continue (c, none) next = next c

-- err == nil decides; the value is 0 beside an error
abbrev pub read : Text → Text ⊎ ℤ → ℤ × Option LoadError
read key (inl e) = (pos 0, some (malformed key e))
read key (inr n) = (n, none)

-- n, err := strconv.ParseInt(v, 10, 64); the old value stays beside an error
abbrev pub positive_int : Text → ℤ → Option ℤ → ℤ × Option LoadError
positive_int v old none = (old, some (not_positive v))
positive_int v old (some n) = if lt_int (pos 0) n then (n, none) else (old, some (not_positive v))

-- the checks at the end
unfoldable pub check_config : ServiceConfig → Loaded
check_config c =
    if lt_int c.workers (pos 1)
    then (c, some no_workers)
    else if lt_int c.min_poll (pos minute)
    then (c, some poll_too_short)
    else (c, none)

module _ (getenv : Text → Text) where
  -- `parse_duration` is time.ParseDuration
  unfoldable pub dur : (Text → Text ⊎ ℤ) → Text → ℤ → ℤ × Option LoadError
  dur parse_duration key def =
      let v = getenv key in if is_empty v then (def, none) else read key (parse_duration v)

  -- `atoi` is strconv.Atoi
  unfoldable pub integer : (Text → Text ⊎ ℤ) → Text → ℤ → ℤ × Option LoadError
  integer atoi key def = let v = getenv key in if is_empty v then (def, none) else read key (atoi v)

  unfoldable pub body_bytes : (Text → Option ℤ) → ℤ → ℤ × Option LoadError
  body_bytes parse_int old =
      let v = getenv (codes "FEEDS_MAX_BODY_BYTES") in
      if is_empty v then (old, none) else positive_int v old (parse_int v)

  abbrev pub load_texts : ServiceConfig
  load_texts = record default_service {
    addr = text_or (getenv (codes "FEEDS_ADDR")) (codes ":8080");
    db_path = text_or (getenv (codes "FEEDS_DB_PATH")) (codes "/data/feeds.db");
    user_agent =
        text_or (getenv (codes "FEEDS_USER_AGENT"))
          (codes "feeds/1.0 (+https://github.com/FACorreiaa/FCFeeds; shared aggregator)");
  }

  module _ (parse_duration atoi : Text → Text ⊎ ℤ) (parse_int : Text → Option ℤ) where
    abbrev pub load_min_poll : ServiceConfig → Loaded
    load_min_poll c =
        let r = dur parse_duration (codes "FEEDS_MIN_POLL") c.min_poll in
        (record c { min_poll = r.0 }, r.1)

    abbrev pub load_workers : ServiceConfig → Loaded
    load_workers c =
        let r = integer atoi (codes "FEEDS_WORKERS") c.workers in (record c { workers = r.0 }, r.1)

    abbrev pub load_max_body : ServiceConfig → Loaded
    load_max_body c =
        let r = body_bytes parse_int c.max_body_bytes in (record c { max_body_bytes = r.0 }, r.1)

    abbrev pub load_timeout : ServiceConfig → Loaded
    load_timeout c =
        let r = dur parse_duration (codes "FEEDS_FETCH_TIMEOUT") c.fetch_timeout in
        (record c { fetch_timeout = r.0 }, r.1)

    abbrev pub load_evict_after : ServiceConfig → Loaded
    load_evict_after c =
        let r = dur parse_duration (codes "FEEDS_EVICT_AFTER") c.evict_after in
        (record c { evict_after = r.0 }, r.1)

    abbrev pub load_budget : ServiceConfig → Loaded
    load_budget c =
        let r = dur parse_duration (codes "FEEDS_COLD_FETCH_BUDGET") c.cold_fetch_budget in
        (record c { cold_fetch_budget = r.0 }, r.1)

    -- the assignments from each one on, and the checks after them
    abbrev pub from_budget : ServiceConfig → Loaded
    from_budget c = continue (load_budget c) check_config

    abbrev pub from_evict_after : ServiceConfig → Loaded
    from_evict_after c = continue (load_evict_after c) from_budget

    abbrev pub from_timeout : ServiceConfig → Loaded
    from_timeout c = continue (load_timeout c) from_evict_after

    abbrev pub from_max_body : ServiceConfig → Loaded
    from_max_body c = continue (load_max_body c) from_timeout

    abbrev pub from_workers : ServiceConfig → Loaded
    from_workers c = continue (load_workers c) from_max_body

    unfoldable pub load : Loaded
    unfolding dur integer body_bytes check_config
    load = continue (load_min_poll load_texts) from_workers
