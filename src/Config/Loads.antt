-- ===== src/Config/Loads.antt =====
-- What `Load` accepts, and what it then returns.
use fcfeeds.Prelude.{
  ◌*◌, ◌^◌, ◌≡◌, refl, ◌↔◌, ◌⊎◌, inl, inr, true, false, Option, none, some, arith, Bool-cases,
  subst,
}
use fcfeeds.Prelude.Int.{ℤ, pos, lt_int}
use fcfeeds.Text.{Text, codes, is_empty}
use fcfeeds.Time.{second, minute, hour}
use fcfeeds.Config.Load.{
  ServiceConfig, LoadError, Loaded, text_or, continue, read, dur, integer, body_bytes, positive_int,
  load_texts, load_min_poll, load_workers, load_max_body, load_timeout, load_evict_after,
  load_budget, from_workers, from_max_body, from_timeout, from_evict_after, from_budget,
  check_config, load,
}

continue-none :
    (r : Loaded) (next : ServiceConfig → Loaded) (c : ServiceConfig)
    → continue r next ≡ (c, none)
    → (r.1 ≡ none) × (next r.0 ≡ (c, none))
continue-none (d, none) next c h = (refl, h)
continue-none (d, some e) next c h = ground (arith, h)

check_config-none :
    (d c : ServiceConfig)
    → check_config d ≡ (c, none)
    → (d ≡ c) × (lt_int d.workers (pos 1) ≡ false) × (lt_int d.min_poll (pos minute) ≡ false)
unfolding check_config
check_config-none d c h = ground (arith, h)

read_iff : (key : Text) (r : Text ⊎ ℤ) (n : ℤ) → (read key r ≡ (n, none)) ↔ (r ≡ inr n)
read_iff key (inl e) n = ground arith
read_iff key (inr m) n = ground arith

positive_iff :
    (v : Text) (old : ℤ) (r : Option ℤ) (n : ℤ)
    → (positive_int v old r ≡ (n, none)) ↔ ((r ≡ some n) × (lt_int (pos 0) n ≡ true))
positive_iff v old none n = ground arith
positive_iff v old (some m) n = elim (Bool-cases (lt_int (pos 0) m)) [
  | inl e ↦ ground arith
  | inr e ↦ ground arith
]

module _ (getenv : Text → Text) where
  -- The default where the variable is not set, and else the number that its value is.
  abbrev pub NumberOf : (Text → Text ⊎ ℤ) → Text → ℤ → ℤ → Type 0
  NumberOf number key def n =
      ((is_empty (getenv key) ≡ true) × (n ≡ def))
      ⊎ ((is_empty (getenv key) ≡ false) × (number (getenv key) ≡ inr n))

  abbrev pub BodyOf : (Text → Option ℤ) → ℤ → Type 0
  BodyOf parse_int n =
      ((is_empty (getenv (codes "FEEDS_MAX_BODY_BYTES")) ≡ true) × (n ≡ pos (5 * 2 ^ 20)))
      ⊎ ((is_empty (getenv (codes "FEEDS_MAX_BODY_BYTES")) ≡ false)
          × (parse_int (getenv (codes "FEEDS_MAX_BODY_BYTES")) ≡ some n)
          × (lt_int (pos 0) n ≡ true))

  dur-NumberOf :
      (number : Text → Text ⊎ ℤ) (key : Text) (def n : ℤ)
      → (dur getenv number key def ≡ (n, none)) ↔ NumberOf number key def n
  unfolding dur
  dur-NumberOf number key def n = ground (arith, read_iff key (number (getenv key)) n)

  integer-NumberOf :
      (number : Text → Text ⊎ ℤ) (key : Text) (def n : ℤ)
      → (integer getenv number key def ≡ (n, none)) ↔ NumberOf number key def n
  unfolding integer dur
  integer-NumberOf = dur-NumberOf

  body_bytes-BodyOf :
      (parse_int : Text → Option ℤ) (n : ℤ)
      → (body_bytes getenv parse_int (pos (5 * 2 ^ 20)) ≡ (n, none)) ↔ BodyOf parse_int n
  unfolding body_bytes
  body_bytes-BodyOf parse_int n = ground (
    arith,
    positive_iff (getenv (codes "FEEDS_MAX_BODY_BYTES")) (pos (5 * 2 ^ 20))
        (parse_int (getenv (codes "FEEDS_MAX_BODY_BYTES"))) n,
  )

  module _ (parse_duration atoi : Text → Text ⊎ ℤ) (parse_int : Text → Option ℤ) where
    -- The configuration that the environment asks for.
    pub record Loads (c : ServiceConfig) : Type 0 where
      pub addr : c.addr ≡ text_or (getenv (codes "FEEDS_ADDR")) (codes ":8080")
      pub db_path : c.db_path ≡ text_or (getenv (codes "FEEDS_DB_PATH")) (codes "/data/feeds.db")
      pub user_agent :
          c.user_agent
          ≡ text_or
              (getenv (codes "FEEDS_USER_AGENT"))
              (codes "feeds/1.0 (+https://github.com/FACorreiaa/FCFeeds; shared aggregator)")
      pub min_poll : NumberOf parse_duration (codes "FEEDS_MIN_POLL") (pos (5 * minute)) c.min_poll
      pub workers : NumberOf atoi (codes "FEEDS_WORKERS") (pos 4) c.workers
      pub max_body : BodyOf parse_int c.max_body_bytes
      pub timeout :
          NumberOf parse_duration (codes "FEEDS_FETCH_TIMEOUT") (pos (15 * second)) c.fetch_timeout
      pub evict_after :
          NumberOf parse_duration (codes "FEEDS_EVICT_AFTER") (pos (14 * 24 * hour)) c.evict_after
      pub budget :
          NumberOf parse_duration
            (codes "FEEDS_COLD_FETCH_BUDGET")
            (pos (8 * second))
            c.cold_fetch_budget
      pub staffed : lt_int c.workers (pos 1) ≡ false
      pub polite : lt_int c.min_poll (pos minute) ≡ false

    pair_of : (r : ℤ × Option LoadError) → r.1 ≡ none → r ≡ (r.0, none)
    pair_of (n, e) h = cc

    load-Loads :
        (c : ServiceConfig) → load getenv parse_duration atoi parse_int ≡ (c, none) → Loads c
    unfolding load
    load-Loads c h0 =
        let c0 = load_texts getenv in
        let (e1, h1) =
          continue-none (load_min_poll getenv parse_duration atoi parse_int c0)
            (from_workers getenv parse_duration atoi parse_int) c h0 in
        let c1 = (load_min_poll getenv parse_duration atoi parse_int c0).0 in
        let (e2, h2) =
          continue-none (load_workers getenv parse_duration atoi parse_int c1)
            (from_max_body getenv parse_duration atoi parse_int) c h1 in
        let c2 = (load_workers getenv parse_duration atoi parse_int c1).0 in
        let (e3, h3) =
          continue-none (load_max_body getenv parse_duration atoi parse_int c2)
            (from_timeout getenv parse_duration atoi parse_int) c h2 in
        let c3 = (load_max_body getenv parse_duration atoi parse_int c2).0 in
        let (e4, h4) =
          continue-none (load_timeout getenv parse_duration atoi parse_int c3)
            (from_evict_after getenv parse_duration atoi parse_int) c h3 in
        let c4 = (load_timeout getenv parse_duration atoi parse_int c3).0 in
        let (e5, h5) =
          continue-none (load_evict_after getenv parse_duration atoi parse_int c4)
            (from_budget getenv parse_duration atoi parse_int) c h4 in
        let c5 = (load_evict_after getenv parse_duration atoi parse_int c4).0 in
        let (e6, h6) =
          continue-none (load_budget getenv parse_duration atoi parse_int c5) check_config c h5 in
        let c6 = (load_budget getenv parse_duration atoi parse_int c5).0 in
        let (same, staffed, polite) = check_config-none c6 c h6 in
        subst Loads same (record {
          addr = refl;
          db_path = refl;
          user_agent = refl;
          min_poll = duration_read (codes "FEEDS_MIN_POLL") c0.min_poll e1;
          workers =
              (integer-NumberOf atoi (codes "FEEDS_WORKERS") (pos 4) c6.workers).0
                (pair_of (integer getenv atoi (codes "FEEDS_WORKERS") (pos 4)) e2);
          max_body =
              (body_bytes-BodyOf parse_int c6.max_body_bytes).0
                (pair_of (body_bytes getenv parse_int (pos (5 * 2 ^ 20))) e3);
          timeout = duration_read (codes "FEEDS_FETCH_TIMEOUT") c0.fetch_timeout e4;
          evict_after = duration_read (codes "FEEDS_EVICT_AFTER") c0.evict_after e5;
          budget = duration_read (codes "FEEDS_COLD_FETCH_BUDGET") c0.cold_fetch_budget e6;
          staffed = staffed;
          polite = polite;
        })
      where
        duration_read :
            (key : Text) (def : ℤ)
            → (dur getenv parse_duration key def).1 ≡ none
            → NumberOf parse_duration key def (dur getenv parse_duration key def).0
        duration_read key def e =
            (dur-NumberOf parse_duration key def (dur getenv parse_duration key def).0).0
              (pair_of (dur getenv parse_duration key def) e)

    Loads-load :
        (c : ServiceConfig) → Loads c → load getenv parse_duration atoi parse_int ≡ (c, none)
    unfolding load check_config
    Loads-load c l =
        rw
          (
            (dur-NumberOf parse_duration (codes "FEEDS_MIN_POLL") (pos (5 * minute)) c.min_poll).1
                l.min_poll,
            (integer-NumberOf atoi (codes "FEEDS_WORKERS") (pos 4) c.workers).1 l.workers,
            (body_bytes-BodyOf parse_int c.max_body_bytes).1 l.max_body,
            (dur-NumberOf parse_duration (codes "FEEDS_FETCH_TIMEOUT") (pos (15 * second))
                  c.fetch_timeout).1
                l.timeout,
            (dur-NumberOf parse_duration (codes "FEEDS_EVICT_AFTER") (pos (14 * 24 * hour))
                  c.evict_after).1
                l.evict_after,
            (dur-NumberOf parse_duration (codes "FEEDS_COLD_FETCH_BUDGET") (pos (8 * second))
                  c.cold_fetch_budget).1
                l.budget,
            l.staffed,
            l.polite,
          )
          (cc (l.addr, l.db_path, l.user_agent))

    -- `Load` returns a configuration without an error exactly when it is the one that the
    -- environment asks for: each text is the variable's value, or its default where that is empty;
    -- each number is the default where the variable is empty, and else what the value says, which
    -- is a number; the body's limit is positive, there is a worker, and the shortest poll is no less
    -- than a minute.
    pub load_iff :
        (c : ServiceConfig) → (load getenv parse_duration atoi parse_int ≡ (c, none)) ↔ Loads c
    load_iff c = (load-Loads c, Loads-load c)
