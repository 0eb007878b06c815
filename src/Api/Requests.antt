-- ===== src/Api/Requests.antt =====
-- The other handlers of internal/api/server.go: getItems with its parameters, postDiscover and
-- healthz. strings.TrimSpace, strings.ToLower, strconv.Atoi, time.Parse of RFC 3339 and the JSON
-- decoder of a request's body are parameters.
use fcfeeds.Prelude.{
  ℕ, ◌⊎◌, inl, inr, Bool, true, false, Option, none, some, List, [], ◌∷◌, ◌++◌, ltb, if◌then◌else◌,
  length,
}
use fcfeeds.Prelude.Int.{ℤ, pos, clamp_int}
use fcfeeds.Text.{Text, codes, is_empty}
use fcfeeds.Time.{Time}
use fcfeeds.Store.Rows.{Stats}
use fcfeeds.Store.Conn.{Result, ok, err, Exec, pure, ◌>>=◌, query, attempt}
use fcfeeds.Store.Feeds.{stats}
use fcfeeds.Fetch.Types.{blocked, too_large, failed}
use fcfeeds.Metrics.Registry.{itoa}
use fcfeeds.Discover.Search.{Search, DiscoverError, unreachable, bad_status, bad_url}
use fcfeeds.Api.Query.{split_feeds, clamp, get_items}
use fcfeeds.Api.Response.{Reply, write_json, fail, candidates_body, unhealthy, healthy}
use fcfeeds.Api.Handlers.{Options, Answer, Client, Writer, items_reply}

-- the first URL that the guard refuses
unfoldable pub first_refusal : (Text → Option Text) → List Text → Option Text
first_refusal check [] = none
first_refusal check (u ∷ us) = elim (check u) [
  | some msg ↦ some msg
  | none ↦ first_refusal check us
]

module _ (parse_rfc3339 : Text → Option Time) (atoi : Text → Option ℤ) (o : Options) where
  -- since: the zero time without the parameter
  abbrev parsed_since : Option Time → Text ⊎ Option Time
  parsed_since none = inl (codes "since must be RFC 3339")
  parsed_since (some t) = inr (some t)

  unfoldable pub read_since : Text → Text ⊎ Option Time
  read_since v = if is_empty v then inr none else parsed_since (parse_rfc3339 v)

  abbrev pub parsed_limit : Option ℤ → Text ⊎ ℕ
  parsed_limit none = inl (codes "limit must be an integer")
  parsed_limit (some n) = inr (clamp_int (clamp n (pos 1) (pos o.max_limit)))

  unfoldable pub read_limit : Text → Text ⊎ ℕ
  read_limit v = if is_empty v then inr o.default_limit else parsed_limit (atoi v)

  module _ (w : Writer) (trim to_lower : Text → Text) (check : Text → Option Text) where
    -- from EnsureFeeds on
    abbrev pub answer_items : Client → Time → List Text → Option Time → ℕ → Exec Answer
    answer_items c now urls since limit = do
      r ← attempt (get_items to_lower urls since limit now)
      pure (items_reply w o c now r)

    abbrev pub with_limit : Client → Time → List Text → Option Time → Text ⊎ ℕ → Exec Answer
    with_limit c now urls since (inl msg) = pure (fail [] 400 msg, [])
    with_limit c now urls since (inr limit) = answer_items c now urls since limit

    abbrev pub with_since : Client → Time → List Text → Text → Text ⊎ Option Time → Exec Answer
    with_since c now urls limit (inl msg) = pure (fail [] 400 msg, [])
    with_since c now urls limit (inr since) = with_limit c now urls since (read_limit limit)

    abbrev pub with_urls : Client → Time → List Text → Text → Text → Option Text → Exec Answer
    with_urls c now urls since limit (some msg) = pure (fail [] 400 msg, [])
    with_urls c now urls since limit none = with_since c now urls limit (read_since since)

    unfoldable pub serve_items : Client → Time → Text → Text → Text → Exec Answer
    unfolding split_feeds first_refusal read_since read_limit items_reply get_items attempt ◌>>=◌
        pure itoa
    serve_items c now feeds since limit =
        let urls = split_feeds trim feeds in
        if ltb 0 (length urls)
        then if ltb o.max_feeds_per_call (length urls)
          then pure (
            fail [] 400 (codes "at most " ++ itoa o.max_feeds_per_call ++ codes " feeds per call"),
            [],
          )
          else with_urls c now urls since limit (first_refusal check urls)
        else pure (fail [] 400 (codes "feeds is required (comma-separated feed urls)"), [])

module _ (w : Writer) (decode_url : Text → Option Text)
    (discover : Text → DiscoverError ⊎ Search) where
  -- errors.Is(err, fetch.ErrBlocked)
  abbrev pub is_blocked : DiscoverError → Bool
  is_blocked (unreachable (blocked msg)) = true
  is_blocked (unreachable (too_large msg)) = false
  is_blocked (unreachable (failed msg)) = false
  is_blocked (bad_status u n) = false
  is_blocked (bad_url u) = false

  abbrev pub discover_reply : DiscoverError ⊎ Search → Reply
  discover_reply (inl e) = fail [] (if is_blocked e then 400 else 502) (w.discover_text e)
  discover_reply (inr st) = write_json [] 200 (candidates_body st.out)

  abbrev body_needed : Reply
  body_needed = fail [] 400 (codes "body must be {\"url\": \"https://...\"}")

  abbrev pub discover_decoded : Option Text → Reply
  discover_decoded none = body_needed
  discover_decoded (some u) = if is_empty u then body_needed else discover_reply (discover u)

  unfoldable pub post_discover : Text → Reply
  post_discover body = discover_decoded (decode_url body)

-- s.db.PingContext
unfoldable pub ping : Exec (Unit {0})
unfolding query
ping = query (λ db. tt)

abbrev pub health_reply : Writer → Result Stats → Reply
health_reply w (err e) = write_json [] 503 (unhealthy (w.error_text e))
health_reply w (ok st) = write_json [] 200 (healthy st)

unfoldable pub healthz : Writer → Time → Exec Answer
unfolding ping stats attempt ◌>>=◌ pure
healthz w now = do r ← attempt (do _ ← ping; stats now); pure (health_reply w r, [])
