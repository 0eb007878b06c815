-- ===== src/Api/Query.antt =====
-- splitFeeds, clamp, isStale and the timeline of getItems in internal/api/server.go, after the
-- parameters of the request were read.
use fcfeeds.Prelude.{
  ℕ, ◌*◌, Bool, true, false, ◌&&◌, ◌||◌, not, Option, none, some, List, [], ◌∷◌, ltb, ◌==◌,
  if◌then◌else◌, length, take, map, find_row,
}
use fcfeeds.Prelude.Int.{ℤ, lt_int}
use fcfeeds.Text.{Text, is_empty, has_text}
use fcfeeds.Time.{Time}
use fcfeeds.Store.Rows.{Feed, FetchState, Item}
use fcfeeds.Store.Conn.{Exec, pure, ◌>>=◌}
use fcfeeds.Store.Feeds.{ensure_feeds}
use fcfeeds.Store.Claims.{fetch_states}
use fcfeeds.Store.Items.{list_items}
use fcfeeds.Api.Dedupe.{dedupe}

abbrev push : ℕ → List Text → List Text
push c [] = (c ∷ []) ∷ []
push c (p ∷ ps) = (c ∷ p) ∷ ps

-- strings.Split(v, ",")
unfoldable pub split_comma : Text → List Text
split_comma [] = [] ∷ []
split_comma (c ∷ s) = let parts = split_comma s in if c == 44 then [] ∷ parts else push c parts

-- the loop; `trim` is strings.TrimSpace
unfoldable pub split_loop : (Text → Text) → List Text → List Text → List Text
split_loop trim seen [] = []
split_loop trim seen (p ∷ ps) = elim (is_empty (trim p) || has_text seen (trim p)) [
  | true ↦ split_loop trim seen ps
  | false ↦ trim p ∷ split_loop trim (trim p ∷ seen) ps
]

unfoldable pub split_feeds : (Text → Text) → Text → List Text
unfolding split_comma split_loop
split_feeds trim v = split_loop trim [] (split_comma v)

abbrev pub clamp : ℤ → ℤ → ℤ → ℤ
clamp n lo hi = if lt_int n lo then lo else if lt_int hi n then hi else n

abbrev pub has_time : Option Time → Bool
has_time none = false
has_time (some t) = true

abbrev pub is_stale : FetchState → Bool
is_stale st = ltb 0 st.fail_count && has_time st.last_ok_at

-- states[f.ID]; a state that is missing reads as one without a success
abbrev pub state_of : List FetchState → Feed → Option FetchState
state_of states f = find_row (λ s. s.feed_id == f.id) states

abbrev pub is_warming : Option FetchState → Bool
is_warming none = true
is_warming (some st) = not (has_time st.last_ok_at)

abbrev pub is_stale_of : Option FetchState → Bool
is_stale_of none = false
is_stale_of (some st) = is_stale st

-- the loop over the feeds
abbrev pub warming_urls : List FetchState → List Feed → List Text
warming_urls states [] = []
warming_urls states (f ∷ fs) =
    let urls = warming_urls states fs in
    if is_warming (state_of states f) then f.url ∷ urls else urls

abbrev pub stale_urls : List FetchState → List Feed → List Text
stale_urls states [] = []
stale_urls states (f ∷ fs) =
    let urls = stale_urls states fs in
    if is_warming (state_of states f)
    then urls
    else if is_stale_of (state_of states f)
    then f.url ∷ urls
    else urls

abbrev pub feed_id_of : Feed → ℕ
feed_id_of f = f.id

-- the response, with the items before they are written as JSON, and the feeds asked for
pub record Timeline : Type 0 where
  pub feeds : List Feed
  pub items : List Item
  pub warming : List Text
  pub stale : List Text

module _ (to_lower : Text → Text) where
  unfoldable pub timeline : ℕ → List Feed → List FetchState → List Item → Timeline
  unfolding dedupe find_row
  timeline limit feeds states raw =
      let merged = dedupe to_lower raw in
      record {
        feeds = feeds;
        items = if ltb limit (length merged) then take limit merged else merged;
        warming = warming_urls states feeds;
        stale = stale_urls states feeds;
      }

  unfoldable pub get_items : List Text → Option Time → ℕ → Time → Exec Timeline
  unfolding ensure_feeds fetch_states list_items timeline ◌>>=◌ pure
  get_items urls since limit now = do
    feeds ← ensure_feeds urls now
    states ← fetch_states (map feed_id_of feeds)
    raw ← list_items (map feed_id_of feeds) since (limit * 3)
    pure (timeline limit feeds states raw)
