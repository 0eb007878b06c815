-- ===== src/Api/Tests.antt =====
-- The theorems of the API at concrete lists and requests.
use fcfeeds.Prelude.{none, ℕ, ◌*◌, false, List, [], ◌∷◌, All, In, Unique, ◌≡◌, refl, inl, inr}
use fcfeeds.Prelude.Sort.{Sorted, Pairwise}
use fcfeeds.Text.{Text, codes, is_empty, text_eq}
use fcfeeds.Time.{hour, second}
use fcfeeds.Store.Rows.{Item, Feed, empty_db}
use fcfeeds.Api.Dedupe.{later_first, dedupe}
use fcfeeds.Api.Stories.{Apart, Accounted}
use fcfeeds.Api.Query.{split_comma, split_feeds, Timeline, get_items}
use fcfeeds.Api.Answers.{split_feeds-Unique, Shows, get_items-Shows}
use fcfeeds.Store.Runs.{quiet}
use fcfeeds.Api.Deduped.{dedupe_stories}

abbrev as_is : Text → Text
as_is t = t

abbrev story : ℕ → Text → Text → ℕ → Item
story i hash title published = record {
  id = i;
  feed_id = i;
  feed_url = [];
  key = [];
  url = [];
  canonical_url = [];
  url_hash = hash;
  title = title;
  source_name = [];
  source_url = [];
  image_url = [];
  published_at = published;
  first_seen_at = 0;
  date_estimated = false;
}

abbrev stories : List Item
stories =
    story 1 (codes "h1") (codes "one") (3 * hour)
    ∷ story 2 (codes "h2") (codes "two") (2 * hour)
    ∷ story 3 (codes "h2") (codes "three") (1 * hour)
    ∷ []

dedupe_stories_example :
    All (λ it. In it stories) (dedupe as_is stories)
    × Sorted later_first (dedupe as_is stories)
    × Pairwise (Apart as_is) (dedupe as_is stories)
    × All (λ it. Accounted as_is stories (dedupe as_is stories) it) stories
dedupe_stories_example = dedupe_stories as_is stories

abbrev two_parts : Text
two_parts = codes "a,,b,a"

split_feeds-Unique_example :
    In (codes "b") (split_feeds as_is two_parts)
    × All (λ t. is_empty t ≡ false) (split_feeds as_is two_parts)
    × Unique (λ (t : Text). t) (split_feeds as_is two_parts)
unfolding split_comma
split_feeds-Unique_example =
    split_feeds-Unique as_is two_parts (codes "b") (inr (inr (inl refl))) refl

abbrev asked : List Text
asked = codes "http://a" ∷ []

abbrev one_feed : List Feed
one_feed =
    record {
      id = 1;
      url = codes "http://a";
      kind = [];
      title = [];
      site_url = [];
      poll_interval = 900 * second;
      created_at = 1000 * second;
      last_requested_at = 1000 * second;
    }
    ∷ []

-- a feed that is new, so still without items
abbrev fresh : Timeline
fresh = record { feeds = one_feed; items = []; warming = asked; stale = [] }

get_items-Shows_example :
    Shows as_is asked none 50 fresh
      (get_items as_is asked none 50 (1000 * second) (quiet empty_db)).1.db
unfolding get_items text_eq
get_items-Shows_example =
    get_items-Shows as_is asked none 50 (1000 * second) (quiet empty_db) fresh refl
