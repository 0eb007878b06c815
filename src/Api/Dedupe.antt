-- ===== src/Api/Dedupe.antt =====
-- dedupe and normalizeTitle of internal/api/server.go.
use fcfeeds.Prelude.{
  ℕ, ◌-◌, ◌*◌, Bool, false, not, ◌&&◌, ◌||◌, List, [], ◌∷◌, ◌++◌, ltb, leb, if◌then◌else◌, keep,
}
use fcfeeds.Prelude.Sort.{sort}
use fcfeeds.Text.{Text, text_eq, is_empty, has_text}
use fcfeeds.Time.{Time, Duration, hour}
use fcfeeds.Store.Rows.{Item}

pub record TitleSeen : Type 0 where
  pub title : Text
  pub at : Time

-- The three variables of the loop.
pub record Seen : Type 0 where
  pub hashes : List Text
  pub titles : List TitleSeen
  pub kept : List Item

-- PublishedAt.Before and PublishedAt.After, as the non-strict orders that stable sorts keep
abbrev pub earlier_first : Item → Item → Bool
earlier_first a b = leb a.published_at b.published_at

abbrev pub later_first : Item → Item → Bool
later_first a b = leb b.published_at a.published_at

abbrev pub window : Duration
window = 48 * hour

-- 'a' to 'z', '0' to '9', or a byte of a longer UTF-8 sequence
abbrev pub is_title_byte : ℕ → Bool
is_title_byte b = (leb 97 b && leb b 122) || ((leb 48 b && leb b 57) || ltb 127 b)

abbrev pub nothing_seen : Seen
nothing_seen = record { hashes = []; titles = []; kept = [] }

-- strings.ToLower is a parameter; its table is Unicode's.
module _ (to_lower : Text → Text) where
  unfoldable pub normalize_title : Text → Text
  unfolding keep
  normalize_title t = keep is_title_byte (to_lower t)

  abbrev pub seen_title : List TitleSeen → Item → Bool
  seen_title [] it = false
  seen_title (t ∷ ts) it =
      (text_eq t.title (normalize_title it.title) && leb (it.published_at - t.at) window)
      || seen_title ts it

  -- if it.URLHash != "" { if seenHash[it.URLHash] { continue } ...
  abbrev pub seen_hash : Seen → Item → Bool
  seen_hash st it = not (is_empty it.url_hash) && has_text st.hashes it.url_hash

  -- ... seenHash[it.URLHash] = true }
  abbrev pub mark_hash : Seen → Item → Seen
  mark_hash st it =
      if is_empty it.url_hash then st else record st { hashes = it.url_hash ∷ st.hashes }

  abbrev pub keep_item : Seen → Item → Seen
  keep_item st it = record st {
    titles = st.titles ++ record { title = normalize_title it.title; at = it.published_at } ∷ [];
    kept = st.kept ++ it ∷ [];
  }

  -- the body of the loop
  unfoldable pub dedupe_step : Seen → Item → Seen
  unfolding normalize_title
  dedupe_step st it =
      if seen_hash st it
      then st
      else if seen_title st.titles it
      then mark_hash st it
      else keep_item (mark_hash st it) it

  unfoldable pub dedupe_loop : Seen → List Item → Seen
  unfolding dedupe_step
  dedupe_loop st [] = st
  dedupe_loop st (it ∷ its) = dedupe_loop (dedupe_step st it) its

  unfoldable pub dedupe : List Item → List Item
  unfolding dedupe_loop sort
  dedupe items = sort later_first (dedupe_loop nothing_seen (sort earlier_first items)).kept
