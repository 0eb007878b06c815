-- ===== src/Discover/Search.antt =====
-- Discover, fetchAndValidate and validate in internal/discover/discover.go. The client's Get and the
-- clock are parameters.
use fcfeeds.Prelude.{
  ℕ, ◌⊎◌, inl, inr, Bool, true, false, ◌||◌, Option, none, some, List, [], ◌∷◌, ◌++◌, ltb, leb,
  ◌==◌, if◌then◌else◌, length,
}
use fcfeeds.Text.{Text, codes, has_text}
use fcfeeds.Time.{Time}
use fcfeeds.Fetch.Types.{Validators, FetchResult, FetchError, Got, got, refused}
use fcfeeds.Parse.Types.{ParsedFeed}
use fcfeeds.Parse.Library.{Library, UrlParts}
use fcfeeds.Parse.Detect.{parse}
use fcfeeds.Poll.Fetch.{kind_text}
use fcfeeds.Discover.Links.{Node, declared_feeds}

pub record Candidate : Type 0 where
  pub url : Text
  pub kind : Text
  pub title : Text

pub record Discoverer : Type 0 where
  pub probe_paths : List Text
  pub max_candidates : ℕ

-- New
abbrev pub default_discoverer : Discoverer
default_discoverer = record {
  probe_paths =
      codes "/feed"
      ∷ codes "/rss"
      ∷ codes "/rss.xml"
      ∷ codes "/atom.xml"
      ∷ codes "/feed.xml"
      ∷ codes "/feed.json"
      ∷ codes "/index.xml"
      ∷ [];
  max_candidates = 8;
}

pub data DiscoverError : Type 0 where
  unreachable : FetchError → DiscoverError
  bad_status : Text → ℕ → DiscoverError
  bad_url : Text → DiscoverError

-- out, and seen: the URLs that the loops have fetched, in their order
pub record Search : Type 0 where
  pub out : List Candidate
  pub seen : List Text

abbrev pub empty_search : Search
empty_search = record { out = []; seen = [] }

abbrev pub no_validators : Validators
no_validators = record { etag = []; last_modified = [] }

abbrev pub candidate_of : Text → Text ⊎ ParsedFeed → Option Candidate
candidate_of u (inl e) = none
candidate_of u (inr f) = some (record { url = u; kind = kind_text f.kind; title = f.title })

-- out = append(out, c), where there is a candidate
abbrev pub add_candidate : Search → Text → Option Candidate → Search
add_candidate st u none = record st { seen = st.seen ++ u ∷ [] }
add_candidate st u (some c) = record { out = st.out ++ c ∷ []; seen = st.seen ++ u ∷ [] }

-- root.ResolveReference(&url.URL{Path: p})
abbrev site_root : UrlParts → UrlParts
site_root base = record {
  scheme = base.scheme;
  host = base.host;
  raw_query = [];
  fragment = [];
  raw_fragment = [];
  opaque = [];
}

abbrev path_url : Text → UrlParts
path_url p = record {
  scheme = [];
  host = [];
  raw_query = [];
  fragment = [];
  raw_fragment = [];
  opaque = p;
}

-- one round of the loop over the conventional paths: seen before, no feed, or a candidate
abbrev pub probed : Bool → Option Candidate → Text → (Search → Search) → Search → Search
probed true r u rest st = rest st
probed false none u rest st = rest (add_candidate st u none)
probed false (some c) u rest st = add_candidate st u (some c)

module _ (lib : Library) (get : Text → Validators → Got) (now : Time) where
  unfoldable pub validate : Text → Text → Option Candidate
  validate u body = candidate_of u (parse lib body u now)

  abbrev pub validate_got : Text → Got → Option Candidate
  validate_got u (refused e) = none
  validate_got u (got res) = if res.status == 200 then validate u res.body else none

  unfoldable pub fetch_and_validate : Text → Option Candidate
  unfolding validate
  fetch_and_validate u = validate_got u (get u no_validators)

  module _ (d : Discoverer) where
    -- the body of the loop over the declared links
    unfoldable pub visit : Search → Text → Search
    unfolding fetch_and_validate
    visit st href =
        if has_text st.seen href || leb d.max_candidates (length st.out)
        then st
        else add_candidate st href (fetch_and_validate href)

    unfoldable pub visit_all : List Text → Search → Search
    unfolding visit
    visit_all [] st = st
    visit_all (h ∷ hs) st = visit_all hs (visit st h)

    abbrev pub probe_url : UrlParts → Text → Text
    probe_url base p = lib.print_url (lib.resolve (site_root base) (path_url p))

    -- the loop over the conventional paths, which ends with the first candidate
    unfoldable pub probe : UrlParts → List Text → Search → Search
    unfolding fetch_and_validate
    probe base [] st = st
    probe base (p ∷ ps) st =
        let u = probe_url base p in
        probed (has_text st.seen u) (fetch_and_validate u) u (probe base ps) st

    module _ (parse_html : Text → Option Node) where
      -- the loops, from the page's body and its URL
      unfoldable pub search_site : Text → UrlParts → Search
      unfolding visit_all probe declared_feeds
      search_site body base =
          let st = visit_all (declared_feeds lib parse_html body base) empty_search in
          if ltb 0 (length st.out) then st else probe base d.probe_paths st

      abbrev pub search_url : FetchResult → Option UrlParts → DiscoverError ⊎ Search
      search_url res none = inl (bad_url res.final_url)
      search_url res (some base) = inr (search_site res.body base)

      abbrev pub search_page : FetchResult → Option Candidate → DiscoverError ⊎ Search
      search_page res (some c) = inr (record { out = c ∷ []; seen = [] })
      search_page res none = search_url res (lib.parse_url res.final_url)

      abbrev pub search_got : Text → Got → DiscoverError ⊎ Search
      search_got raw_url (refused e) = inl (unreachable e)
      search_got raw_url (got res) =
          if ltb res.status 200 || ltb 299 res.status
          then inl (bad_status raw_url res.status)
          else search_page res (validate res.final_url res.body)

      -- Discover: the error, or the candidates with the URLs fetched after the page
      unfoldable pub discover : Text → DiscoverError ⊎ Search
      unfolding search_site validate
      discover raw_url = search_got raw_url (get raw_url no_validators)
