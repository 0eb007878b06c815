-- ===== src/Parse/Detect.antt =====
-- internal/parse/detect.go and parse.go.
use fcfeeds.Prelude.{
  ℕ, zero, suc, ◌-◌, ◌⊎◌, inl, inr, Bool, false, ◌&&◌, ◌||◌, [], ◌∷◌, ◌==◌, if◌then◌else◌, take,
}
use fcfeeds.Text.{Text, codes, contains}
use fcfeeds.Time.{Time}
use fcfeeds.Parse.Types.{Kind, kind_rss, kind_atom, kind_json, ParsedFeed}
use fcfeeds.Parse.Library.{Library}
use fcfeeds.Parse.Documents.{parse_rss, parse_atom, parse_json_feed}

abbrev atom_root : Text
atom_root = codes "(?is)<feed[\\s>][^>]*xmlns\\s*=\\s*[\"']http://www\\.w3\\.org/2005/Atom[\"']"

abbrev rss_root : Text
rss_root = codes "(?is)<(rss|rdf:RDF)[\\s>]"

abbrev unknown_format : Text
unknown_format = codes "parse: not an RSS, Atom or JSON Feed document"

-- the width of the cutset's rune that the text starts with: white space, or the byte order mark
abbrev blank_width : ℕ → Text → ℕ
blank_width c [] = if (c == 32 || c == 9) || (c == 13 || c == 10) then 1 else 0
blank_width c (d ∷ []) = if (c == 32 || c == 9) || (c == 13 || c == 10) then 1 else 0
blank_width c (d ∷ e ∷ s) =
    if (c == 32 || c == 9) || (c == 13 || c == 10)
    then 1
    else if c == 239 && (d == 187 && e == 191)
    then 3
    else 0

-- trimmed := bytes.TrimLeft(head, " \t\r\n\xef\xbb\xbf"); len(trimmed) > 0 && trimmed[0] == '{',
-- after so many bytes of a rune already trimmed
opens_after : ℕ → Text → Bool
opens_after k [] = false
opens_after (suc k) (c ∷ s) = opens_after k s
opens_after zero (c ∷ s) =
    let w = blank_width c s in
    let rest = opens_after (w - 1) s in if w == 0 then c == b'{' else rest

unfoldable opens_object : Text → Bool
unfolding opens_after
opens_object head = opens_after 0 head

module _ (lib : Library) where
  unfoldable pub detect : Text → Text ⊎ Kind
  unfolding opens_object
  detect body =
      let head = take 4096 body in
      if opens_object head
      then if contains head (codes "jsonfeed.org/version")
        then inr kind_json
        else inl unknown_format
      else if lib.matches atom_root head
      then inr kind_atom
      else if lib.matches rss_root head
      then inr kind_rss
      else inl unknown_format

  abbrev pub parse_as : Text ⊎ Kind → Text → Text → Time → Text ⊎ ParsedFeed
  parse_as (inl e) body feed_url now = inl e
  parse_as (inr kind_atom) body feed_url now = parse_atom lib body feed_url now
  parse_as (inr kind_json) body feed_url now = parse_json_feed lib body feed_url now
  parse_as (inr kind_rss) body feed_url now = parse_rss lib body feed_url now

  unfoldable pub parse : Text → Text → Time → Text ⊎ ParsedFeed
  unfolding detect
  parse body feed_url now = parse_as (detect body) body feed_url now
