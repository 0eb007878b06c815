-- ===== src/Parse/Tests.antt =====
-- Examples on concrete documents and URLs.
use fcfeeds.Prelude.{◌≡◌, refl, inl, inr, true, false, [], ◌∷◌, arith, map, Bool-cases, subst, sym}
use fcfeeds.Text.{codes, text_eq, text_eq_iff, has_suffix, contains, has_prefix}
use fcfeeds.Parse.Types.{Kind, ParsedFeed}
use fcfeeds.Parse.Runes.{runes}
use fcfeeds.Parse.Library.{RssItem, RssDoc, AtomDoc, AtomEntry, JsonDoc, JsonItem}
use fcfeeds.Parse.Normalize.{canonical_url, key_for_url, is_tracking, values}
use fcfeeds.Parse.Documents.{
  rss_feed, atom_feed, json_feed, clean_names, finish_all, rss_draft, parse_rss,
}
use fcfeeds.Parse.Fields.{rss_items}
use fcfeeds.Parse.Detect.{detect, parse}
use fcfeeds.Parse.Normalized.{IsNormalizedFeed, parse-IsNormalizedFeed}
use fcfeeds.Parse.Headlines.{titles, feed_headlines}
use fcfeeds.Parse.Canonical.{canonical_same}
use fcfeeds.Parse.QueryValues.{SameValues}
use fcfeeds.Parse.Sample.{plain, tracked, doc, toy, body, noon}

abbrev parsed_doc : ParsedFeed
parsed_doc = rss_feed toy doc (codes "http://a.org/rss") noon

parse_runs : parse toy body (codes "http://a.org/rss") noon ≡ inr parsed_doc
unfolding parse parse_rss detect contains has_prefix
parse_runs = refl

parse-IsNormalizedFeed_example :
    (k : Kind) × (detect toy body ≡ inr k) × IsNormalizedFeed toy noon k parsed_doc
parse-IsNormalizedFeed_example =
    parse-IsNormalizedFeed toy (λ s z. ground (arith, z)) (codes "http://a.org/rss") noon body
      parsed_doc parse_runs

feed_headlines_example :
    ((d : RssDoc)
      → titles (rss_feed toy d (codes "http://a.org/rss") noon).items
        ≡ clean_names toy (map (λ (i : RssItem). i.title) (rss_items d)))
    × ((d : AtomDoc)
        → titles (atom_feed toy d (codes "http://a.org/rss") noon).items
          ≡ clean_names toy (map (λ (e : AtomEntry). e.title) d.entries))
    × ((d : JsonDoc)
        → titles (json_feed toy d (codes "http://a.org/rss") noon).items
          ≡ clean_names toy (map (λ (i : JsonItem). i.title) d.items))
feed_headlines_example = feed_headlines toy (codes "http://a.org/rss") noon

two_headlines :
    titles (rss_feed toy doc (codes "http://a.org/rss") noon).items
    ≡ codes "One" ∷ codes "Two words" ∷ []
unfolding rss_feed rss_draft finish_all runes
two_headlines = refl

same_values :
    SameValues
      ((codes "utm_source", codes "n") ∷ (codes "id", codes "7") ∷ [])
      ((codes "id", codes "7") ∷ [])
unfolding values is_tracking has_prefix text_eq
same_values k e = elim (Bool-cases (text_eq (codes "utm_source") k)) [
  | inl p ↦
      let same : codes "utm_source" ≡ k = (text_eq_iff (codes "utm_source") k).0 p in
      let wrong : true ≡ false = subst (λ x. is_tracking x ≡ false) (sym same) e in
      ground (arith, wrong)
  | inr p ↦ rw p refl
]

canonical_same_example :
    (canonical_url toy (codes "u") ≡ canonical_url toy (codes "v"))
    × (key_for_url toy (codes "u") ≡ key_for_url toy (codes "v"))
unfolding text_eq has_suffix contains
canonical_same_example =
    canonical_same toy refl (codes "u") (codes "v") tracked plain refl refl refl refl
      (record { scheme = refl; host = inr (inl (refl, refl)); opaque = refl; query = same_values })
