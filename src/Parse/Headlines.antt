-- ===== src/Parse/Headlines.antt =====
-- Which entries of a document internal/parse keeps, and in which order.
use fcfeeds.Prelude.{◌≡◌, refl, inl, inr, List, [], ◌∷◌, Bool-cases, keep, map, ◌∙◌, ap}
use fcfeeds.Text.{Text, is_empty}
use fcfeeds.Time.{Time}
use fcfeeds.Parse.Types.{ParsedItem}
use fcfeeds.Parse.Library.{Library, RssItem, RssDoc, AtomEntry, AtomDoc, JsonItem, JsonDoc}
use fcfeeds.Parse.Normalize.{clean_title, finished, finish}
use fcfeeds.Parse.Documents.{
  finish_all, clean_names, rss_draft, atom_draft, json_draft, rss_feed, atom_feed, json_feed,
  first_non_empty,
}
use fcfeeds.Parse.Fields.{rss_items}

abbrev pub titles : List ParsedItem → List Text
titles its = map (λ (it : ParsedItem). it.title) its

module _ (lib : Library) (feed_url : Text) (now : Time) where
  finish_all_titles :
      (its : List ParsedItem)
      → titles (finish_all lib its feed_url now) ≡ clean_names lib (titles its)
  unfolding finish_all finish finished keep
  finish_all_titles [] = refl
  finish_all_titles (it ∷ its) = elim (Bool-cases (is_empty (clean_title lib it.title))) [
    | inl e ↦ rw e (finish_all_titles its)
    | inr e ↦ rw e (ap (λ ts. clean_title lib it.title ∷ ts) (finish_all_titles its))
  ]

  drafted :
      {A : Type 0} (draft : A → ParsedItem) (title : A → Text)
      → ((a : A) → (draft a).title ≡ title a)
      → (xs : List A) → titles (map draft xs) ≡ map title xs
  drafted draft title h [] = refl
  drafted draft title h (x ∷ xs) = cc (h x, drafted draft title h xs)

  kept :
      {A : Type 0} (draft : A → ParsedItem) (title : A → Text)
      → ((a : A) → (draft a).title ≡ title a)
      → (xs : List A)
      → titles (finish_all lib (map draft xs) feed_url now) ≡ clean_names lib (map title xs)
  kept draft title h xs =
      finish_all_titles (map draft xs) ∙ ap (clean_names lib) (drafted draft title h xs)

  -- The headlines of a feed are those of its document's entries, cleaned, in their order, without
  -- the ones that cleaning leaves empty: of an RSS document its channel's items, or the items at its
  -- root where the channel has none, of an Atom document its entries, of a JSON Feed its items.
  pub feed_headlines :
      ((doc : RssDoc)
        → titles (rss_feed lib doc feed_url now).items
          ≡ clean_names lib (map (λ (i : RssItem). i.title) (rss_items doc)))
      × ((doc : AtomDoc)
          → titles (atom_feed lib doc feed_url now).items
            ≡ clean_names lib (map (λ (e : AtomEntry). e.title) doc.entries))
      × ((doc : JsonDoc)
          → titles (json_feed lib doc feed_url now).items
            ≡ clean_names lib (map (λ (i : JsonItem). i.title) doc.items))
  unfolding rss_feed rss_draft atom_feed atom_draft json_feed json_draft
  feed_headlines = (
    λ doc. kept (rss_draft lib (lib.trim doc.link)) (λ i. i.title) (λ i. refl) (rss_items doc),
    λ doc.
        kept (atom_draft lib (first_non_empty lib doc.base feed_url)) (λ e. e.title) (λ e. refl)
          doc.entries,
    λ doc. kept (json_draft lib) (λ i. i.title) (λ i. refl) doc.items,
  )
