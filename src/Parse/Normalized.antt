-- ===== src/Parse/Normalized.antt =====
-- What holds of every feed that internal/parse returns.
use fcfeeds.Prelude.{
  ◌+◌, ◌*◌, ◌≤◌, ◌≡◌, refl, ◌≢◌, ◌⊎◌, inl, inr, true, false, some, List, [], ◌∷◌, arith, ltb,
  if◌then◌else◌, Bool-cases, Option-cases, ap, subst, length, map, All,
}
use fcfeeds.Text.{Text, is_empty}
use fcfeeds.Time.{Time, hour}
use fcfeeds.Parse.Types.{Kind, kind_rss, kind_atom, kind_json, ParsedItem, ParsedFeed}
use fcfeeds.Parse.Runes.{runes, length-runes-cut}
use fcfeeds.Parse.Library.{Library, RssDoc, AtomDoc, JsonDoc}
use fcfeeds.Parse.Normalize.{
  cap_title, clean_title, canonical_url, clamp_date, key_for_title, key_of, canonical_or,
  published_or, finished, finish,
}
use fcfeeds.Parse.Documents.{
  finish_all, rss_draft, atom_draft, json_draft, rss_feed, atom_feed, json_feed, parse_rss,
  parse_atom, parse_json_feed, first_non_empty,
}
use fcfeeds.Parse.Fields.{rss_items, decoded-inr}
use fcfeeds.Parse.Detect.{detect, parse_as, parse}

cap_title_short : (s : Text) → length (runes (cap_title s)) ≤ 300
unfolding cap_title
cap_title_short s = elim (Bool-cases (ltb 300 (length (runes s)))) [
  | inl e ↦ rw e (length-runes-cut 300 s)
  | inr e ↦ rw e (ground arith)
]

module _ (lib : Library) where
  clean_title_short : (s : Text) → length (runes (clean_title lib s)) ≤ 300
  clean_title_short s = unfold clean_title in cap_title_short _

  -- An item as the store and the readers rely on it.
  pub record IsNormalized (now : Time) (it : ParsedItem) : Type 0 where
    pub titled : it.title ≢ []
    pub short : length (runes it.title) ≤ 300
    pub keyed : it.key ≢ []
    pub in_time : it.published ≤ now + 24 * hour
    pub estimated : it.date_estimated ≡ true → it.published ≡ now
    pub canonical : it.canonical_url ≡ (if is_empty it.url then [] else canonical_url lib it.url)

  -- A feed as the rest of the program relies on it.
  pub record IsNormalizedFeed (now : Time) (kind : Kind) (feed : ParsedFeed) : Type 0 where
    pub kind_is : feed.kind ≡ kind
    pub title_short : length (runes feed.title) ≤ 300
    pub items_normal : All (IsNormalized now) feed.items

  -- An item before `finish`: neither of the fields that only `finish` sets.
  abbrev IsDraft : ParsedItem → Type 0
  IsDraft it = (it.date_estimated ≡ false) × (it.canonical_url ≡ [])

  module _ (hashed : (s : Text) → lib.hash s ≢ []) (feed_url : Text) (now : Time) where
    key_for_title_some : (t : Text) (p : Time) → key_for_title lib feed_url t p ≢ []
    key_for_title_some t p = unfold key_for_title in hashed _

    key_of_some : (k c t : Text) (p : Time) → key_of lib k c feed_url t p ≢ []
    key_of_some [] [] t p = key_for_title_some t p
    key_of_some [] (b ∷ c) t p = hashed (b ∷ c)
    key_of_some (b ∷ k) c t p = ground arith

    published_or-le : (t : Time) → published_or lib t now ≤ now + 24 * hour
    unfolding clamp_date
    published_or-le t = ground arith

    finished-IsNormalized :
        (it : ParsedItem)
        → IsDraft it
        → is_empty (clean_title lib it.title) ≡ false
        → IsNormalized now (finished lib it feed_url now)
    unfolding finished
    finished-IsNormalized it (fresh, blank) e = record {
      titled = λ z. ground (arith, z);
      short = clean_title_short it.title;
      keyed =
          key_of_some (lib.trim it.key) (canonical_or lib (lib.trim it.url) it.canonical_url)
            (clean_title lib it.title) (published_or lib it.published now);
      in_time = published_or-le it.published;
      estimated = λ m. ground (arith, m);
      canonical =
          ap (λ c. if is_empty (lib.trim it.url) then c else canonical_url lib (lib.trim it.url))
            blank;
    }

    finish-IsNormalized :
        (it kept : ParsedItem)
        → IsDraft it
        → finish lib it feed_url now ≡ some kept
        → IsNormalized now kept
    unfolding finish
    finish-IsNormalized it kept d h = elim (Bool-cases (is_empty (clean_title lib it.title))) [
      | inl e ↦ ground (arith, h)
      | inr e ↦
          let same : finished lib it feed_url now ≡ kept = ground (arith, h) in
          subst (IsNormalized now) same (finished-IsNormalized it d e)
    ]

    finish_all-IsNormalized :
        (its : List ParsedItem)
        → All IsDraft its
        → All (IsNormalized now) (finish_all lib its feed_url now)
    unfolding finish_all
    finish_all-IsNormalized [] _ = tt
    finish_all-IsNormalized (it ∷ its) (d, ds) = elim (Option-cases (finish lib it feed_url now)) [
      | inl e ↦ rw e (finish_all-IsNormalized its ds)
      | inr (kept, e) ↦ rw e (finish-IsNormalized it kept d e, finish_all-IsNormalized its ds)
    ]

    All-drafts :
        {A : Type 0} (f : A → ParsedItem)
        → ((a : A) → IsDraft (f a))
        → (xs : List A) → All IsDraft (map f xs)
    All-drafts f h [] = tt
    All-drafts f h (x ∷ xs) = (h x, All-drafts f h xs)

    rss_normal : (doc : RssDoc) → IsNormalizedFeed now kind_rss (rss_feed lib doc feed_url now)
    unfolding rss_feed rss_draft
    rss_normal doc = record {
      kind_is = refl;
      title_short = clean_title_short doc.title;
      items_normal =
          finish_all-IsNormalized _
            (All-drafts (rss_draft lib (lib.trim doc.link)) (λ a. (refl, refl)) (rss_items doc));
    }

    atom_normal : (doc : AtomDoc) → IsNormalizedFeed now kind_atom (atom_feed lib doc feed_url now)
    unfolding atom_feed atom_draft
    atom_normal doc = record {
      kind_is = refl;
      title_short = clean_title_short doc.title;
      items_normal = finish_all-IsNormalized _ (
          All-drafts (atom_draft lib (first_non_empty lib doc.base feed_url)) (λ a. (refl, refl))
            doc.entries);
    }

    json_normal : (doc : JsonDoc) → IsNormalizedFeed now kind_json (json_feed lib doc feed_url now)
    unfolding json_feed json_draft
    json_normal doc = record {
      kind_is = refl;
      title_short = clean_title_short doc.title;
      items_normal =
          finish_all-IsNormalized _ (All-drafts (json_draft lib) (λ a. (refl, refl)) doc.items);
    }

    parse_as-IsNormalized :
        (body : Text) (k : Kind) (feed : ParsedFeed)
        → parse_as lib (inr k) body feed_url now ≡ inr feed
        → IsNormalizedFeed now k feed
    unfolding parse_rss parse_atom parse_json_feed
    parse_as-IsNormalized body kind_rss feed h =
        let (doc, same) =
          decoded-inr (λ d. rss_feed lib d feed_url now) (lib.decode_rss body) feed h in
        subst (IsNormalizedFeed now kind_rss) same (rss_normal doc)
    parse_as-IsNormalized body kind_atom feed h =
        let (doc, same) =
          decoded-inr (λ d. atom_feed lib d feed_url now) (lib.decode_atom body) feed h in
        subst (IsNormalizedFeed now kind_atom) same (atom_normal doc)
    parse_as-IsNormalized body kind_json feed h =
        let (doc, same) =
          decoded-inr (λ d. json_feed lib d feed_url now) (lib.decode_json body) feed h in
        subst (IsNormalizedFeed now kind_json) same (json_normal doc)

    detected :
        (body : Text) (d : Text ⊎ Kind) (feed : ParsedFeed)
        → parse_as lib d body feed_url now ≡ inr feed
        → (k : Kind) × (d ≡ inr k) × IsNormalizedFeed now k feed
    detected body (inl e) feed h = ground (arith, h)
    detected body (inr k) feed h = (k, refl, parse_as-IsNormalized body k feed h)

    -- Where Parse returns a feed, it is of the kind that Detect gives, its title and every headline
    -- have at most 300 runes, and each item has a headline, a key (if no digest is empty), a date
    -- at most a day after now, now itself where the date is marked as estimated, and the canonical
    -- form of its URL.
    pub parse-IsNormalizedFeed :
        (body : Text) (feed : ParsedFeed)
        → parse lib body feed_url now ≡ inr feed
        → (k : Kind) × (detect lib body ≡ inr k) × IsNormalizedFeed now k feed
    unfolding parse
    parse-IsNormalizedFeed body feed h = detected body (detect lib body) feed h
