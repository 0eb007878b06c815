-- ===== src/Discover/Results.antt =====
-- Discover as a whole: where the declared links stand in the page, and what is returned for a site.
use fcfeeds.Prelude.{
  ◌≤◌, ◌<◌, ◌≡◌, refl, sym, subst, ◌∙◌, ap, ◌⊎◌, inl, inr, false, ◌||◌, Option, none, some, List,
  [], ◌∷◌, ◌++◌, arith, ltb, length, In, Bool-cases, map,
}
use fcfeeds.Text.{Text}
use fcfeeds.Time.{Time}
use fcfeeds.Fetch.Types.{Validators, FetchResult, Got, got, refused}
use fcfeeds.Parse.Library.{Library, UrlParts}
use fcfeeds.Discover.Links.{
  Attr, Node, element, other, Nodes, nil, cons, declared_by, walk, walk_children, declared_feeds,
}
use fcfeeds.Discover.Search.{
  Candidate, Discoverer, Search, no_validators, validate, visit_all, probe_url, empty_search,
  search_site, search_url, search_page, search_got, discover,
}
use fcfeeds.Discover.Found.{Visited, passed, passed-In, In-passed, visit_all-Visited}
use fcfeeds.Discover.Sites.{Finds, probing, probe-Finds, Visited-Finds}

-- The elements of a tree in document order, each before what it holds.
mutual
  pub elements : Node → List (Text × List Attr)
  elements (element tag attrs children) = (tag, attrs) ∷ elements_of children
  elements (other children) = elements_of children

  pub elements_of : Nodes → List (Text × List Attr)
  elements_of nil = []
  elements_of (cons n ns) = elements n ++ elements_of ns

append_nil : (s : List Text) → s ++ [] ≡ s
append_nil [] = refl
append_nil (c ∷ s) = ap (λ r. c ∷ r) (append_nil s)

append_assoc : (s t u : List Text) → (s ++ t) ++ u ≡ s ++ (t ++ u)
append_assoc [] t u = refl
append_assoc (c ∷ s) t u = ap (λ r. c ∷ r) (append_assoc s t u)

module _ (lib : Library) (base : UrlParts) where
  -- What the elements declare, one after the other.
  pub declarations : List (Text × List Attr) → List Text
  declarations [] = []
  declarations ((tag, attrs) ∷ es) = declared_by lib base tag attrs ++ declarations es

  declarations-append :
      (es fs : List (Text × List Attr))
      → declarations (es ++ fs) ≡ declarations es ++ declarations fs
  unfolding declarations
  declarations-append [] fs = refl
  declarations-append ((tag, attrs) ∷ es) fs =
      ap (λ r. declared_by lib base tag attrs ++ r) (declarations-append es fs)
      ∙ sym (append_assoc (declared_by lib base tag attrs) (declarations es) (declarations fs))

  mutual
    unfolding walk elements declarations

    walk_lem : (n : Node) (out : List Text) → walk lib base n out ≡ out ++ declarations (elements n)
    walk_lem (element tag attrs children) out =
        walk_children_lem children (out ++ declared_by lib base tag attrs)
        ∙ append_assoc out (declared_by lib base tag attrs) (declarations (elements_of children))
    walk_lem (other children) out = walk_children_lem children out

    walk_children_lem :
        (ns : Nodes) (out : List Text)
        → walk_children lib base ns out ≡ out ++ declarations (elements_of ns)
    walk_children_lem nil out = sym (append_nil out)
    walk_children_lem (cons n ns) out =
        walk_children_lem ns (walk lib base n out)
        ∙ ap (λ r. r ++ declarations (elements_of ns)) (walk_lem n out)
        ∙ append_assoc out (declarations (elements n)) (declarations (elements_of ns))
        ∙ ap (λ r. out ++ r) (sym (declarations-append (elements n) (elements_of ns)))

  -- declaredFeeds returns what the elements of the document declare, in document order, each element
  -- before those inside it; of a document that is not parsed it returns nothing.
  pub declared_feeds_lem :
      (parse_html : Text → Option Node) (body : Text) (doc : Node)
      → ((parse_html body ≡ some doc)
          → declared_feeds lib parse_html body base ≡ declarations (elements doc))
        × ((parse_html body ≡ none) → declared_feeds lib parse_html body base ≡ [])
  declared_feeds_lem parse_html body doc = (
    λ e. unfold declared_feeds in rw e (walk_lem doc []),
    λ e. unfold declared_feeds in rw e refl,
  )

module _ (lib : Library) (get : Text → Validators → Got) (now : Time) (d : Discoverer)
    (parse_html : Text → Option Node) (room : 0 < d.max_candidates) where
  nothing_found : Visited lib get now d [] empty_search
  nothing_found = record {
    once = tt;
    asked = tt;
    valid = tt;
    fetched = tt;
    apart = tt;
    found = λ u c m k. elim m [ ];
    capped = omega arith;
    covered = λ u m. elim m [ ];
  }

  module _ (body : Text) (base : UrlParts) where
    abbrev pub links : List Text
    links = declared_feeds lib parse_html body base

    abbrev pub probes : List Text
    probes = map (probe_url lib get now d base) d.probe_paths

    abbrev after_links : Search
    after_links = visit_all lib get now d links empty_search

    from : (u : Text) → In u (passed links []) → In u links
    from u m = elim (In-passed u links [] m) [ inl n ↦ n | inr n ↦ elim n [ ] ]

    to : (u : Text) → In u links → In u (passed links [])
    to u m = passed-In u links [] (inl m)

    search_site-Finds :
        Finds lib get now d links probes (search_site lib get now d parse_html body base)
    unfolding search_site
    search_site-Finds =
        let v = visit_all-Visited lib get now d links [] empty_search nothing_found in
        elim (Bool-cases (ltb 0 (length after_links.out))) [
          | inl e ↦ rw e (
              Visited-Finds lib get now d links probes room base after_links (passed links []) v
                from to (λ z. ground (arith, z, e)))
          | inr e ↦ rw e (
              probe-Finds lib get now d links probes room base d.probe_paths after_links (
                probing lib get now d links probes room base after_links (passed links []) v from to
                  (no_rows after_links.out e) d.probe_paths refl))
        ]
      where
        no_rows : (cs : List Candidate) → ltb 0 (length cs) ≡ false → cs ≡ []
        no_rows [] h = refl
        no_rows (c ∷ cs) h = ground (arith, h)

  -- What Discover returns without an error: the page itself is a feed, or it is no feed and the
  -- search of its links and paths is as `Finds` says.
  abbrev pub Discovered : FetchResult → Search → Type 0
  Discovered res st =
      ((c : Candidate) × (validate lib get now res.final_url res.body ≡ some c)
        × (st ≡ record { out = c ∷ []; seen = [] }))
      ⊎ ((validate lib get now res.final_url res.body ≡ none)
          × ((base : UrlParts) × (lib.parse_url res.final_url ≡ some base)
              × Finds lib get now d (links res.body base) (probes res.body base) st))

  searched :
      (res : FetchResult) (st : Search) (b : Option UrlParts)
      → search_url lib get now d parse_html res b ≡ inr st
      → (base : UrlParts) × (b ≡ some base)
        × Finds lib get now d (links res.body base) (probes res.body base) st
  searched res st none h = ground (arith, h)
  searched res st (some base) h =
      let same : search_site lib get now d parse_html res.body base ≡ st = ground (arith, h) in
      (
        base,
        refl,
        subst (Finds lib get now d (links res.body base) (probes res.body base)) same
            (search_site-Finds res.body base),
      )

  paged :
      (res : FetchResult) (st : Search) (r : Option Candidate)
      → validate lib get now res.final_url res.body ≡ r
      → search_page lib get now d parse_html res r ≡ inr st
      → Discovered res st
  paged res st none e h = inr (e, searched res st (lib.parse_url res.final_url) h)
  paged res st (some c) e h = inl (c, e, ground (arith, h))

  answered :
      (raw_url : Text) (st : Search) (g : Got)
      → get raw_url no_validators ≡ g
      → search_got lib get now d parse_html raw_url g ≡ inr st
      → (res : FetchResult) × (get raw_url no_validators ≡ got res)
        × (200 ≤ res.status)
        × (res.status ≤ 299)
        × Discovered res st
  answered raw_url st (refused x) e h = ground (arith, h)
  answered raw_url st (got res) e h = elim (Bool-cases (ltb res.status 200 || ltb 299 res.status)) [
    | inl t ↦ ground (arith, h, t)
    | inr t ↦
        let rest : search_page lib get now d parse_html res
              (validate lib get now res.final_url res.body)
            ≡ inr st =
          ground (arith, h, t) in
        (
          res,
          e,
          ground (arith, t),
          ground (arith, t),
          paged res st (validate lib get now res.final_url res.body) refl rest,
        )
  ]

  -- Where Discover has room for a candidate and returns without an error, the page answered with a
  -- status from 200 to 299, and either the page is itself a feed and the only candidate, or its URL
  -- parses and then: no URL is fetched twice after the page, and only declared links and conventional
  -- paths are; each declared link is fetched unless the candidates are already as many as may be;
  -- the candidates are the fetched URLs that answer 200 with a feed, each once and no more than may
  -- be; one that is no declared link stands alone, and then no declared link is a feed; and where
  -- there is none, no declared link and no conventional path is a feed.
  pub discover-Discovered :
      (raw_url : Text) (st : Search)
      → discover lib get now d parse_html raw_url ≡ inr st
      → (res : FetchResult) × (get raw_url no_validators ≡ got res)
        × (200 ≤ res.status)
        × (res.status ≤ 299)
        × Discovered res st
  unfolding discover
  discover-Discovered raw_url st h = answered raw_url st (get raw_url no_validators) refl h
