-- ===== src/Discover/Sites.antt =====
-- What Discover returns for a site.
use fcfeeds.Prelude.{
  ◌≤◌, ◌<◌, ◌≡◌, sym, subst, ap, ◌≢◌, ◌⊎◌, inl, inr, true, false, none, some, List, [], ◌∷◌, ◌++◌,
  arith, length, In, In-append_left, In-append_right, In-append_one, All, All-append, All-mono,
  All-of_In, All-In, Bool-cases, Option-cases, map,
}
use fcfeeds.Prelude.Sort.{Pairwise}
use fcfeeds.Text.{Text, has_text, has_text-In}
use fcfeeds.Time.{Time}
use fcfeeds.Fetch.Types.{Validators, Got}
use fcfeeds.Parse.Library.{Library, UrlParts}
use fcfeeds.Discover.Search.{
  Candidate, Discoverer, Search, add_candidate, fetch_and_validate, probe_url, probed, probe,
}
use fcfeeds.Discover.Found.{Visited, fetch_and_validate_url, once_more}

module _ (lib : Library) (get : Text → Validators → Got) (now : Time) (d : Discoverer) where
  -- The links that a page declares and the conventional paths, against what was fetched and found.
  pub record Finds (links probes : List Text) (st : Search) : Type 0 where
    pub once : Pairwise (λ a b. a ≢ b) st.seen
    pub asked : All (λ u. In u links ⊎ In u probes) st.seen
    pub valid : All (λ c. fetch_and_validate lib get now c.url ≡ some c) st.out
    pub apart : Pairwise (λ (a b : Candidate). a.url ≢ b.url) st.out
    pub capped : length st.out ≤ d.max_candidates
    pub covered : (u : Text) → In u links → In u st.seen ⊎ (d.max_candidates ≤ length st.out)
    pub found :
        (u : Text) (c : Candidate)
        → In u st.seen
        → fetch_and_validate lib get now u ≡ some c
        → In c st.out
    pub declared_first :
        (c : Candidate)
        → In c st.out
        → In c.url links
          ⊎ ((st.out ≡ c ∷ [])
              × ((u : Text) → In u links → fetch_and_validate lib get now u ≡ none))
    pub exhausted :
        st.out ≡ []
        → (u : Text) → In u links ⊎ In u probes
        → fetch_and_validate lib get now u ≡ none

  module _ (links probes : List Text) (room : 0 < d.max_candidates) (base : UrlParts) where
    -- Before the paths `ps` are probed, without a candidate so far.
    pub record Probing (ps : List Text) (st : Search) : Type 0 where
      pub empty : st.out ≡ []
      pub once : Pairwise (λ a b. a ≢ b) st.seen
      pub asked : All (λ u. In u links ⊎ In u probes) st.seen
      pub fails : (u : Text) → In u st.seen → fetch_and_validate lib get now u ≡ none
      pub linked : (u : Text) → In u links → In u st.seen
      pub tried :
          (u : Text) → In u probes → In u st.seen ⊎ In u (map (probe_url lib get now d base) ps)
      pub among : All (λ p. In (probe_url lib get now d base p) probes) ps

    probed_none : (st : Search) → Probing [] st → Finds links probes st
    probed_none st v = record {
      once = v.once;
      asked = v.asked;
      valid =
          subst (All (λ (c : Candidate). fetch_and_validate lib get now c.url ≡ some c))
            (sym v.empty) tt;
      apart = subst (Pairwise (λ (a b : Candidate). a.url ≢ b.url)) (sym v.empty) tt;
      capped = rw v.empty (omega arith);
      covered = λ u m. inl (v.linked u m);
      found = λ u c m k. ground (arith, v.fails u m, k);
      declared_first = λ c m. elim (subst (In c) v.empty m) [ ];
      exhausted = λ e u. λ m. fails u m;
    }
      where
        fails : (u : Text) → In u links ⊎ In u probes → fetch_and_validate lib get now u ≡ none
        fails u (inl m) = v.fails u (v.linked u m)
        fails u (inr m) = elim (v.tried u m) [ inl n ↦ v.fails u n | inr n ↦ elim n [ ] ]

    module _ (p : Text) (ps : List Text) (st : Search) (v : Probing (p ∷ ps) st) where
      abbrev here : Text
      here = probe_url lib get now d base p

      Probing-seen : has_text st.seen here ≡ true → Probing ps st
      Probing-seen e = record {
        empty = v.empty;
        once = v.once;
        asked = v.asked;
        fails = v.fails;
        linked = v.linked;
        tried = tried;
        among = v.among.1;
      }
        where
          tried :
              (u : Text) → In u probes → In u st.seen ⊎ In u (map (probe_url lib get now d base) ps)
          tried u m = elim (v.tried u m) [
            | inl n ↦ inl n
            | inr (inl q) ↦ inl (subst (λ x. In x st.seen) (sym q) (has_text-In st.seen here e))
            | inr (inr n) ↦ inr n
          ]

      module _ (fresh : has_text st.seen here ≡ false) where
        asked_here : All (λ u. In u links ⊎ In u probes) (st.seen ++ here ∷ [])
        asked_here =
            All-append (λ u. In u links ⊎ In u probes) st.seen (here ∷ []) v.asked
              (inr v.among.0, tt)

        linked_here : (u : Text) → In u links → In u (st.seen ++ here ∷ [])
        linked_here u m = In-append_left u st.seen (here ∷ []) (v.linked u m)

        Probing-miss :
            fetch_and_validate lib get now here ≡ none → Probing ps (add_candidate st here none)
        Probing-miss e = record {
          empty = v.empty;
          once = once_more st.seen here fresh v.once;
          asked = asked_here;
          fails = fails;
          linked = linked_here;
          tried = tried;
          among = v.among.1;
        }
          where
            fails :
                (u : Text) → In u (st.seen ++ here ∷ []) → fetch_and_validate lib get now u ≡ none
            fails u m = elim (In-append_one u st.seen here m) [
              | inl n ↦ v.fails u n
              | inr q ↦ subst (λ x. fetch_and_validate lib get now x ≡ none) (sym q) e
            ]

            tried :
                (u : Text)
                → In u probes
                → In u (st.seen ++ here ∷ []) ⊎ In u (map (probe_url lib get now d base) ps)
            tried u m = elim (v.tried u m) [
              | inl n ↦ inl (In-append_left u st.seen (here ∷ []) n)
              | inr (inl q) ↦ inl (In-append_right u st.seen (here ∷ []) (inl q))
              | inr (inr n) ↦ inr n
            ]

        probed_hit :
            (c : Candidate)
            → fetch_and_validate lib get now here ≡ some c
            → Finds links probes (record { out = c ∷ []; seen = st.seen ++ here ∷ [] })
        probed_hit c e = record {
          once = once_more st.seen here fresh v.once;
          asked = asked_here;
          valid = (
            subst (λ x. fetch_and_validate lib get now x ≡ some c)
                (sym (fetch_and_validate_url lib get now here c e)) e,
            tt,
          );
          apart = (tt, tt);
          capped = room;
          covered = λ u m. inl (linked_here u m);
          found = found;
          declared_first = declared_first;
          exhausted = λ z. ground (arith, z);
        }
          where
            found :
                (u : Text) (k : Candidate)
                → In u (st.seen ++ here ∷ [])
                → fetch_and_validate lib get now u ≡ some k
                → In k (c ∷ [])
            found u k m q = elim (In-append_one u st.seen here m) [
              | inl n ↦ ground (arith, v.fails u n, q)
              | inr w ↦
                  let same : fetch_and_validate lib get now here ≡ some k =
                    subst (λ x. fetch_and_validate lib get now x ≡ some k) w q in
                  inl (ground (arith, same, e))
            ]

            declared_first :
                (k : Candidate)
                → In k (c ∷ [])
                → In k.url links
                  ⊎ ((c ∷ [] ≡ k ∷ [])
                      × ((u : Text) → In u links → fetch_and_validate lib get now u ≡ none))
            declared_first k (inl q) =
                inr (ap (λ x. x ∷ []) (sym q), λ u m. v.fails u (v.linked u m))
            declared_first k (inr m) = elim m [ ]

    pub probe-Finds :
        (ps : List Text) (st : Search)
        → Probing ps st
        → Finds links probes (probe lib get now d base ps st)
    unfolding probe
    probe-Finds [] st v = probed_none st v
    probe-Finds (p ∷ ps) st v =
        let u = probe_url lib get now d base p in
        let r = fetch_and_validate lib get now u in
        let rest = probe lib get now d base ps in
        elim (Bool-cases (has_text st.seen u)) [
          | inl e ↦
              subst (λ b. Finds links probes (probed b r u rest st)) (sym e)
                (probe-Finds ps st (Probing-seen p ps st v e))
          | inr e ↦
              subst (λ b. Finds links probes (probed b r u rest st)) (sym e)
                (elim (Option-cases r) [
                  | inl q ↦
                      subst (λ x. Finds links probes (probed false x u rest st)) (sym q)
                        (probe-Finds ps (add_candidate st u none) (Probing-miss p ps st v e q))
                  | inr (c, q) ↦
                      let out =
                        ap (λ o. record { out = o ++ c ∷ []; seen = st.seen ++ u ∷ [] }) v.empty in
                      subst (λ x. Finds links probes (probed false x u rest st)) (sym q)
                        (subst (Finds links probes) (sym out) (probed_hit p ps st v e c q))
                ])
        ]

    -- The conventional paths start from what the links left.
    pub probing :
        (st : Search) (done : List Text)
        → Visited lib get now d done st
        → ((u : Text) → In u done → In u links)
        → ((u : Text) → In u links → In u done)
        → st.out ≡ []
        → (ps : List Text) → probes ≡ map (probe_url lib get now d base) ps
        → Probing ps st
    probing st done v from to none_out ps all = record {
      empty = none_out;
      once = v.once;
      asked =
          All-mono (λ u. In u done) (λ u. In u links ⊎ In u probes) st.seen (λ a m. inl (from a m))
            v.asked;
      fails = fails;
      linked = linked;
      tried = λ u m. inr (subst (In u) all m);
      among = subst (λ qs. All (λ p. In (probe_url lib get now d base p) qs) ps) (sym all) (own ps);
    }
      where
        fails : (u : Text) → In u st.seen → fetch_and_validate lib get now u ≡ none
        fails u m = elim (Option-cases (fetch_and_validate lib get now u)) [
          | inl e ↦ e
          | inr (c, e) ↦ elim (subst (In c) none_out (v.found u c m e)) [ ]
        ]

        linked : (u : Text) → In u links → In u st.seen
        linked u m = elim (v.covered u (to u m)) [
          | inl n ↦ n
          | inr full ↦ ground (arith, full, none_out, room)
        ]

        mapped :
            (qs : List Text) (a : Text)
            → In a qs
            → In (probe_url lib get now d base a) (map (probe_url lib get now d base) qs)
        mapped (q ∷ qs) a (inl e) = inl (ap (probe_url lib get now d base) e)
        mapped (q ∷ qs) a (inr m) = inr (mapped qs a m)
        mapped [] a m = elim m [ ]

        own :
            (qs : List Text)
            → All
                (λ p. In (probe_url lib get now d base p) (map (probe_url lib get now d base) qs))
                qs
        own qs =
            All-of_In
              (λ p. In (probe_url lib get now d base p) (map (probe_url lib get now d base) qs)) qs
              (mapped qs)

    pub Visited-Finds :
        (st : Search) (done : List Text)
        → Visited lib get now d done st
        → ((u : Text) → In u done → In u links)
        → ((u : Text) → In u links → In u done)
        → st.out ≢ []
        → Finds links probes st
    Visited-Finds st done v from to some_out = record {
      once = v.once;
      asked =
          All-mono (λ u. In u done) (λ u. In u links ⊎ In u probes) st.seen (λ a m. inl (from a m))
            v.asked;
      valid = v.valid;
      apart = v.apart;
      capped = v.capped;
      covered = λ u m. v.covered u (to u m);
      found = v.found;
      declared_first = λ c m. inl (
          from c.url (
            All-In (λ u. In u done) st.seen c.url v.asked
              (All-In (λ (k : Candidate). In k.url st.seen) st.out c v.fetched m)));
      exhausted = λ e. elim (some_out e) [ ];
    }
