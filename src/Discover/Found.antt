-- ===== src/Discover/Found.antt =====
-- What the two loops of Discover have fetched and found.
use fcfeeds.Prelude.{
  ◌≤◌, ◌<◌, ◌≡◌, refl, sym, subst, ◌∙◌, ◌≢◌, ◌⊎◌, inl, inr, true, false, ◌||◌, none, some, List, [],
  ◌∷◌, ◌++◌, arith, ◌==◌, leb, length, length-append, In, In-append_left, In-append_right,
  In-append_one, All, All-append, All-mono, All-of_In, All-In, Bool-cases, Option-cases,
}
use fcfeeds.Prelude.Sort.{Pairwise, Pairwise-append_one}
use fcfeeds.Text.{Text, has_text, has_text-In, In-has_text}
use fcfeeds.Time.{Time}
use fcfeeds.Fetch.Types.{Validators, Got, got, refused}
use fcfeeds.Parse.Types.{ParsedFeed}
use fcfeeds.Parse.Library.{Library}
use fcfeeds.Parse.Detect.{parse}
use fcfeeds.Discover.Search.{
  Candidate, Discoverer, Search, no_validators, candidate_of, add_candidate, validate, validate_got,
  fetch_and_validate, visit, visit_all,
}

candidate_of_url :
    (u : Text) (r : Text ⊎ ParsedFeed) (c : Candidate) → candidate_of u r ≡ some c → c.url ≡ u
candidate_of_url u (inl e) c h = ground (arith, h)
candidate_of_url u (inr f) c h = ground (arith, h)

-- A URL that was not seen stands apart from those that were.
pub unseen :
    (seen : List Text) (h : Text) → has_text seen h ≡ false → (a : Text) → In a seen → a ≢ h
unseen seen h fresh a m p =
    let t : has_text seen h ≡ true = In-has_text seen h (subst (λ x. In x seen) p m) in
    ground (arith, t, fresh)

pub once_more :
    (seen : List Text) (h : Text)
    → has_text seen h ≡ false
    → Pairwise (λ a b. a ≢ b) seen
    → Pairwise (λ a b. a ≢ b) (seen ++ h ∷ [])
once_more seen h fresh once =
    Pairwise-append_one (λ a b. a ≢ b) seen h once
      (All-of_In (λ a. a ≢ h) seen (unseen seen h fresh))

abbrev pub passed : List Text → List Text → List Text
passed [] done = done
passed (h ∷ hs) done = passed hs (h ∷ done)

module _ (lib : Library) (get : Text → Validators → Got) (now : Time) where
  pub fetch_and_validate_url :
      (u : Text) (c : Candidate) → fetch_and_validate lib get now u ≡ some c → c.url ≡ u
  unfolding fetch_and_validate validate
  fetch_and_validate_url u c h = validated (get u no_validators) h
    where
      validated : (g : Got) → validate_got lib get now u g ≡ some c → c.url ≡ u
      validated (refused e) k = ground (arith, k)
      validated (got res) k = elim (Bool-cases (res.status == 200)) [
        | inl e ↦
            let made : candidate_of u (parse lib res.body u now) ≡ some c = ground (arith, k, e) in
            candidate_of_url u (parse lib res.body u now) c made
        | inr e ↦ ground (arith, k, e)
      ]

  module _ (d : Discoverer) where
    -- After the links `done` were visited.
    pub record Visited (done : List Text) (st : Search) : Type 0 where
      pub once : Pairwise (λ a b. a ≢ b) st.seen
      pub asked : All (λ u. In u done) st.seen
      pub valid : All (λ c. fetch_and_validate lib get now c.url ≡ some c) st.out
      pub fetched : All (λ c. In c.url st.seen) st.out
      pub apart : Pairwise (λ (a b : Candidate). a.url ≢ b.url) st.out
      pub found :
          (u : Text) (c : Candidate)
          → In u st.seen
          → fetch_and_validate lib get now u ≡ some c
          → In c st.out
      pub capped : length st.out ≤ d.max_candidates
      pub covered : (u : Text) → In u done → In u st.seen ⊎ (d.max_candidates ≤ length st.out)

    module _ (done : List Text) (st : Search) (h : Text) (v : Visited done st) where
      Visited-skip :
          (has_text st.seen h || leb d.max_candidates (length st.out)) ≡ true
          → Visited (h ∷ done) st
      Visited-skip e = record {
        once = v.once;
        asked = All-mono (λ u. In u done) (λ u. In u (h ∷ done)) st.seen (λ a m. inr m) v.asked;
        valid = v.valid;
        fetched = v.fetched;
        apart = v.apart;
        found = v.found;
        capped = v.capped;
        covered = covered;
      }
        where
          covered : (u : Text) → In u (h ∷ done) → In u st.seen ⊎ (d.max_candidates ≤ length st.out)
          covered u (inr m) = v.covered u m
          covered u (inl p) = elim (Bool-cases (has_text st.seen h)) [
            | inl t ↦ inl (subst (λ x. In x st.seen) (sym p) (has_text-In st.seen h t))
            | inr t ↦ inr (ground (arith, e, t))
          ]

      module _ (fresh : has_text st.seen h ≡ false) where
        asked_more : All (λ u. In u (h ∷ done)) (st.seen ++ h ∷ [])
        asked_more =
            All-append (λ u. In u (h ∷ done)) st.seen (h ∷ [])
              (All-mono (λ u. In u done) (λ u. In u (h ∷ done)) st.seen (λ a m. inr m) v.asked)
              (inl refl, tt)

        fetched_more : All (λ (c : Candidate). In c.url (st.seen ++ h ∷ [])) st.out
        fetched_more =
            All-mono (λ (c : Candidate). In c.url st.seen)
              (λ (c : Candidate). In c.url (st.seen ++ h ∷ [])) st.out
              (λ c m. In-append_left c.url st.seen (h ∷ []) m) v.fetched

        Visited-miss :
            fetch_and_validate lib get now h ≡ none → Visited (h ∷ done) (add_candidate st h none)
        Visited-miss e = record {
          once = once_more st.seen h fresh v.once;
          asked = asked_more;
          valid = v.valid;
          fetched = fetched_more;
          apart = v.apart;
          found = found;
          capped = v.capped;
          covered = covered;
        }
          where
            found :
                (u : Text) (c : Candidate)
                → In u (st.seen ++ h ∷ [])
                → fetch_and_validate lib get now u ≡ some c
                → In c st.out
            found u c m k = elim (In-append_one u st.seen h m) [
              | inl n ↦ v.found u c n k
              | inr p ↦
                  let w : fetch_and_validate lib get now h ≡ some c =
                    subst (λ x. fetch_and_validate lib get now x ≡ some c) p k in
                  ground (arith, w, e)
            ]

            covered :
                (u : Text)
                → In u (h ∷ done)
                → In u (st.seen ++ h ∷ []) ⊎ (d.max_candidates ≤ length st.out)
            covered u (inl p) = inl (In-append_right u st.seen (h ∷ []) (inl p))
            covered u (inr m) = elim (v.covered u m) [
              | inl n ↦ inl (In-append_left u st.seen (h ∷ []) n)
              | inr n ↦ inr n
            ]

        Visited-hit :
            (c : Candidate)
            → fetch_and_validate lib get now h ≡ some c
            → length st.out < d.max_candidates
            → Visited (h ∷ done) (add_candidate st h (some c))
        Visited-hit c e room = record {
          once = once_more st.seen h fresh v.once;
          asked = asked_more;
          valid =
              All-append (λ k. fetch_and_validate lib get now k.url ≡ some k) st.out (c ∷ [])
                v.valid (own, tt);
          fetched =
              All-append (λ (k : Candidate). In k.url (st.seen ++ h ∷ [])) st.out (c ∷ [])
                fetched_more (In-append_right c.url st.seen (h ∷ []) (inl at_h), tt);
          apart =
              Pairwise-append_one (λ (a b : Candidate). a.url ≢ b.url) st.out c v.apart
                (All-of_In (λ (a : Candidate). a.url ≢ c.url) st.out others);
          found = found;
          capped = omega (arith, length-append st.out (c ∷ []));
          covered = covered;
        }
          where
            at_h : c.url ≡ h
            at_h = fetch_and_validate_url h c e

            own : fetch_and_validate lib get now c.url ≡ some c
            own = subst (λ x. fetch_and_validate lib get now x ≡ some c) (sym at_h) e

            others : (a : Candidate) → In a st.out → a.url ≢ c.url
            others a m p =
                unseen st.seen h fresh a.url
                  (All-In (λ (k : Candidate). In k.url st.seen) st.out a v.fetched m) (p ∙ at_h)

            found :
                (u : Text) (k : Candidate)
                → In u (st.seen ++ h ∷ [])
                → fetch_and_validate lib get now u ≡ some k
                → In k (st.out ++ c ∷ [])
            found u k m q = elim (In-append_one u st.seen h m) [
              | inl n ↦ In-append_left k st.out (c ∷ []) (v.found u k n q)
              | inr p ↦
                  let w : fetch_and_validate lib get now h ≡ some k =
                    subst (λ x. fetch_and_validate lib get now x ≡ some k) p q in
                  In-append_right k st.out (c ∷ []) (inl (ground (arith, w, e)))
            ]

            covered :
                (u : Text)
                → In u (h ∷ done)
                → In u (st.seen ++ h ∷ []) ⊎ (d.max_candidates ≤ length (st.out ++ c ∷ []))
            covered u (inl p) = inl (In-append_right u st.seen (h ∷ []) (inl p))
            covered u (inr m) = elim (v.covered u m) [
              | inl n ↦ inl (In-append_left u st.seen (h ∷ []) n)
              | inr n ↦ inr (omega (arith, length-append st.out (c ∷ [])))
            ]

      visit-Visited : Visited (h ∷ done) (visit lib get now d st h)
      visit-Visited =
          elim (Bool-cases (has_text st.seen h || leb d.max_candidates (length st.out))) [
            | inl e ↦ unfold visit in rw e (Visited-skip e)
            | inr e ↦
                let fresh : has_text st.seen h ≡ false = ground (arith, e) in
                let room : length st.out < d.max_candidates = ground (arith, e) in
                elim (Option-cases (fetch_and_validate lib get now h)) [
                  | inl q ↦ unfold visit in rw (e, q) (Visited-miss fresh q)
                  | inr (c, q) ↦ unfold visit in rw (e, q) (Visited-hit fresh c q room)
                ]
          ]

    pub visit_all-Visited :
        (hs done : List Text) (st : Search)
        → Visited done st
        → Visited (passed hs done) (visit_all lib get now d hs st)
    unfolding visit_all
    visit_all-Visited [] done st v = v
    visit_all-Visited (h ∷ hs) done st v =
        visit_all-Visited hs (h ∷ done) (visit lib get now d st h) (visit-Visited done st h v)

pub In-passed : (u : Text) (hs done : List Text) → In u (passed hs done) → In u hs ⊎ In u done
In-passed u [] done m = inr m
In-passed u (h ∷ hs) done m = ground (arith, In-passed u hs (h ∷ done) m)

pub passed-In : (u : Text) (hs done : List Text) → In u hs ⊎ In u done → In u (passed hs done)
passed-In u [] done m = ground (arith, m)
passed-In u (h ∷ hs) done m = passed-In u hs (h ∷ done) (ground (arith, m))
