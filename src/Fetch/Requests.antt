-- ===== src/Fetch/Requests.antt =====
-- The requests that one Get sends.
use fcfeeds.Prelude.{
  ℕ, zero, suc, ◌+◌, ◌≤◌, ◌<◌, ◌≡◌, refl, ap, ◌∙◌, ◌≢◌, ◌⊎◌, inl, inr, false, not, ◌&&◌, Option,
  none, some, List, [], ◌∷◌, ◌++◌, arith, ltb, leb, ◌==◌, length, length-append, if◌then◌else◌,
  take, All, All-append, Bool-cases, Option-cases,
}
use fcfeeds.Prelude.Int.{ℤ}
use fcfeeds.Text.{Text, text_eq, text_eq_iff}
use fcfeeds.Fetch.Types.{FetchResult}
use fcfeeds.Fetch.Address.{Ip}
use fcfeeds.Fetch.Guard.{Url, Refusal, Guard, https, check_url}
use fcfeeds.Fetch.Client.{
  Options, Response, Reply, answered, redirect, lost, GetError, guarded, no_response, scheme_of,
  refused_by, check_redirect, follow, read_response, finish, get_checked, get,
}

module _ (parse_ip : Text → Option Ip) (to_lower : Text → Text) (g : Guard)
    (parse_url : Text → Option Url) (print_url : Url → Text) (send : Url → Reply)
    (o : Options) where
  -- MaxRedirects and MaxBody, or 5 and 5 MiB where they are 0.
  abbrev pub limit : ℕ
  limit = if o.max_redirects == 0 then 5 else o.max_redirects

  abbrev pub body_limit : ℕ
  body_limit = if o.max_body == 0 then 5_242_880 else o.max_body

  limit_positive : 1 ≤ limit
  limit_positive = elim (Bool-cases (o.max_redirects == 0)) [
    | inl e ↦ rw e (omega arith)
    | inr e ↦ rw e (ground (arith, e))
  ]

  -- A URL that a redirect led to has passed the guard.
  abbrev pub Passed : Url → Type 0
  Passed u = (v : Url) × (check_url parse_ip to_lower g parse_url (print_url u) ≡ inr v)

  -- Requests that began with an https URL stay with https.
  abbrev pub Secure : Url → Url → Type 0
  Secure first u = (first.scheme ≢ https) ⊎ (u.scheme ≡ https)

  abbrev pub Request : Url → Url → Type 0
  Request first u = ((u ≡ first) ⊎ Passed u) × Secure first u

  -- The first request goes to `first`; `u` is the next one.
  abbrev Starts : Url → List Url → Url → Type 0
  Starts first [] u = u ≡ first
  Starts first (v ∷ via) u = v ≡ first

  -- What is known before a request is sent to `u`.
  abbrev Ready : Url → ℕ → List Url → Url → Type 0
  Ready first fuel via u =
      ((length via + fuel ≡ limit + 1) × (length via < limit))
      × All (Request first) via
      × Request first u
      × Starts first via u

  redirect_lem :
      (via : List Url) (u : Url)
      → check_redirect parse_ip to_lower g parse_url print_url send o via u ≡ none
      → (length via < limit)
        × Passed u
        × ((text_eq (scheme_of via []) https && not (text_eq u.scheme https)) ≡ false)
  unfolding check_redirect
  redirect_lem via u h = elim (Bool-cases (leb limit (length via))) [
    | inl e ↦ absurd (ground arith)
    | inr e ↦ elim (Bool-cases (text_eq (scheme_of via []) https && not (text_eq u.scheme https))) [
      | inl d ↦ absurd (ground arith)
      | inr d ↦ (
        ground arith,
        passed (check_url parse_ip to_lower g parse_url (print_url u)) refl (ground arith),
        d,
      )
    ]
  ]
    where
      passed :
          (r : Refusal ⊎ Url)
          → check_url parse_ip to_lower g parse_url (print_url u) ≡ r
          → refused_by parse_ip to_lower g parse_url print_url send o r ≡ none
          → Passed u
      passed (inl r) e n = absurd (cc)
      passed (inr v) e n = (v, e)

  module _ (first : Url) where
    -- The loop ends with an outcome, after at most MaxRedirects requests.
    abbrev Followed : Option (GetError ⊎ (Response × Url)) × List Url → Type 0
    Followed (r, sent) =
        ((x : GetError ⊎ (Response × Url)) × (r ≡ some x))
        × All (Request first) sent
        × (length sent ≤ limit)

    Secure-of :
        (s : Text) (u : Url)
        → s ≡ first.scheme
        → (text_eq s https && not (text_eq u.scheme https)) ≡ false
        → Secure first u
    Secure-of s u e h = elim (Bool-cases (text_eq u.scheme https)) [
      | inl t ↦ inr ((text_eq_iff u.scheme https).0 t)
      | inr t ↦ inl (λ p. ground (arith, text_eq_iff s https, e, p))
    ]

    Starts-append :
        (via : List Url) (u v : Url) → Starts first via u → Starts first (via ++ u ∷ []) v
    Starts-append [] u v e = e
    Starts-append (w ∷ via) u v e = e

    scheme-append :
        (via : List Url) (u : Url)
        → Starts first via u
        → scheme_of (via ++ u ∷ []) [] ≡ first.scheme
    scheme-append [] u e = ap (λ (x : Url). x.scheme) e
    scheme-append (v ∷ via) u e = ap (λ (x : Url). x.scheme) e

    Reply-cases :
        (r : Reply)
        → ((a : Response) × (r ≡ answered a))
          ⊎ (((msg : Text) × (r ≡ lost msg)) ⊎ ((v : Url) × (r ≡ redirect v)))
    Reply-cases (answered a) = inl (a, refl)
    Reply-cases (lost msg) = inr (inl (msg, refl))
    Reply-cases (redirect v) = inr (inr (v, refl))

    -- one request more
    sent_lem :
        (fuel : ℕ) (via : List Url) (u : Url)
        → Ready first (suc fuel) via u
        → All (Request first) (via ++ u ∷ [])
          × (length (via ++ u ∷ []) + fuel ≡ limit + 1)
          × (length (via ++ u ∷ []) ≤ limit)
    sent_lem fuel via u ((count, few), sent_ok, ok, start) = (
      All-append (Request first) via (u ∷ []) sent_ok (ok, tt),
      omega (arith, length-append via (u ∷ [])),
      omega (arith, length-append via (u ∷ [])),
    )

    follow_lem :
        (fuel : ℕ) (via : List Url) (u : Url)
        → Ready first fuel via u
        → 0 < fuel
        → Followed (follow parse_ip to_lower g parse_url print_url send o fuel via u)
    unfolding follow
    follow_lem zero via u ready h = absurd (omega arith)
    follow_lem (suc fuel) via u ready h =
        let (sent_ok, count, bound) = sent_lem fuel via u ready in
        let (_, _, _, start) = ready in
        elim (Reply-cases (send u)) [
          | inl (a, e) ↦ rw (e, follow) ((inr (a, u), refl), sent_ok, bound)
          | inr (inl (msg, e)) ↦ rw (e, follow) ((inl (no_response msg), refl), sent_ok, bound)
          | inr (inr (v, e)) ↦
              elim (Option-cases
                (check_redirect parse_ip to_lower g parse_url print_url send o (via ++ u ∷ []) v)) [
                  | inl n ↦
                      let (more, passed, scheme) = redirect_lem (via ++ u ∷ []) v n in
                      rw (e, follow)
                        (rw (n, follow)
                          (follow_lem fuel (via ++ u ∷ []) v
                            (
                              (count, omega arith),
                              sent_ok,
                              (inr passed, Secure-of _ v (scheme-append via u start) scheme),
                              Starts-append via u v start,
                            )
                            (omega arith)))
                  | inr (x, n) ↦ rw (e, follow) (rw (n, follow) ((inl x, refl), sent_ok, bound))
                ]
        ]

  module _ (retry_after : Text → ℤ) (raw : Text) where
    -- What Get may report: an error, or a result whose body is within MaxBody.
    abbrev pub Reported : GetError ⊎ FetchResult → Type 0
    Reported (inl e) = Unit
    Reported (inr res) = length res.body ≤ body_limit

    -- What was sent, by what the guard said of the URL.
    abbrev pub Requested : Refusal ⊎ Url → List Url → Type 0
    Requested (inl r) sent = sent ≡ []
    Requested (inr u) sent = All (Request u) sent × (length sent ≤ limit)

    read_response-Reported :
        (r : Response) (u : Url)
        → Reported (read_response parse_ip to_lower g parse_url print_url send o retry_after r u)
    unfolding read_response
    read_response-Reported r u = elim (Bool-cases (r.status == 304)) [
      | inl e ↦ rw e (omega arith)
      | inr e ↦ elim (Bool-cases (ltb body_limit (length (take (body_limit + 1) r.body)))) [
        | inl l ↦ rw e (rw l tt)
        | inr l ↦ rw e (rw l (ground arith))
      ]
    ]

    get_checked-Requested :
        (c : Refusal ⊎ Url)
        → let out = get_checked parse_ip to_lower g parse_url print_url send o retry_after c in
          (x : GetError ⊎ FetchResult) × (out.0 ≡ some x) × Reported x × Requested c out.1
    get_checked-Requested (inl r) = (inl (guarded r), refl, tt, refl)
    get_checked-Requested (inr u) =
        let ((y, e), ok, bound) =
          follow_lem u (limit + 1) [] u
            ((omega arith, omega (arith, limit_positive)), tt, (inl refl, secure u), refl)
            (omega arith) in
        let (x, p, report) = finished y in
        (
          x,
          ap (finish parse_ip to_lower g parse_url print_url send o retry_after) e ∙ p,
          report,
          (ok, bound),
        )
      where
        secure : (u : Url) → Secure u u
        secure u = elim (Bool-cases (text_eq u.scheme https)) [
          | inl t ↦ inr ((text_eq_iff u.scheme https).0 t)
          | inr t ↦ inl (λ p. ground (arith, text_eq_iff u.scheme https, p))
        ]

        finished :
            (y : GetError ⊎ (Response × Url))
            → (x : GetError ⊎ FetchResult) × (finish parse_ip to_lower g parse_url print_url send o
                  retry_after
                  (some y)
                ≡ some x)
              × Reported x
        finished (inl e) = (inl e, refl, tt)
        finished (inr (r, u)) = (
          read_response parse_ip to_lower g parse_url print_url send o retry_after r u,
          refl,
          read_response-Reported r u,
        )

    -- Get ends with a report. If the guard refuses the URL, no request is sent. Otherwise every
    -- request is for the URL that the guard returned or for one that has passed the guard; at most
    -- MaxRedirects are sent, or 5 if that is 0; and if the first URL is https, all are. A body that
    -- is returned is not longer than MaxBody, or 5 MiB if that is 0.
    pub get_requests :
        (x : GetError ⊎ FetchResult) × ((get parse_ip to_lower g parse_url print_url send o
            retry_after raw).0
          ≡ some x)
        × Reported x
        × Requested
            (check_url parse_ip to_lower g parse_url raw)
            (get parse_ip to_lower g parse_url print_url send o retry_after raw).1
    unfolding get
    get_requests = get_checked-Requested (check_url parse_ip to_lower g parse_url raw)
