-- ===== src/Api/Items.antt =====
-- What getItems answers, whatever the parameters of the request say.
use fcfeeds.Prelude.{
  ℕ, true, false, In, ◌<◌, ◌≤◌, ◌≡◌, refl, sym, subst, ◌⊎◌, inl, inr, Option, none, some, List, [],
  ◌∷◌, ◌++◌, arith, ltb, length, All, Bool-cases, Option-cases,
}
use fcfeeds.Prelude.Int.{ℤ, lt_int, pos, negsuc, clamp_int}
use fcfeeds.Text.{Text, codes, is_empty}
use fcfeeds.Time.{Time}
use fcfeeds.Store.Conn.{Result, ok, err, Error, Conn, Exec, pure, ◌>>=◌, attempt}
use fcfeeds.Metrics.Registry.{itoa}
use fcfeeds.Api.Query.{split_feeds, clamp, Timeline, get_items}
use fcfeeds.Api.Answers.{Shows, get_items-Shows}
use fcfeeds.Api.Response.{fail}
use fcfeeds.Api.Handlers.{Options, Answer, Client, Writer, items_reply}
use fcfeeds.Api.Requests.{
  first_refusal, read_since, read_limit, with_limit, with_since, with_urls, serve_items,
}

-- The limit of the request, kept within the bounds of the service.
clamped :
    (n : ℤ) (high : ℕ)
    → 1 ≤ high
    → (1 ≤ clamp_int (clamp n (pos 1) (pos high))) × (clamp_int (clamp n (pos 1) (pos high)) ≤ high)
clamped (pos n) high h = ground arith
clamped (negsuc n) high h = ground arith

first_refusal-cases :
    (check : Text → Option Text) (us : List Text) (r : Option Text)
    → first_refusal check us ≡ r
    → ((r ≡ none) × All (λ u. check u ≡ none) us)
      ⊎ ((u : Text) × (msg : Text) × (r ≡ some msg) × In u us × (check u ≡ some msg))
unfolding first_refusal
first_refusal-cases check [] r h = inl (sym h, tt)
first_refusal-cases check (u ∷ us) r h = elim (Option-cases (check u)) [
  | inl e ↦
      let m : first_refusal check us ≡ r = ground (arith, h, e) in
      elim (first_refusal-cases check us r m) [
        | inl (n, all) ↦ inl (n, (e, all))
        | inr (v, msg, n, mem, k) ↦ inr (v, msg, n, inr mem, k)
      ]
  | inr (msg, e) ↦ inr (u, msg, ground (arith, h, e), inl refl, e)
]

module _ (parse_rfc3339 : Text → Option Time) (atoi : Text → Option ℤ) (o : Options)
    (least : 1 ≤ o.default_limit) (most : o.default_limit ≤ o.max_limit) where
  -- The limit that a number asks for: itself, or the bound that it is beyond.
  abbrev pub Clamped : ℤ → ℕ → Type 0
  Clamped k n =
      (k ≡ pos n)
      ⊎ (((n ≡ 1) × (lt_int k (pos 1) ≡ true))
          ⊎ ((n ≡ o.max_limit) × (lt_int (pos o.max_limit) k ≡ true)))

  -- What the parameters ask for.
  abbrev pub AsksLimit : Text → ℕ → Type 0
  AsksLimit v n =
      ((is_empty v ≡ true) × (n ≡ o.default_limit))
      ⊎ ((k : ℤ) × (is_empty v ≡ false) × (atoi v ≡ some k) × Clamped k n)

  abbrev pub AsksSince : Text → Option Time → Type 0
  AsksSince v s =
      ((is_empty v ≡ true) × (s ≡ none))
      ⊎ ((t : Time) × (is_empty v ≡ false) × (parse_rfc3339 v ≡ some t) × (s ≡ some t))

  clamp-Clamped : (k : ℤ) → Clamped k (clamp_int (clamp k (pos 1) (pos o.max_limit)))
  clamp-Clamped (pos n) = ground arith
  clamp-Clamped (negsuc n) = ground arith

  read_limit-AsksLimit :
      (v : Text) (r : Text ⊎ ℕ)
      → read_limit parse_rfc3339 atoi o v ≡ r
      → ((msg : Text) × (r ≡ inl msg) × (is_empty v ≡ false) × (atoi v ≡ none))
        ⊎ ((n : ℕ) × (r ≡ inr n) × AsksLimit v n × (1 ≤ n) × (n ≤ o.max_limit))
  unfolding read_limit
  read_limit-AsksLimit v r h = elim (Bool-cases (is_empty v)) [
    | inl e ↦ inr (o.default_limit, ground (arith, h, e), inl (e, refl), least, most)
    | inr e ↦ elim (Option-cases (atoi v)) [
      | inl q ↦ inl (codes "limit must be an integer", ground (arith, h, e, q), e, q)
      | inr (k, q) ↦
          let (low, high) = clamped k o.max_limit (omega (arith, least, most)) in
          inr (
            clamp_int (clamp k (pos 1) (pos o.max_limit)),
            ground (arith, h, e, q),
            inr (k, e, q, clamp-Clamped k),
            low,
            high,
          )
    ]
  ]

  read_since-AsksSince :
      (v : Text) (r : Text ⊎ Option Time)
      → read_since parse_rfc3339 atoi o v ≡ r
      → ((msg : Text) × (r ≡ inl msg) × (is_empty v ≡ false) × (parse_rfc3339 v ≡ none))
        ⊎ ((s : Option Time) × (r ≡ inr s) × AsksSince v s)
  unfolding read_since
  read_since-AsksSince v r h = elim (Bool-cases (is_empty v)) [
    | inl e ↦ inr (none, ground (arith, h, e), inl (e, refl))
    | inr e ↦ elim (Option-cases (parse_rfc3339 v)) [
      | inl q ↦ inl (codes "since must be RFC 3339", ground (arith, h, e, q), e, q)
      | inr (t, q) ↦ inr (some t, ground (arith, h, e, q), inr (t, e, q, refl))
    ]
  ]

  module _ (w : Writer) (trim to_lower : Text → Text) (check : Text → Option Text) (c : Client)
      (now : Time) (conn : Conn) (feeds since limit : Text) where
    -- An answer, and the connection after it.
    abbrev pub Ran : Type 0
    Ran = Result Answer × Conn

    abbrev urls : List Text
    urls = split_feeds trim feeds

    -- What is wrong with a request: no feed or too many, one that the guard refuses, a time or a
    -- number that is not read.
    abbrev pub Wrong : Type 0
    Wrong =
        (urls ≡ [])
        ⊎ ((o.max_feeds_per_call < length urls)
            ⊎ (((u : Text) × (msg : Text) × In u urls × (check u ≡ some msg))
                ⊎ (((is_empty since ≡ false) × (parse_rfc3339 since ≡ none))
                    ⊎ ((is_empty limit ≡ false) × (atoi limit ≡ none)))))

    -- A request that is wrong is answered with 400, and nothing changes.
    abbrev pub Rejected : Ran → Type 0
    Rejected r = (a : Answer) × (r ≡ (ok a, conn)) × (a.0.status ≡ 400) × Wrong

    -- A request that is read as what it asks for, and answered by getItems.
    abbrev pub Read : Ran → Type 0
    Read r =
        (s : Option Time) × (n : ℕ) × AsksSince since s
        × AsksLimit limit n
        × (1 ≤ length urls)
        × (length urls ≤ o.max_feeds_per_call)
        × All (λ u. check u ≡ none) urls
        × (1 ≤ n)
        × (n ≤ o.max_limit)
        × (r ≡ (
          ok (items_reply w o c now (get_items to_lower urls s n now conn).0),
          (get_items to_lower urls s n now conn).1,
        ))
        × (((t : Timeline) × ((get_items to_lower urls s n now conn).0 ≡ ok t)
              × Shows to_lower urls s n t (get_items to_lower urls s n now conn).1.db)
            ⊎ ((e : Error) × ((get_items to_lower urls s n now conn).0 ≡ err e)))

    rejected : (msg : Text) → Wrong → Rejected (pure {A = Answer} (fail [] 400 msg, []) conn)
    unfolding pure
    rejected msg bad = ((fail [] 400 msg, []), refl, refl, bad)

    shown :
        (s : Option Time) (n : ℕ) (r : Result Timeline)
        → (get_items to_lower urls s n now conn).0 ≡ r
        → ((t : Timeline) × ((get_items to_lower urls s n now conn).0 ≡ ok t)
            × Shows to_lower urls s n t (get_items to_lower urls s n now conn).1.db)
          ⊎ ((e : Error) × ((get_items to_lower urls s n now conn).0 ≡ err e))
    shown s n (ok t) h = inl (t, h, get_items-Shows to_lower urls s n now conn t h)
    shown s n (err e) h = inr (e, h)

    module _ (some_feed : 1 ≤ length urls) (few : length urls ≤ o.max_feeds_per_call) where
      limited :
          All (λ u. check u ≡ none) urls
          → (s : Option Time) → AsksSince since s
          → (r : Text ⊎ ℕ) → read_limit parse_rfc3339 atoi o limit ≡ r
          → Rejected (with_limit parse_rfc3339 atoi o w trim to_lower check c now urls s r conn)
            ⊎ Read (with_limit parse_rfc3339 atoi o w trim to_lower check c now urls s r conn)
      unfolding ◌>>=◌ attempt pure
      limited all s asks (inl msg) h = elim (read_limit-AsksLimit limit (inl msg) h) [
        | inl (m, _, e, q) ↦ inl (rejected msg (inr (inr (inr (inr (e, q))))))
        | inr (n, p, _, _, _) ↦ absurd (cc (p))
      ]
      limited all s asks (inr n) h = elim (read_limit-AsksLimit limit (inr n) h) [
        | inl (m, p, _, _) ↦ absurd (cc (p))
        | inr (k, p, asked, low, high) ↦
            let same : k ≡ n = cc (p) in
            inr (
              s,
              n,
              asks,
              subst (AsksLimit limit) same asked,
              some_feed,
              few,
              all,
              subst (λ x. 1 ≤ x) same low,
              subst (λ x. x ≤ o.max_limit) same high,
              refl,
              shown s n (get_items to_lower urls s n now conn).0 refl,
            )
      ]

      dated :
          All (λ u. check u ≡ none) urls
          → (r : Text ⊎ Option Time) → read_since parse_rfc3339 atoi o since ≡ r
          → Rejected (with_since parse_rfc3339 atoi o w trim to_lower check c now urls limit r conn)
            ⊎ Read (with_since parse_rfc3339 atoi o w trim to_lower check c now urls limit r conn)
      dated all (inl msg) h = elim (read_since-AsksSince since (inl msg) h) [
        | inl (m, _, e, q) ↦ inl (rejected msg (inr (inr (inr (inl (e, q))))))
        | inr (s, p, _) ↦ absurd (cc (p))
      ]
      dated all (inr s) h = elim (read_since-AsksSince since (inr s) h) [
        | inl (m, p, _, _) ↦ absurd (cc (p))
        | inr (s', p, asks) ↦
            let same : s' ≡ s = cc (p) in
            limited all s (subst (AsksSince since) same asks)
              (read_limit parse_rfc3339 atoi o limit) refl
      ]

      guarded :
          (r : Option Text)
          → first_refusal check urls ≡ r
          → Rejected
              (with_urls parse_rfc3339 atoi o w trim to_lower check c now urls since limit r conn)
            ⊎ Read
                (with_urls parse_rfc3339 atoi o w trim to_lower check c now urls since limit r conn)
      guarded (some msg) h = elim (first_refusal-cases check urls (some msg) h) [
        | inl (p, _) ↦ absurd (cc (p))
        | inr (u, m, _, mem, k) ↦ inl (rejected msg (inr (inr (inl (u, m, mem, k)))))
      ]
      guarded none h = elim (first_refusal-cases check urls none h) [
        | inl (_, all) ↦ dated all (read_since parse_rfc3339 atoi o since) refl
        | inr (u, m, p, _, _) ↦ absurd (cc (p))
      ]

    -- Where the default limit is from 1 to MaxLimit, getItems always gives an answer. It is 400, with
    -- the connection as it was, only where there is no feed or too many, or one that the guard
    -- refuses, or a time or a limit that is given and not read. Otherwise the request is read as it
    -- says: from the time that is given, with the limit that is given, kept from 1 to MaxLimit, or
    -- the default one; and the answer is made of the error of the store, or of the timeline, which
    -- shows the tables as getItems is specified to.
    pub serve_items_answers :
        Rejected
          (serve_items parse_rfc3339 atoi o w trim to_lower check c now feeds since limit conn)
        ⊎ Read (serve_items parse_rfc3339 atoi o w trim to_lower check c now feeds since limit conn)
    serve_items_answers =
        let P = λ (m : Exec Answer). Rejected (m conn) ⊎ Read (m conn) in
        let whole =
          serve_items parse_rfc3339 atoi o w trim to_lower check c now feeds since limit in
        elim (Bool-cases (ltb 0 (length urls))) [
          | inr e ↦
              let msg = codes "feeds is required (comma-separated feed urls)" in
              let same : whole ≡ pure (fail [] 400 msg, []) = unfold serve_items in rw e refl in
              subst P (sym same) (inl (rejected msg (inl (no_urls urls e))))
          | inl e ↦ elim (Bool-cases (ltb o.max_feeds_per_call (length urls))) [
            | inl q ↦
                let msg =
                  codes "at most " ++ itoa o.max_feeds_per_call ++ codes " feeds per call" in
                let same : whole ≡ pure (fail [] 400 msg, []) =
                  unfold serve_items in rw (e, q) refl in
                subst P (sym same) (inl (rejected msg (inr (inl (ground (arith, q))))))
            | inr q ↦
                let same : whole
                    ≡ with_urls parse_rfc3339 atoi o w trim to_lower check c now urls since limit
                        (first_refusal check urls) =
                  unfold serve_items in rw (e, q) refl in
                subst P (sym same)
                  (guarded (ground (arith, e)) (ground (arith, q)) (first_refusal check urls) refl)
          ]
        ]
      where
        no_urls : (us : List Text) → ltb 0 (length us) ≡ false → us ≡ []
        no_urls [] h = refl
        no_urls (u ∷ us) h = absurd (ground (arith, h))
