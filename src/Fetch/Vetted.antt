-- ===== src/Fetch/Vetted.antt =====
-- Every connection goes to an address that the guard allows, whatever the resolver answers.
use fcfeeds.Prelude.{
  ◌≡◌, refl, sym, ap, subst, ◌∙◌, ◌≢◌, ◌⊎◌, inl, inr, Bool, true, false, not, ◌&&◌, Option, none,
  some, List, [], ◌∷◌, arith, All, Bool-cases, Option-cases, if◌then◌else◌,
}
use fcfeeds.Text.{Text, codes, text_eq, text_eq_iff, is_empty}
use fcfeeds.Fetch.Address.{Ip}
use fcfeeds.Fetch.Guard.{
  Url, Refusal, Guard, bad_port, bad_scheme, userinfo, empty_host, bad_host, http, https, port_of,
  blocked_suffixes, has_any_suffix, vet_all, vet_resolved, vet_host, passed, check_parsed,
  check_url, dial_each, dialled, dial_vetted, dial_context,
}

-- a guard of CheckURL that did not return
not_refused :
    {A B : Type 0} (b : Bool) (r : A) (x : A ⊎ B) (v : B)
    → (if b then inl r else x) ≡ inr v
    → (b ≡ false) × (x ≡ inr v)
not_refused true r x v h = absurd (cc)
not_refused false r x v h = (refl, h)

module _ (parse_ip : Text → Option Ip) (to_lower : Text → Text) (g : Guard) where
  abbrev pub AllAllowed : List Ip → Type 0
  AllAllowed = All (λ ip. g.allow_ip ip ≡ true)

  vet_all-none : (ips : List Ip) → vet_all parse_ip to_lower g ips ≡ none → AllAllowed ips
  unfolding vet_all
  vet_all-none [] h = tt
  vet_all-none (ip ∷ ips) h = (ground arith, vet_all-none ips (ground arith))

  vet_resolved-allowed :
      (o : Option (List Ip)) (ips : List Ip)
      → vet_resolved parse_ip to_lower g o ≡ inr ips
      → AllAllowed ips
  vet_resolved-allowed none ips h = absurd (cc)
  vet_resolved-allowed (some []) ips h = absurd (cc)
  vet_resolved-allowed (some (ip ∷ rest)) ips h =
      elim (Option-cases (vet_all parse_ip to_lower g (ip ∷ rest))) [
        | inl e ↦
            let same : ip ∷ rest ≡ ips = ground arith in
            subst AllAllowed same (vet_all-none (ip ∷ rest) e)
        | inr (bad, e) ↦ absurd (ground arith)
      ]

  vet_host-allowed :
      (host : Text) (ips : List Ip) → vet_host parse_ip to_lower g host ≡ inr ips → AllAllowed ips
  unfolding vet_host
  vet_host-allowed host ips h = elim (Option-cases (parse_ip host)) [
    | inl e ↦ vet_resolved-allowed (g.resolve host) ips (ground arith)
    | inr (ip, e) ↦ elim (Bool-cases (g.allow_ip ip)) [
      | inl a ↦ let same : ip ∷ [] ≡ ips = ground arith in subst AllAllowed same (a, tt)
      | inr a ↦ absurd (ground arith)
    ]
  ]

  dial_each-allowed :
      (connects : Ip → Bool) (ips : List Ip)
      → AllAllowed ips
      → AllAllowed (dial_each parse_ip to_lower g connects ips).1
  unfolding dial_each
  dial_each-allowed connects [] h = tt
  dial_each-allowed connects (ip ∷ ips) (k, ks) = elim (Bool-cases (connects ip)) [
    | inl c ↦ rw c (k, tt)
    | inr c ↦ rw c (k, dial_each-allowed connects ips ks)
  ]

  dialled_tried : (r : Option Ip × List Ip) → (dialled parse_ip to_lower g r).1 ≡ r.1
  dialled_tried (none, tried) = refl
  dialled_tried (some ip, tried) = refl

  -- DialContext tries to connect only to addresses that the guard allows, whatever the resolver
  -- answers at that time, and to none on a port that the guard does not allow.
  pub dial_context_allowed :
      (connects : Ip → Text → Bool) (host port : Text)
      → AllAllowed (dial_context parse_ip to_lower g connects host port).1
        × ((g.allow_port port ≡ true)
            ⊎ (dial_context parse_ip to_lower g connects host port ≡ (inl bad_port, [])))
  unfolding dial_context
  dial_context_allowed connects host port = elim (Bool-cases (g.allow_port port)) [
    | inl a ↦ (
      rw a
          (tried (vet_host parse_ip to_lower g (to_lower host)) (vet_host-allowed (to_lower host))),
      inl a,
    )
    | inr a ↦ (rw a tt, inr (rw a refl))
  ]
    where
      tried :
          (r : Refusal ⊎ List Ip)
          → ((ips : List Ip) → r ≡ inr ips → AllAllowed ips)
          → AllAllowed (dial_vetted parse_ip to_lower g (λ ip. connects ip port) r).1
      tried (inl r) k = tt
      tried (inr ips) k =
          subst AllAllowed
            (sym (dialled_tried (dial_each parse_ip to_lower g (λ ip. connects ip port) ips)))
            (dial_each-allowed (λ ip. connects ip port) ips (k ips refl))

  -- A host that is an allowed address, or a name that resolves to addresses, all of them allowed.
  abbrev pub HostAllowed : Text → Type 0
  HostAllowed host =
      ((ip : Ip) × (parse_ip host ≡ some ip) × (g.allow_ip ip ≡ true))
      ⊎ ((ips : List Ip) × (parse_ip host ≡ none)
          × (g.resolve host ≡ some ips)
          × (ips ≢ [])
          × AllAllowed ips)

  vet_resolved-some :
      (o : Option (List Ip)) (ips : List Ip)
      → vet_resolved parse_ip to_lower g o ≡ inr ips
      → (o ≡ some ips) × (ips ≢ [])
  vet_resolved-some none ips h = absurd (cc)
  vet_resolved-some (some []) ips h = absurd (cc)
  vet_resolved-some (some (ip ∷ rest)) ips h =
      elim (Option-cases (vet_all parse_ip to_lower g (ip ∷ rest))) [
        | inl e ↦
            let same : ip ∷ rest ≡ ips = ground arith in
            (ap some same, λ n. ground (arith, same, n))
        | inr (bad, e) ↦ absurd (ground arith)
      ]

  vet_host-HostAllowed :
      (host : Text) (ips : List Ip) → vet_host parse_ip to_lower g host ≡ inr ips → HostAllowed host
  unfolding vet_host
  vet_host-HostAllowed host ips h = elim (Option-cases (parse_ip host)) [
    | inl e ↦
        let r : vet_resolved parse_ip to_lower g (g.resolve host) ≡ inr ips = ground arith in
        let (resolved, some_ip) = vet_resolved-some (g.resolve host) ips r in
        inr (ips, e, resolved, some_ip, vet_resolved-allowed (g.resolve host) ips r)
    | inr (ip, e) ↦ elim (Bool-cases (g.allow_ip ip)) [
      | inl a ↦ inl (ip, e, a)
      | inr a ↦ absurd (ground arith)
    ]
  ]

  -- What the guard has checked of a URL that it lets pass.
  abbrev pub Checked : Url → Type 0
  Checked u =
      ((u.scheme ≡ http) ⊎ (u.scheme ≡ https))
      × (u.has_user ≡ false)
      × (is_empty (to_lower u.hostname) ≡ false)
      × (g.allow_port (port_of u) ≡ true)
      × (to_lower u.hostname ≢ codes "localhost")
      × (has_any_suffix blocked_suffixes (to_lower u.hostname) ≡ false)
      × HostAllowed (to_lower u.hostname)

  passed_lem :
      (u v : Url) (r : Refusal ⊎ List Ip)
      → passed parse_ip to_lower g u r ≡ inr v
      → (v ≡ u) × (ips : List Ip) × (r ≡ inr ips)
  passed_lem u v (inl r) h = absurd (cc)
  passed_lem u v (inr ips) h = (ground arith, ips, refl)

  checked : (u v : Url) → check_parsed parse_ip to_lower g (some u) ≡ inr v → (v ≡ u) × Checked u
  checked u v h =
      let host = to_lower u.hostname in
      let (scheme, h1) =
        not_refused (not (text_eq u.scheme http) && not (text_eq u.scheme https)) bad_scheme _ v
          h in
      let (user, h2) = not_refused u.has_user userinfo _ v h1 in
      let (empty, h3) = not_refused (is_empty host) empty_host _ v h2 in
      let (port, h4) = not_refused (not (g.allow_port (port_of u))) bad_port _ v h3 in
      let (local, h5) = not_refused (text_eq host (codes "localhost")) bad_host _ v h4 in
      let (suffix, h6) = not_refused (has_any_suffix blocked_suffixes host) bad_host _ v h5 in
      let (same, ips, e) = passed_lem u v _ h6 in
      (
        same,
        (
          schemes (text_eq u.scheme http) (text_eq u.scheme https) ((text_eq_iff u.scheme http).0)
              ((text_eq_iff u.scheme https).0) scheme,
          user,
          empty,
          allowed (g.allow_port (port_of u)) port,
          differ host (codes "localhost") local,
          suffix,
          vet_host-HostAllowed host ips e,
        ),
      )
    where
      allowed : (b : Bool) → not b ≡ false → b ≡ true
      allowed true h = refl
      allowed false h = absurd (cc)

      differ : (x y : Text) → text_eq x y ≡ false → x ≢ y
      differ x y h e = ground (arith, text_eq_iff x y)

      schemes :
          (a b : Bool)
          → (a ≡ true → u.scheme ≡ http)
          → (b ≡ true → u.scheme ≡ https)
          → (not a && not b) ≡ false
          → (u.scheme ≡ http) ⊎ (u.scheme ≡ https)
      schemes true b k l h = inl (k refl)
      schemes false true k l h = inr (l refl)
      schemes false false k l h = absurd (cc)

  -- CheckURL accepts a text only if it parses to the URL that is returned, with scheme http or https,
  -- no userinfo, a host that is not empty, an allowed port, a host name that is neither localhost nor
  -- ends in a blocked suffix, and a host that is an allowed address or a name for which the resolver
  -- answers with at least one address and only with allowed ones.
  pub check_url-Checked :
      (parse_url : Text → Option Url) (raw : Text) (u : Url)
      → check_url parse_ip to_lower g parse_url raw ≡ inr u
      → (parse_url raw ≡ some u) × Checked u
  unfolding check_url
  check_url-Checked parse_url raw u h = elim (Option-cases (parse_url raw)) [
    | inl e ↦ absurd (ground arith)
    | inr (v, e) ↦
        let (same, ok) = checked v u (ap (check_parsed parse_ip to_lower g) (sym e) ∙ h) in
        (e ∙ ap some (sym same), subst Checked (sym same) ok)
  ]
