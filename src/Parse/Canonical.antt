-- ===== src/Parse/Canonical.antt =====
-- Two URLs of one article have one canonical form.
use fcfeeds.Prelude.{
  ℕ, ◌≡◌, refl, sym, ap, ◌∙◌, ◌⊎◌, inl, inr, true, false, some, List, [], ◌∷◌, ◌++◌, arith,
  if◌then◌else◌, Bool-cases, keep,
}
use fcfeeds.Prelude.Sort.{sort}
use fcfeeds.Text.{Text, codes, text_eq, is_empty, has_suffix-append}
use fcfeeds.Parse.Library.{Library, UrlParts}
use fcfeeds.Parse.Normalize.{
  is_kept, keys, values, has_byte, before_last, has_default_port, canonical_host, write_values,
  write_keys, canonical_query, canonical_parts, canonical_url, key_for_url,
}
use fcfeeds.Parse.QueryValues.{kept_values, SameValues, ordered_keys, ordered_keys_same}

abbrev pub default_port : Text → Text
default_port scheme =
    if text_eq scheme (codes "http")
    then codes ":80"
    else if text_eq scheme (codes "https")
    then codes ":443"
    else []

-- The same host, or one of them with the default port of the scheme after it.
abbrev pub WithPort : Text → Text → Text → Type 0
WithPort scheme h g = (h ≡ g ++ default_port scheme) × (has_default_port scheme g ≡ false)

abbrev pub SameHost : Text → Text → Text → Type 0
SameHost scheme g h = (g ≡ h) ⊎ (WithPort scheme g h ⊎ WithPort scheme h g)

has_byte-append : (b : ℕ) (s t : Text) → has_byte b (s ++ b ∷ t) ≡ true
has_byte-append b [] t = ground arith
has_byte-append b (c ∷ s) t = ground (arith, has_byte-append b s t)

before_last-append : (b : ℕ) (s t : Text) → has_byte b t ≡ false → before_last b (s ++ b ∷ t) ≡ s
before_last-append b [] t h = rw h refl
before_last-append b (c ∷ s) t h =
    rw (has_byte-append b s t) (ap (λ r. c ∷ r) (before_last-append b s t h))

port_stripped :
    (scheme g port : Text)
    → has_default_port scheme (g ++ b':' ∷ port) ≡ true
    → has_byte b':' port ≡ false
    → canonical_host scheme (g ++ b':' ∷ port) ≡ g
unfolding canonical_host
port_stripped scheme g port t n = rw t (before_last-append b':' g port n)

host_kept : (scheme g : Text) → has_default_port scheme g ≡ false → canonical_host scheme g ≡ g
unfolding canonical_host
host_kept scheme g f = rw f refl

stripped :
    (scheme g : Text)
    → canonical_host scheme (g ++ default_port scheme) ≡ g ⊎ (default_port scheme ≡ [])
stripped scheme g = elim (Bool-cases (text_eq scheme (codes "http"))) [
  | inl p ↦
      let d : default_port scheme ≡ codes ":80" = rw p refl in
      let t : has_default_port scheme (g ++ codes ":80") ≡ true =
        rw (p, has_suffix-append g (codes ":80")) refl in
      inl (rw d (port_stripped scheme g (codes "80") t refl))
  | inr p ↦ elim (Bool-cases (text_eq scheme (codes "https"))) [
    | inl q ↦
        let d : default_port scheme ≡ codes ":443" = rw (p, q) refl in
        let t : has_default_port scheme (g ++ codes ":443") ≡ true =
          rw (p, q, has_suffix-append g (codes ":443")) refl in
        inl (rw d (port_stripped scheme g (codes "443") t refl))
    | inr q ↦ inr (rw (p, q) refl)
  ]
]

append_nil : (s : Text) → s ++ [] ≡ s
append_nil [] = refl
append_nil (c ∷ s) = ap (λ r. c ∷ r) (append_nil s)

canonical_host-WithPort :
    (scheme h g : Text) → WithPort scheme h g → canonical_host scheme h ≡ canonical_host scheme g
canonical_host-WithPort scheme h g (e, f) = elim (stripped scheme g) [
  | inl k ↦ ap (canonical_host scheme) e ∙ k ∙ sym (host_kept scheme g f)
  | inr n ↦ ap (canonical_host scheme) (e ∙ ap (λ p. g ++ p) n ∙ append_nil g)
]

canonical_host_same :
    (scheme g h : Text) → SameHost scheme g h → canonical_host scheme g ≡ canonical_host scheme h
canonical_host_same scheme g h (inl e) = ap (canonical_host scheme) e
canonical_host_same scheme g h (inr (inl w)) = canonical_host-WithPort scheme g h w
canonical_host_same scheme g h (inr (inr w)) = sym (canonical_host-WithPort scheme h g w)

module _ (lib : Library) where
  -- Two URLs that differ in the case of scheme and host, the default port, the fragment, the
  -- parameters that track, and the order of the others.
  pub record SameArticle (u v : UrlParts) : Type 0 where
    pub scheme : lib.to_lower u.scheme ≡ lib.to_lower v.scheme
    pub host : SameHost (lib.to_lower v.scheme) (lib.to_lower u.host) (lib.to_lower v.host)
    pub opaque : u.opaque ≡ v.opaque
    pub query : SameValues (lib.parse_query u.raw_query) (lib.parse_query v.raw_query)

  write_keys_same :
      (b : Text) (p q : List (Text × Text)) (ks : List Text)
      → ((k : Text) → values k p ≡ values k q)
      → write_keys lib b p ks ≡ write_keys lib b q ks
  unfolding write_keys
  write_keys_same b p q [] h = refl
  write_keys_same b p q (k ∷ ks) h =
      write_keys_same (write_values lib b k (values k p)) p q ks h
      ∙ ap (λ vs. write_keys lib (write_values lib b k vs) q ks) (h k)

  written : List (Text × Text) → Text
  written ps = write_keys lib [] (keep is_kept ps) (ordered_keys ps)

  written_same : (p q : List (Text × Text)) → SameValues p q → written p ≡ written q
  unfolding written
  written_same p q same =
      write_keys_same [] (keep is_kept p) (keep is_kept q) (ordered_keys p) (kept_values p q same)
      ∙ ap (write_keys lib [] (keep is_kept q)) (ordered_keys_same p q same)

  module _ (no_query : lib.parse_query [] ≡ []) where
    canonical_query-written : (raw : Text) → canonical_query lib raw ≡ written (lib.parse_query raw)
    unfolding canonical_query written write_keys sort keys keep
    canonical_query-written [] = rw no_query refl
    canonical_query-written (c ∷ s) = refl

    canonical_parts_same :
        (u v : UrlParts) → SameArticle u v → canonical_parts lib u ≡ canonical_parts lib v
    unfolding canonical_parts
    canonical_parts_same u v s =
        let h =
          ap (λ x. canonical_host x (lib.to_lower u.host)) s.scheme
          ∙ canonical_host_same (lib.to_lower v.scheme) (lib.to_lower u.host) (lib.to_lower v.host)
              s.host in
        let q =
          canonical_query-written u.raw_query
          ∙ written_same (lib.parse_query u.raw_query) (lib.parse_query v.raw_query) s.query
          ∙ sym (canonical_query-written v.raw_query) in
        cc (s.scheme, h, s.opaque, q)

    -- Where the empty query has no parameters, two URLs with a host that differ only in the case of
    -- scheme and host, in the default port of the scheme, in the fragment, in parameters that track,
    -- and in the order of the other parameters have the same canonical form and the same key.
    pub canonical_same :
        (r t : Text) (u v : UrlParts)
        → lib.parse_url (lib.trim r) ≡ some u
        → lib.parse_url (lib.trim t) ≡ some v
        → is_empty u.host ≡ false
        → is_empty v.host ≡ false
        → SameArticle u v
        → (canonical_url lib r ≡ canonical_url lib t) × (key_for_url lib r ≡ key_for_url lib t)
    unfolding key_for_url canonical_url
    canonical_same r t u v pu pv hu hv s =
        let e =
          url_parsed r u pu hu
          ∙ ap lib.print_url (canonical_parts_same u v s)
          ∙ sym (url_parsed t v pv hv) in
        (e, ap lib.hash e)
      where
        url_parsed :
            (x : Text) (w : UrlParts)
            → lib.parse_url (lib.trim x) ≡ some w
            → is_empty w.host ≡ false
            → canonical_url lib x ≡ lib.print_url (canonical_parts lib w)
        url_parsed x w p h = rw (canonical_url, p, h) refl
