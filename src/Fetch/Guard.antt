-- ===== src/Fetch/Guard.antt =====
-- The guard of internal/fetch/ssrf.go. The URL parser, the address parser and Unicode's lower case
-- are the standard library's, the resolver and the network are the environment's: parameters.
use fcfeeds.Prelude.{
  Bool, false, not, ◌&&◌, ◌||◌, Option, none, some, List, [], ◌∷◌, ◌⊎◌, inl, inr, if◌then◌else◌,
}
use fcfeeds.Text.{Text, codes, text_eq, is_empty, has_suffix}
use fcfeeds.Fetch.Address.{Ip}

-- url.URL, as far as the guard reads it
pub record Url : Type 0 where
  pub scheme : Text
  pub has_user : Bool
  pub hostname : Text
  pub port : Text

-- Why a URL or an address is not reached; only the last two do not wrap ErrBlocked.
pub data Refusal : Type 0 where
  bad_url : Refusal
  bad_scheme : Refusal
  userinfo : Refusal
  empty_host : Refusal
  bad_port : Refusal
  bad_host : Refusal
  bad_ip : Ip → Refusal
  resolved_to_nothing : Refusal
  not_resolved : Refusal
  not_connected : Refusal

pub record Guard : Type 0 where
  pub resolve : Text → Option (List Ip)
  pub allow_ip : Ip → Bool
  pub allow_port : Text → Bool

abbrev pub http : Text
http = codes "http"

abbrev pub https : Text
https = codes "https"

abbrev pub blocked_suffixes : List Text
blocked_suffixes =
    codes ".internal"
    ∷ codes ".svc"
    ∷ codes ".cluster.local"
    ∷ codes ".local"
    ∷ codes ".localhost"
    ∷ []

abbrev pub has_any_suffix : List Text → Text → Bool
has_any_suffix [] host = false
has_any_suffix (s ∷ ss) host = has_suffix host s || has_any_suffix ss host

-- NewGuard's AllowPort
abbrev pub web_port : Text → Bool
web_port p = text_eq p (codes "80") || text_eq p (codes "443")

-- u.Port(), or the scheme's own
abbrev pub port_of : Url → Text
port_of u =
    if is_empty u.port then (if text_eq u.scheme https then codes "443" else codes "80") else u.port

module _ (parse_ip : Text → Option Ip) (to_lower : Text → Text) (g : Guard) where
  -- the loop over the addresses of a host
  unfoldable pub vet_all : List Ip → Option Ip
  vet_all [] = none
  vet_all (ip ∷ ips) = if g.allow_ip ip then vet_all ips else some ip

  abbrev pub vetted : List Ip → Option Ip → Refusal ⊎ List Ip
  vetted ips none = inr ips
  vetted ips (some ip) = inl (bad_ip ip)

  abbrev pub vet_resolved : Option (List Ip) → Refusal ⊎ List Ip
  vet_resolved none = inl not_resolved
  vet_resolved (some []) = inl resolved_to_nothing
  vet_resolved (some (ip ∷ ips)) = vetted (ip ∷ ips) (vet_all (ip ∷ ips))

  unfoldable pub vet_host : Text → Refusal ⊎ List Ip
  unfolding vet_all
  vet_host host = elim (parse_ip host) [
    | some ip ↦ if g.allow_ip ip then inr (ip ∷ []) else inl (bad_ip ip)
    | none ↦ vet_resolved (g.resolve host)
  ]

  -- the error of vetHost, or the URL
  abbrev pub passed : Url → Refusal ⊎ List Ip → Refusal ⊎ Url
  passed u (inl r) = inl r
  passed u (inr ips) = inr u

  abbrev pub check_parsed : Option Url → Refusal ⊎ Url
  check_parsed none = inl bad_url
  check_parsed (some u) =
      let host = to_lower u.hostname in
      if not (text_eq u.scheme http) && not (text_eq u.scheme https)
      then inl bad_scheme
      else if u.has_user
      then inl userinfo
      else if is_empty host
      then inl empty_host
      else if not (g.allow_port (port_of u))
      then inl bad_port
      else if text_eq host (codes "localhost")
      then inl bad_host
      else if has_any_suffix blocked_suffixes host
      then inl bad_host
      else passed u (vet_host host)

  -- `parse_url` is url.Parse after strings.TrimSpace
  unfoldable pub check_url : (Text → Option Url) → Text → Refusal ⊎ Url
  unfolding text_eq has_suffix vet_host
  check_url parse_url raw = check_parsed (parse_url raw)

  -- The connections that are tried, in order, up to the first that is made.
  unfoldable pub dial_each : (Ip → Bool) → List Ip → Option Ip × List Ip
  dial_each connects [] = (none, [])
  dial_each connects (ip ∷ ips) =
      let (r, tried) = dial_each connects ips in
      if connects ip then (some ip, ip ∷ []) else (r, ip ∷ tried)

  abbrev pub dialled : Option Ip × List Ip → (Refusal ⊎ Ip) × List Ip
  dialled (none, tried) = (inl not_connected, tried)
  dialled (some ip, tried) = (inr ip, tried)

  abbrev pub dial_vetted : (Ip → Bool) → Refusal ⊎ List Ip → (Refusal ⊎ Ip) × List Ip
  dial_vetted connects (inl r) = (inl r, [])
  dial_vetted connects (inr ips) = dialled (dial_each connects ips)

  -- The result and the addresses that were tried; the address is split into host and port already.
  unfoldable pub dial_context : (Ip → Text → Bool) → Text → Text → (Refusal ⊎ Ip) × List Ip
  unfolding vet_host dial_each
  dial_context connects host port =
      if not (g.allow_port port)
      then (inl bad_port, [])
      else dial_vetted (λ ip. connects ip port) (vet_host (to_lower host))
