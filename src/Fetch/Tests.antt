-- ===== src/Fetch/Tests.antt =====
-- The guard's theorems at concrete addresses and answers.
use fcfeeds.Prelude.{
  ◌≡◌, ◌⊎◌, inl, refl, Bool, true, false, not, Option, none, some, [], ◌∷◌, arith,
}
use fcfeeds.Text.{Text, codes, text_eq}
use fcfeeds.Fetch.Address.{Ip, is_public_ip, to4}
use fcfeeds.Fetch.Public.{in_ranges, reserved, is_public_ip_ranges}
use fcfeeds.Fetch.Guard.{Url, Guard, bad_port, web_port, check_url, dial_context}
use fcfeeds.Prelude.Int.{ℤ, pos}
use fcfeeds.Fetch.Types.{FetchResult}
use fcfeeds.Fetch.Client.{Options, Reply, redirect, GetError, get}
use fcfeeds.Fetch.Requests.{Reported, Requested, get_requests}
use fcfeeds.Fetch.Vetted.{AllAllowed, Checked, dial_context_allowed, check_url-Checked}

-- a private address mapped into IPv6
abbrev mapped : Ip
mapped = 0 ∷ 0 ∷ 0 ∷ 0 ∷ 0 ∷ 0 ∷ 0 ∷ 0 ∷ 0 ∷ 0 ∷ 255 ∷ 255 ∷ 192 ∷ 168 ∷ 1 ∷ 1 ∷ []

is_public_ip_ranges_example : is_public_ip mapped ≡ not (in_ranges reserved (192, 168, 1, 1))
unfolding to4
is_public_ip_ranges_example = is_public_ip_ranges mapped (192, 168, 1, 1) refl (ground arith)

-- no host is an address; the resolver answers with a public and a private address
abbrev no_ip : Text → Option Ip
no_ip host = none

abbrev as_is : Text → Text
as_is t = t

abbrev rebinding : Guard
unfolding is_public_ip text_eq
rebinding = record {
  resolve = λ host. some ((93 ∷ 184 ∷ 216 ∷ 34 ∷ []) ∷ (10 ∷ 0 ∷ 0 ∷ 1 ∷ []) ∷ []);
  allow_ip = is_public_ip;
  allow_port = web_port;
}

abbrev every : Ip → Text → Bool
every ip port = true

dial_context_allowed_example :
    AllAllowed no_ip as_is rebinding
      (dial_context no_ip as_is rebinding every (codes "a.b") (codes "80")).1
    × ((rebinding.allow_port (codes "80") ≡ true)
        ⊎ (dial_context no_ip as_is rebinding every (codes "a.b") (codes "80")
            ≡ (inl bad_port, [])))
dial_context_allowed_example =
    dial_context_allowed no_ip as_is rebinding every (codes "a.b") (codes "80")

abbrev public : Guard
unfolding is_public_ip text_eq
public = record {
  resolve = λ host. some ((93 ∷ 184 ∷ 216 ∷ 34 ∷ []) ∷ []);
  allow_ip = is_public_ip;
  allow_port = web_port;
}

abbrev url_a : Url
url_a = record { scheme = codes "https"; has_user = false; hostname = codes "a.b"; port = [] }

abbrev parse_a : Text → Option Url
parse_a raw = some url_a

check_url-Checked_example :
    (parse_a (codes "https://a.b/") ≡ some url_a) × Checked no_ip as_is public url_a
unfolding check_url is_public_ip
check_url-Checked_example =
    check_url-Checked no_ip as_is public parse_a (codes "https://a.b/") url_a refl

-- a server that redirects to itself for ever
abbrev loop : Url → Reply
loop u = redirect url_a

abbrev print_a : Url → Text
print_a u = codes "https://a.b/"

abbrev small : Options
small = record { max_body = 100; max_redirects = 2 }

abbrev at_once : Text → ℤ
at_once v = pos 0

get_requests_example :
    (x : GetError ⊎ FetchResult) × ((get no_ip as_is public parse_a print_a loop small at_once
        (codes "https://a.b/")).0
      ≡ some x)
    × Reported no_ip as_is public parse_a print_a loop small at_once (codes "https://a.b/") x
    × Requested no_ip as_is public parse_a print_a loop small at_once
        (codes "https://a.b/")
        (check_url no_ip as_is public parse_a (codes "https://a.b/"))
        (get no_ip as_is public parse_a print_a loop small at_once (codes "https://a.b/")).1
get_requests_example =
    get_requests no_ip as_is public parse_a print_a loop small at_once (codes "https://a.b/")
