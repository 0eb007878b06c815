-- ===== src/Fetch/Address.antt =====
-- IsPublicIP of internal/fetch/ssrf.go, and the predicates of net.IP that it calls. A net.IP is the
-- list of its bytes, 4 or 16 of them; nil is the empty list.
use fcfeeds.Prelude.{
  ℕ, ◌+◌, ◌-◌, ◌*◌, ◌/◌, ◌^◌, Bool, true, false, not, ◌&&◌, ◌||◌, Option, none, some, List, [], ◌∷◌,
  ◌==◌, if◌then◌else◌, length, take, drop, ◌++◌,
}
use fcfeeds.Text.{text_eq}

abbrev pub Ip : Type 0
Ip = List ℕ

abbrev pub Quad : Type 0
Quad = ℕ × ℕ × ℕ × ℕ

abbrev quad : Ip → Option Quad
quad (a ∷ b ∷ c ∷ d ∷ []) = some (a, b, c, d)
quad _ = none

abbrev v4_in_v6 : Ip
v4_in_v6 = 0 ∷ 0 ∷ 0 ∷ 0 ∷ 0 ∷ 0 ∷ 0 ∷ 0 ∷ 0 ∷ 0 ∷ 255 ∷ 255 ∷ []

-- ip.To4(), which is not nil for a 4-byte address and an IPv4-mapped one
unfoldable pub to4 : Ip → Option Quad
unfolding text_eq
to4 ip =
    if length ip == 4
    then quad ip
    else if length ip == 16 && text_eq (take 12 ip) v4_in_v6
    then quad (drop 12 ip)
    else none

-- The address as a number of 32 bits.
abbrev pub number : Quad → ℕ
number (a, b, c, d) = a * 2 ^ 24 + b * 2 ^ 16 + c * 2 ^ 8 + d

-- a CIDR block: its first address and the number of its leading bits
pub record Block : Type 0 where
  pub base : Quad
  pub ones : ℕ

abbrev pub block : ℕ → ℕ → ℕ → ℕ → ℕ → Block
block a b c d ones = record { base = (a, b, c, d); ones = ones }

abbrev pub private_v4 : List Block
private_v4 =
    block 0 0 0 0 8
    ∷ block 10 0 0 0 8
    ∷ block 100 64 0 0 10
    ∷ block 127 0 0 0 8
    ∷ block 169 254 0 0 16
    ∷ block 172 16 0 0 12
    ∷ block 192 0 0 0 24
    ∷ block 192 0 2 0 24
    ∷ block 192 168 0 0 16
    ∷ block 198 18 0 0 15
    ∷ block 198 51 100 0 24
    ∷ block 203 0 113 0 24
    ∷ block 224 0 0 0 4
    ∷ block 240 0 0 0 4
    ∷ []

-- n.Contains(v4): the leading bits are the same
abbrev pub in_block : Block → Quad → Bool
in_block n q = number q / 2 ^ (32 - n.ones) == number n.base / 2 ^ (32 - n.ones)

abbrev pub in_any : List Block → Quad → Bool
in_any [] q = false
in_any (n ∷ ns) q = in_block n q || in_any ns q

-- ip.Equal against the constants of package net; for an IPv4 address only 0.0.0.0 is unspecified
abbrev zeros : Ip
zeros = 0 ∷ 0 ∷ 0 ∷ 0 ∷ 0 ∷ 0 ∷ 0 ∷ 0 ∷ 0 ∷ 0 ∷ 0 ∷ 0 ∷ 0 ∷ 0 ∷ 0 ∷ []

-- The predicates of net.IP on an IPv4 address. A mask of leading bits is a quotient.
abbrev pub special_v4 : Quad → Bool
special_v4 (a, b, c, d) =
    (a == 0 && (b == 0 && (c == 0 && d == 0)))  -- IsUnspecified
    || ((a == 127)  -- IsLoopback
        || ((a / 16 == 14)  -- IsMulticast
            || ((a == 169 && b == 254)  -- IsLinkLocalUnicast
                || ((a == 224 && (b == 0 && c == 0))  -- IsLinkLocalMulticast
                    || ((a == 10) || ((a == 172 && b / 16 == 1) || (a == 192 && b == 168)))))))  -- IsPrivate

-- The same on an IPv6 address, by its first two bytes.
abbrev leading_v6 : Ip → Bool
leading_v6 (a ∷ b ∷ ip) =
    (a == 255)  -- IsMulticast, with the link-local and interface-local ones
    || ((a == 254 && b / 64 == 2)  -- IsLinkLocalUnicast
        || (a / 2 == 126))  -- IsPrivate
leading_v6 _ = false

abbrev pub special_v6 : Ip → Bool
special_v6 ip =
    text_eq ip (zeros ++ 0 ∷ [])  -- IsUnspecified
    || (text_eq ip (zeros ++ 1 ∷ [])  -- IsLoopback
        || (length ip == 16 && leading_v6 ip))

abbrev pub is_documentation : Ip → Bool
is_documentation ip = length ip == 16 && text_eq (take 4 ip) (32 ∷ 1 ∷ 13 ∷ 184 ∷ [])

abbrev pub is_public_as : Ip → Option Quad → Bool
is_public_as ip (some q) = not (special_v4 q) && not (in_any private_v4 q)
is_public_as ip none = not (special_v6 ip) && not (is_documentation ip)

abbrev is_nil : Ip → Bool
is_nil [] = true
is_nil (b ∷ ip) = false

unfoldable pub is_public_ip : Ip → Bool
unfolding to4
is_public_ip ip = not (is_nil ip) && is_public_as ip (to4 ip)
