-- ===== src/Fetch/Public.antt =====
-- IsPublicIP on IPv4 addresses: the blocks it refuses, as ranges.
use fcfeeds.Prelude.{
  ◌<◌, ◌≡◌, refl, sym, ap, ◌∙◌, Bool, true, false, not, ◌&&◌, ◌||◌, some, List, [], ◌∷◌, arith, leb,
}
use mathlib.Core.Path.{ap₂}
use fcfeeds.Fetch.Address.{
  Ip, Quad, number, Block, private_v4, in_block, in_any, special_v4, to4, is_public_ip,
}

-- The reserved ranges, by the first and the last of their addresses.
abbrev pub reserved : List (Quad × Quad)
reserved =
    ((0, 0, 0, 0), (0, 255, 255, 255))
    ∷ ((10, 0, 0, 0), (10, 255, 255, 255))
    ∷ ((100, 64, 0, 0), (100, 127, 255, 255))
    ∷ ((127, 0, 0, 0), (127, 255, 255, 255))
    ∷ ((169, 254, 0, 0), (169, 254, 255, 255))
    ∷ ((172, 16, 0, 0), (172, 31, 255, 255))
    ∷ ((192, 0, 0, 0), (192, 0, 0, 255))
    ∷ ((192, 0, 2, 0), (192, 0, 2, 255))
    ∷ ((192, 168, 0, 0), (192, 168, 255, 255))
    ∷ ((198, 18, 0, 0), (198, 19, 255, 255))
    ∷ ((198, 51, 100, 0), (198, 51, 100, 255))
    ∷ ((203, 0, 113, 0), (203, 0, 113, 255))
    ∷ ((224, 0, 0, 0), (239, 255, 255, 255))
    ∷ ((240, 0, 0, 0), (255, 255, 255, 255))
    ∷ []

abbrev pub in_range : Quad → Quad × Quad → Bool
in_range q (low, high) = leb (number low) (number q) && leb (number q) (number high)

abbrev pub in_ranges : List (Quad × Quad) → Quad → Bool
in_ranges [] q = false
in_ranges (r ∷ rs) q = in_range q r || in_ranges rs q

-- bytes
abbrev pub IsQuad : Quad → Type 0
IsQuad (a, b, c, d) = (a < 256) × (b < 256) × (c < 256) × (d < 256)

-- Each block holds the addresses of one range: that the leading bits are the same is one quotient.
abbrev Match : Quad → List Block → List (Quad × Quad) → Type 0
Match q [] [] = Unit
Match q [] (r ∷ rs) = ⊥
Match q (n ∷ ns) [] = ⊥
Match q (n ∷ ns) (r ∷ rs) = (in_block n q ≡ in_range q r) × Match q ns rs

matched :
    (q : Quad) (ns : List Block) (rs : List (Quad × Quad))
    → Match q ns rs
    → in_any ns q ≡ in_ranges rs q
matched q [] [] m = refl
matched q [] (r ∷ rs) m = elim m [ ]
matched q (n ∷ ns) [] m = elim m [ ]
matched q (n ∷ ns) (r ∷ rs) (e, m) = ap₂ ◌||◌ e (matched q ns rs m)

blocks_ranges : (q : Quad) → in_any private_v4 q ≡ in_ranges reserved q
blocks_ranges q = matched q private_v4 reserved (
  ground arith,
  (
    ground arith,
    (
      ground arith,
      (
        ground arith,
        (
          ground arith,
          (
            ground arith,
            (
              ground arith,
              (
                ground arith,
                (
                  ground arith,
                  (
                    ground arith,
                    (ground arith, (ground arith, (ground arith, (ground arith, tt)))),
                  ),
                ),
              ),
            ),
          ),
        ),
      ),
    ),
  ),
)

special_reserved : (q : Quad) → IsQuad q → special_v4 q ≡ true → in_any private_v4 q ≡ true
special_reserved (a, b, c, d) (ha, hb, hc, hd) h = ground arith

-- An IPv4 address, or one mapped into IPv6, is public exactly if it lies in no reserved range.
pub is_public_ip_ranges :
    (ip : Ip) (q : Quad) → to4 ip ≡ some q → IsQuad q → is_public_ip ip ≡ not (in_ranges reserved q)
unfolding is_public_ip
is_public_ip_ranges [] q e h = absurd (unfold to4 in ground arith)
is_public_ip_ranges (b ∷ ip) q e h = rw e (
    ap (λ x. not (special_v4 q) && not x) (blocks_ranges q)
    ∙ implied (special_v4 q) (in_ranges reserved q)
        (λ s. sym (blocks_ranges q) ∙ special_reserved q h s))
  where
    implied : (s r : Bool) → (s ≡ true → r ≡ true) → (not s && not r) ≡ not r
    implied true r k = sym (ap not (k refl))
    implied false r k = refl
