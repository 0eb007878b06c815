-- ===== src/Prelude/Int.antt =====
-- Integers over the native numbers, and Go's int64: the arithmetic wraps around.
use fcfeeds.Prelude.{
  ℕ, ◌+◌, ◌-◌, ◌*◌, ◌%◌, ◌^◌, ◌<◌, ◌≡◌, Bool, true, false, ltb, if◌then◌else◌, arith,
}

pub data ℤ : Type 0 where
  pos : ℕ → ℤ
  negsuc : ℕ → ℤ

abbrev pub lt_int : ℤ → ℤ → Bool
lt_int (pos a) (pos b) = ltb a b
lt_int (pos a) (negsuc b) = false
lt_int (negsuc a) (pos b) = true
lt_int (negsuc a) (negsuc b) = ltb b a

-- The int64 that has these 64 bits.
abbrev pub to_int64 : ℕ → ℤ
to_int64 n = if ltb n (2 ^ 63) then pos n else negsuc (2 ^ 64 - 1 - n)

-- x * 2 in int64; `negsuc n` is the number -(n + 1)
unfoldable pub double : ℤ → ℤ
double (pos n) = to_int64 ((2 * n) % 2 ^ 64)
double (negsuc n) = to_int64 ((2 ^ 64 * 2 - (2 * n + 2)) % 2 ^ 64)

pub double-small : (n : ℕ) → n < 2 ^ 62 → double (pos n) ≡ pos (2 * n)
unfolding double
double-small n h = ground arith

-- The number, 0 if it is negative.
abbrev pub clamp_int : ℤ → ℕ
clamp_int (pos n) = n
clamp_int (negsuc n) = 0
