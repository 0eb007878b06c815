-- ===== src/Parse/Runes.antt =====
-- Go's conversions between strings and runes, on which the cap of a headline's length stands.
use fcfeeds.Prelude.{
  ℕ, zero, suc, ◌+◌, ◌-◌, ◌*◌, ◌/◌, ◌%◌, ◌≤◌, ◌<◌, ◌≡◌, refl, ◌⊎◌, inl, inr, Bool, true, false,
  ◌&&◌, ◌||◌, List, [], ◌∷◌, ◌++◌, arith, ltb, leb, ◌==◌, if◌then◌else◌, Bool-cases, length, take,
  ◌∙◌, ap, All-of_In, All-In, In-take, length-take-le, All,
}
use fcfeeds.Text.{Text}

abbrev between : ℕ → ℕ → ℕ → Bool
between low high b = leb low b && leb b high

-- utf8.RuneError with the width of a byte that starts no rune
abbrev rune_error : ℕ × ℕ
rune_error = (65533, 1)

unfoldable two_bytes : ℕ → Text → ℕ × ℕ
two_bytes a [] = rune_error
two_bytes a (b ∷ s) = if between 128 191 b then ((a - 192) * 64 + (b - 128), 2) else rune_error

unfoldable three_bytes : ℕ → Text → ℕ × ℕ
three_bytes a [] = rune_error
three_bytes a (b ∷ []) = rune_error
three_bytes a (b ∷ c ∷ s) =
    if between (if a == 224 then 160 else 128) (if a == 237 then 159 else 191) b
      && between 128 191 c
    then ((a - 224) * 4096 + (b - 128) * 64 + (c - 128), 3)
    else rune_error

unfoldable four_bytes : ℕ → Text → ℕ × ℕ
four_bytes a [] = rune_error
four_bytes a (b ∷ []) = rune_error
four_bytes a (b ∷ c ∷ []) = rune_error
four_bytes a (b ∷ c ∷ d ∷ s) =
    if between (if a == 240 then 144 else 128) (if a == 244 then 143 else 191) b
      && between 128 191 c
      && between 128 191 d
    then ((a - 240) * 262_144 + (b - 128) * 4096 + (c - 128) * 64 + (d - 128), 4)
    else rune_error

-- utf8.DecodeRuneInString(s), of a string that starts with `a`: the rune and its width
unfoldable decode_rune : ℕ → Text → ℕ × ℕ
unfolding two_bytes three_bytes four_bytes
decode_rune a s =
    if ltb a 128
    then (a, 1)
    else if between 194 223 a
    then two_bytes a s
    else if between 224 239 a
    then three_bytes a s
    else if between 240 244 a
    then four_bytes a s
    else rune_error

-- The runes of a string whose first bytes, this many, belong to a rune already read.
runes_after : ℕ → Text → List ℕ
unfolding decode_rune
runes_after k [] = []
runes_after (suc k) (c ∷ s) = runes_after k s
runes_after zero (c ∷ s) = let d = decode_rune c s in (d.0) ∷ runes_after (d.1 - 1) s

-- []rune(s)
unfoldable pub runes : Text → List ℕ
unfolding runes_after
runes s = runes_after 0 s

abbrev is_surrogate : ℕ → Bool
is_surrogate r = between 55_296 57_343 r

-- string(r)
encode_rune : ℕ → Text
encode_rune r =
    if ltb r 128
    then r ∷ []
    else if ltb r 2048
    then (192 + r / 64) ∷ (128 + r % 64) ∷ []
    else if is_surrogate r || ltb 1_114_111 r
    then 239 ∷ 191 ∷ 189 ∷ []
    else if ltb r 65_536
    then (224 + r / 4096) ∷ (128 + (r / 64) % 64) ∷ (128 + r % 64) ∷ []
    else (240 + r / 262_144) ∷ (128 + (r / 4096) % 64) ∷ (128 + (r / 64) % 64) ∷ (128 + r % 64) ∷ []

-- string(rs)
unfoldable pub string_of : List ℕ → Text
unfolding encode_rune
string_of [] = []
string_of (r ∷ rs) = encode_rune r ++ string_of rs

-- A Unicode scalar value.
abbrev IsScalar : ℕ → Type 0
IsScalar r = (r < 55_296) ⊎ ((57_343 < r) × (r ≤ 1_114_111))

two_bytes-IsScalar : (a : ℕ) (s : Text) → between 194 223 a ≡ true → IsScalar ((two_bytes a s).0)
unfolding two_bytes
two_bytes-IsScalar a [] h = ground arith
two_bytes-IsScalar a (b ∷ s) h = ground arith

three_bytes-IsScalar :
    (a : ℕ) (s : Text) → between 224 239 a ≡ true → IsScalar ((three_bytes a s).0)
unfolding three_bytes
three_bytes-IsScalar a [] h = ground arith
three_bytes-IsScalar a (b ∷ []) h = ground arith
three_bytes-IsScalar a (b ∷ c ∷ s) h = ground arith

four_bytes-IsScalar : (a : ℕ) (s : Text) → between 240 244 a ≡ true → IsScalar ((four_bytes a s).0)
unfolding four_bytes
four_bytes-IsScalar a [] h = ground arith
four_bytes-IsScalar a (b ∷ []) h = ground arith
four_bytes-IsScalar a (b ∷ c ∷ []) h = ground arith
four_bytes-IsScalar a (b ∷ c ∷ d ∷ s) h = ground arith

decode_rune-IsScalar : (a : ℕ) (s : Text) → IsScalar ((decode_rune a s).0)
decode_rune-IsScalar a s =
    unfold decode_rune in
    elim (Bool-cases (ltb a 128)) [
      | inl e ↦ ground arith
      | inr e ↦
          ground (arith, two_bytes-IsScalar a s, three_bytes-IsScalar a s, four_bytes-IsScalar a s)
    ]

runes_after-IsScalar : (k : ℕ) (s : Text) → All IsScalar (runes_after k s)
unfolding runes_after
runes_after-IsScalar zero [] = tt
runes_after-IsScalar (suc k) [] = tt
runes_after-IsScalar (suc k) (c ∷ s) = runes_after-IsScalar k s
runes_after-IsScalar zero (c ∷ s) =
    (decode_rune-IsScalar c s, runes_after-IsScalar ((decode_rune c s).1 - 1) s)

decode_two :
    (r : ℕ) (t : Text)
    → 128 ≤ r
    → r < 2048
    → decode_rune (192 + r / 64) ((128 + r % 64) ∷ t) ≡ (r, 2)
unfolding decode_rune two_bytes
decode_two r t a b = ground arith

decode_three :
    (r : ℕ) (t : Text)
    → 2048 ≤ r
    → r < 65_536
    → IsScalar r
    → decode_rune (224 + r / 4096) ((128 + (r / 64) % 64) ∷ (128 + r % 64) ∷ t) ≡ (r, 3)
unfolding decode_rune three_bytes
decode_three r t a b c = ground arith

decode_four :
    (r : ℕ) (t : Text)
    → 65_536 ≤ r
    → r ≤ 1_114_111
    → decode_rune
        (240 + r / 262_144)
        ((128 + (r / 4096) % 64) ∷ (128 + (r / 64) % 64) ∷ (128 + r % 64) ∷ t)
      ≡ (r, 4)
unfolding decode_rune four_bytes
decode_four r t a b = ground arith

encode_two : (r : ℕ) → 128 ≤ r → r < 2048 → encode_rune r ≡ (192 + r / 64) ∷ (128 + r % 64) ∷ []
unfolding encode_rune
encode_two r a b =
    let e1 : ltb r 128 ≡ false = ground arith in
    let e2 : ltb r 2048 ≡ true = ground arith in rw (e1, e2) refl

encode_three :
    (r : ℕ)
    → 2048 ≤ r
    → r < 65_536
    → IsScalar r
    → encode_rune r ≡ (224 + r / 4096) ∷ (128 + (r / 64) % 64) ∷ (128 + r % 64) ∷ []
unfolding encode_rune
encode_three r a b c =
    let e1 : ltb r 128 ≡ false = ground arith in
    let e2 : ltb r 2048 ≡ false = ground arith in
    let e3 : (is_surrogate r || ltb 1_114_111 r) ≡ false = ground arith in
    let e4 : ltb r 65_536 ≡ true = ground arith in rw (e1, e2, e3, e4) refl

encode_four :
    (r : ℕ)
    → 65_536 ≤ r
    → r ≤ 1_114_111
    → encode_rune r
      ≡ (240 + r / 262_144) ∷ (128 + (r / 4096) % 64) ∷ (128 + (r / 64) % 64) ∷ (128 + r % 64) ∷ []
unfolding encode_rune
encode_four r a b =
    let e1 : ltb r 128 ≡ false = ground arith in
    let e2 : ltb r 2048 ≡ false = ground arith in
    let e3 : (is_surrogate r || ltb 1_114_111 r) ≡ false = ground arith in
    let e4 : ltb r 65_536 ≡ false = ground arith in rw (e1, e2, e3, e4) refl

runes_after-encode_rune :
    (r : ℕ) (t : Text) → IsScalar r → runes_after 0 (encode_rune r ++ t) ≡ r ∷ runes_after 0 t
unfolding runes_after
runes_after-encode_rune r t h = elim (Bool-cases (ltb r 128)) [
  | inl e ↦ unfold encode_rune decode_rune in ground arith
  | inr e ↦ elim (Bool-cases (ltb r 2048)) [
    | inl e2 ↦
        let a : 128 ≤ r = ground arith in
        let b : r < 2048 = ground arith in rw (encode_two r a b, decode_two r t a b) refl
    | inr e2 ↦
        let a : 2048 ≤ r = ground arith in
        elim (Bool-cases (ltb r 65_536)) [
          | inl e3 ↦
              let b : r < 65_536 = ground arith in
              rw (encode_three r a b h, decode_three r t a b h) refl
          | inr e3 ↦
              let c : 65_536 ≤ r = ground arith in
              let b : r ≤ 1_114_111 = ground arith in
              rw (encode_four r c b, decode_four r t c b) refl
        ]
  ]
]

-- Decoding gives back the scalar values that were encoded.
pub runes-string_of : (rs : List ℕ) → All IsScalar rs → runes (string_of rs) ≡ rs
unfolding runes string_of
runes-string_of [] _ = refl
runes-string_of (r ∷ rs) (h, hs) =
    runes_after-encode_rune r (string_of rs) h ∙ ap (λ q. r ∷ q) (runes-string_of rs hs)

-- The first `n` runes of a string, as a string, are so many runes.
pub length-runes-cut : (n : ℕ) (s : Text) → length (runes (string_of (take n (runes s)))) ≤ n
length-runes-cut n s =
    let scalars =
      All-of_In IsScalar (take n (runes s))
        (λ r m. All-In IsScalar (runes s) r whole (In-take n r (runes s) m)) in
    rw (runes-string_of (take n (runes s)) scalars) (length-take-le n (runes s))
  where
    whole : All IsScalar (runes s)
    whole = unfold runes in runes_after-IsScalar 0 s
