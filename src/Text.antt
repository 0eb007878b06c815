-- ===== src/Text.antt =====
-- Go strings, as the list of their bytes, with the operations of the standard library that the
-- program calls on them.
pub mod Order
use Prim.Native.Char.{code}
use Prim.Native.String.{String}
use fcfeeds.Prelude.{
  ℕ, ◌≡◌, refl, ◌↔◌, ◌⊎◌, inl, inr, Bool, true, false, ◌&&◌, ◌||◌, List, [], ◌∷◌, ◌++◌, arith, ◌==◌,
  In, Bool-cases, sym,
}

abbrev pub Text : Type 0
Text = List ℕ

-- The bytes of an ASCII literal.
abbrev pub codes : String → Text
codes String.[] = []
codes (String.◌∷◌ c s) = code c ∷ codes s

-- s == t
unfoldable pub text_eq : Text → Text → Bool
text_eq [] [] = true
text_eq [] (d ∷ t) = false
text_eq (c ∷ s) [] = false
text_eq (c ∷ s) (d ∷ t) = c == d && text_eq s t

pub text_eq_iff : (s t : Text) → (text_eq s t ≡ true) ↔ (s ≡ t)
unfolding text_eq
text_eq_iff [] [] = ground arith
text_eq_iff [] (d ∷ t) = ground arith
text_eq_iff (c ∷ s) [] = ground arith
text_eq_iff (c ∷ s) (d ∷ t) = ground (arith, text_eq_iff s t)

pub text_eq_refl : (s : Text) → text_eq s s ≡ true
text_eq_refl s = (text_eq_iff s s).1 refl

-- s == ""
abbrev pub is_empty : Text → Bool
is_empty [] = true
is_empty (c ∷ s) = false

-- strings.HasPrefix(s, p)
unfoldable pub has_prefix : Text → Text → Bool
has_prefix s [] = true
has_prefix [] (c ∷ p) = false
has_prefix (d ∷ s) (c ∷ p) = d == c && has_prefix s p

-- strings.HasSuffix(s, p)
unfoldable pub has_suffix : Text → Text → Bool
unfolding text_eq
has_suffix [] p = text_eq [] p
has_suffix (c ∷ s) p = text_eq (c ∷ s) p || has_suffix s p

-- strings.Contains(s, p)
unfoldable pub contains : Text → Text → Bool
unfolding has_prefix
contains [] p = has_prefix [] p
contains (c ∷ s) p = has_prefix (c ∷ s) p || contains s p

pub has_suffix-append : (s p : Text) → has_suffix (s ++ p) p ≡ true
unfolding has_suffix
has_suffix-append [] [] = refl
has_suffix-append [] (c ∷ p) = ground (arith, text_eq_refl (c ∷ p))
has_suffix-append (c ∷ s) p = ground (arith, has_suffix-append s p)

-- The text is one of these.
abbrev pub has_text : List Text → Text → Bool
has_text [] t = false
has_text (s ∷ ss) t = text_eq s t || has_text ss t

pub has_text-In : (ss : List Text) (t : Text) → has_text ss t ≡ true → In t ss
has_text-In [] t h = cc
has_text-In (s ∷ ss) t h = elim (Bool-cases (text_eq s t)) [
  | inl e ↦ inl (sym ((text_eq_iff s t).0 e))
  | inr e ↦ inr (has_text-In ss t (ground arith))
]

pub In-has_text : (ss : List Text) (t : Text) → In t ss → has_text ss t ≡ true
In-has_text [] t h = elim h [ ]
In-has_text (s ∷ ss) t (inl e) = ground (arith, text_eq_iff s t, e)
In-has_text (s ∷ ss) t (inr h) = ground (arith, In-has_text ss t h)
