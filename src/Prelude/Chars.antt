-- ===== src/Prelude/Chars.antt =====
-- The characters of numbers: Rust's `char::from_u32`, and texts of bytes.
use Prim.Native.Nat.{ℕ, Ordering, compare}
use Prim.Native.Char.{Char, IsLt, IsScalar, char}
use Prim.Native.String
use mathlib.Core.Option.{Option, none, some}
use mathlib.Core.List.{List, [], ◌∷◌}

-- `IsScalar` of a number, by its comparisons with the ends of the surrogates and 0x110000
abbrev AboveSurrogates : Ordering → Ordering → Type 0
AboveSurrogates Ordering.lt b = IsLt b
AboveSurrogates Ordering.eq b = ⊥
AboveSurrogates Ordering.gt b = ⊥

abbrev Scalar : Ordering → Ordering → Ordering → Type 0
Scalar Ordering.lt a b = Unit
Scalar Ordering.eq a b = AboveSurrogates a b
Scalar Ordering.gt a b = AboveSurrogates a b

abbrev above? : (a b : Ordering) → Option (AboveSurrogates a b)
above? Ordering.lt Ordering.lt = some tt
above? Ordering.lt Ordering.eq = none
above? Ordering.lt Ordering.gt = none
above? Ordering.eq b = none
above? Ordering.gt b = none

abbrev scalar? : (a b c : Ordering) → Option (Scalar a b c)
scalar? Ordering.lt a b = some tt
scalar? Ordering.eq a b = above? a b
scalar? Ordering.gt a b = above? a b

abbrev char_of : (n : ℕ) → Option (IsScalar n) → Option Char
char_of n none = none
char_of n (some p) = some (char n p)

-- `char::from_u32`
unfoldable pub char? : ℕ → Option Char
char? n = char_of n (scalar? (compare n 55296) (compare 57343 n) (compare n 1114112))

-- U+FFFD in place of no character
abbrev pub char_or : Option Char → Char
char_or none = char 65533 tt
char_or (some c) = c

-- A text of ASCII bytes
unfoldable pub text_of : List ℕ → String.String
unfolding char?
text_of [] = String.[]
text_of (b ∷ bs) = String.◌∷◌ (char_or (char? b)) (text_of bs)
