-- ===== src/Tokens/Words.antt =====
-- Keywords as identifiers, and the classes of bytes.
use Prim.Native.Char.{code}
use Prim.Native.String
use thrax.Prelude.{
  ℕ, zero, suc, ◌+◌, ◌≤◌, ◌<◌, ◌≡◌, refl, Bool, true, false, ◌&&◌, ◌==◌, leb, leb→le, Option, none,
  some, inl, inr, Option-cases, arith, if◌then◌else◌,
}
use thrax.Prelude.Names.{StrId, eq_str, eq_str→eq}
use thrax.Tokens.Kind.{
  Kind, keywords, first, lookup_str, delimiter, is_digit, is_ident_start, is_ident_cont,
  is_operator_char,
}
use thrax.Tokens.Lookup.{all, first_passes}
use thrax.Tokens.Laws.{each, is_some}

-- The lexer's word: an identifier's first byte, then bytes that continue one.
abbrev pub is_ident : StrId → Bool
is_ident String.[] = false
is_ident (String.◌∷◌ c s) = is_ident_start (code c) && each is_ident_cont s

table_words : all (λ e. is_ident e.0) keywords ≡ true
unfolding is_ident_start is_ident_cont
table_words = refl

-- Every keyword is an identifier.
pub keyword_ident : (s : StrId) (k : Kind) → lookup_str keywords s ≡ some k → is_ident s ≡ true
unfolding lookup_str
keyword_ident s k e = elim (Option-cases (first (λ x. eq_str x.0 s) keywords)) [
  | inl n ↦ absurd (impossible (rw n at e))
  | inr (x, n) ↦
      let (a, b) = first_passes (λ x. is_ident x.0) (λ x. eq_str x.0 s) keywords x table_words n in
      rw (eq_str→eq x.0 s b) at a
]
  where
    impossible : ◌≡◌ {A = Option Kind} none (some k) → ⊥
    impossible q = cc

abbrev count : Bool → ℕ
count b = if b then 1 else 0

-- How many of the classes a byte is in; 34 is the quote and 64 is `@`.
abbrev pub classes : ℕ → ℕ
classes b =
    count (is_digit b)
    + count (is_ident_start b)
    + count (is_operator_char b)
    + count (is_some (delimiter b))
    + count (b == 34)
    + count (b == 64)

abbrev all_below : ℕ → (ℕ → Bool) → Bool
all_below zero t = true
all_below (suc n) t = t n && all_below n t

below : (n : ℕ) (t : ℕ → Bool) (b : ℕ) → all_below n t ≡ true → b < n → t b ≡ true
below zero t b h l = absurd (omega (arith, l))
below (suc n) t b h l = ground (arith, below n t b)

table_classes : all_below 256 (λ b. leb (classes b) 1) ≡ true
unfolding is_digit is_ident_start is_operator_char delimiter
table_classes = refl

-- A byte is in at most one of these classes: digits, identifiers' first bytes, operator characters,
-- delimiters, the quote and `@`.
pub one_class : (b : ℕ) → b < 256 → classes b ≤ 1
one_class b h = leb→le (classes b) 1 (below 256 (λ x. leb (classes x) 1) b table_classes h)
