-- ===== src/Tokens/Laws.antt =====
-- The lexemes of the operator table against the class of operator characters.
use Prim.Native.Char.{code}
use Prim.Native.String
use thrax.Prelude.{
  ℕ, ◌≡◌, refl, Bool, true, false, ◌&&◌, Option, none, some, inl, inr, Option-cases,
}
use mathlib.Core.Option.{some_inj}
use thrax.Prelude.Names.{StrId}
use thrax.Tokens.Kind.{Kind, OpDef, lexeme_of, kind, operators, find_op, operator, is_operator_char}
use thrax.Tokens.Lookup.{all, find_op_passes}

-- Every character is of the class; for the tables' lexemes, which are ASCII, a character is a byte.
abbrev pub each : (ℕ → Bool) → StrId → Bool
each p String.[] = true
each p (String.◌∷◌ c s) = p (code c) && each p s

abbrev pub is_some {ℓ} : {A : Type ℓ} → Option A → Bool
is_some none = false
is_some (some a) = true

pub found :
    (s : StrId) (k : Kind) → operator s ≡ some k → (d : OpDef) × (find_op s ≡ some d) × (kind d ≡ k)
unfolding operator
found s k e = elim (Option-cases (find_op s)) [
  | inl n ↦ absurd (impossible (rw n at e))
  | inr (d, n) ↦ (d, n, some_inj.0 (rw n at e))
]
  where
    impossible : ◌≡◌ {A = Option Kind} none (some k) → ⊥
    impossible q = cc

table_chars : all (λ d. each is_operator_char (lexeme_of d)) operators ≡ true
unfolding is_operator_char
table_chars = refl

-- A lexeme of the operator table is a run of operator characters.
pub operator_chars : (s : StrId) (k : Kind) → operator s ≡ some k → each is_operator_char s ≡ true
operator_chars s k e =
    let (d, f, _) = found s k e in
    let (t, q) = find_op_passes (λ d. each is_operator_char (lexeme_of d)) s d table_chars f in
    rw q at t
