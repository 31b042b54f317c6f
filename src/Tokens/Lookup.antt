-- ===== src/Tokens/Lookup.antt =====
-- What a lookup in a table finds, from a test of the whole table.
use thrax.Prelude.{◌≡◌, Bool, true, ◌&&◌, &&-eq-true, Bool-cases, inl, inr, some, List, [], ◌∷◌}
use mathlib.Core.Option.{some_inj}
use thrax.Prelude.Names.{StrId, eq_str, eq_str→eq}
use thrax.Tokens.Kind.{OpDef, lexeme_of, operators, first, find_op}

module _ {A : Type 0} where
  abbrev pub all : (A → Bool) → List A → Bool
  all t [] = true
  all t (x ∷ xs) = t x && all t xs

  pub first_passes :
      (t p : A → Bool) (xs : List A) (x : A)
      → all t xs ≡ true
      → first p xs ≡ some x
      → (t x ≡ true) × (p x ≡ true)
  unfolding first
  first_passes t p [] x h e = cc
  first_passes t p (y ∷ xs) x h e =
      let (now, later) = &&-eq-true (t y) (all t xs) h in
      elim (Bool-cases (p y)) [
        | inl k ↦ let q = some_inj.0 (rw k at e) in (rw (← q) now, rw (← q) k)
        | inr k ↦ first_passes t p xs x later (rw k at e)
      ]

  pub all_member :
      (t p : A → Bool) (xs : List A) (x : A) → all t xs ≡ true → first p xs ≡ some x → t x ≡ true
  all_member t p xs x h e = (first_passes t p xs x h e).0

-- A test that all operators pass holds of the one that is found, which has the lexeme looked up.
pub find_op_passes :
    (t : OpDef → Bool) (s : StrId) (d : OpDef)
    → all t operators ≡ true
    → find_op s ≡ some d
    → (t d ≡ true) × (lexeme_of d ≡ s)
unfolding find_op
find_op_passes t s d h e =
    let (a, b) = first_passes t (λ x. eq_str (lexeme_of x) s) operators d h e in
    (a, eq_str→eq (lexeme_of d) s b)
