-- ===== src/Tokens/Binding.antt =====
-- Binding powers: where they lie, and that one level has one associativity.
use thrax.Prelude.{
  suc, ◌<◌, ◌≡◌, ◌⊎◌, refl, Bool, true, ◌==◌, ◌&&◌, ◌||◌, ltb, not, arith, min, Option, none, some,
  inl, inr, Option-cases,
}
use thrax.Prelude.Names.{StrId}
use thrax.Tokens.Kind.{OpDef, role_of, operators, find_op, op_role}
use thrax.Tokens.Power.{Bp, power_of, prefix_power, infix_power}
use thrax.Tokens.Lookup.{all, find_op_passes}

-- The test of the powers of a role, if it has any.
abbrev on_power : (Bp → Bool) → Option Bp → Bool
on_power t none = true
on_power t (some p) = t p

abbrev power_at : OpDef → Option Bp
power_at d = power_of (some (role_of d))

found :
    (s : StrId) (p : Bp)
    → infix_power s ≡ some p
    → (d : OpDef) × (find_op s ≡ some d) × (power_at d ≡ some p)
unfolding infix_power op_role
found s p e = elim (Option-cases (find_op s)) [
  | inl n ↦ absurd (impossible (rw n at e))
  | inr (d, n) ↦ (d, n, rw n at e)
]
  where
    impossible : ◌≡◌ {A = Option Bp} none (some p) → ⊥
    impossible q = cc

passes :
    (t : Bp → Bool) (s : StrId) (p : Bp)
    → all (λ d. on_power t (power_at d)) operators ≡ true
    → infix_power s ≡ some p
    → t p ≡ true
passes t s p h e =
    let (d, f, k) = found s p e in
    rw k at ((find_op_passes (λ d. on_power t (power_at d)) s d h f).0)

abbrev in_range : Bp → Bool
in_range p =
    ltb 0 p.left
    && ltb 0 p.right
    && ltb p.left prefix_power
    && ltb p.right prefix_power
    && (p.left == suc p.right || p.right == suc p.left)

table_range : all (λ d. on_power in_range (power_at d)) operators ≡ true
table_range = refl

-- An infix operator's powers are positive, looser than a prefix operator's, and one apart.
pub infix_power_range :
    (s : StrId) (p : Bp)
    → infix_power s ≡ some p
    → (0 < p.left)
      × (0 < p.right)
      × (p.left < prefix_power)
      × (p.right < prefix_power)
      × ((p.left ≡ suc p.right) ⊎ (p.right ≡ suc p.left))
infix_power_range s p e = let h = passes in_range s p table_range e in ground arith

abbrev agree : Bp → Bp → Bool
agree p q =
    not (min p.left p.right == min q.left q.right) || (p.left == q.left && p.right == q.right)

table_levels :
    all
      (λ d. on_power (λ p. all (λ e. on_power (agree p) (power_at e)) operators) (power_at d))
      operators
    ≡ true
table_levels = refl

-- Two infix operators of one level associate alike.
pub infix_power_level :
    (s t : StrId) (p q : Bp)
    → infix_power s ≡ some p
    → infix_power t ≡ some q
    → min p.left p.right ≡ min q.left q.right
    → (p.left ≡ q.left) × (p.right ≡ q.right)
infix_power_level s t p q e e' h =
    let row =
      passes (λ p. all (λ d. on_power (agree p) (power_at d)) operators) s p table_levels e in
    let a = passes (agree p) t q row e' in ground arith
