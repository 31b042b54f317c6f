-- ===== src/Sizes/Tests.antt =====
-- Sizes at concrete ones, and the theorems on them.
use thrax.Prelude.{ℕ, ◌+◌, ◌≡◌, refl, some, [], ◌∷◌, arith}
use thrax.Sizes.Poly.{
  Size, nat, var, nat_add, nat_mul, normalize_size, nat_value, unified, size_mismatch, bind,
  unify_size,
}
use thrax.Sizes.Value.{Same, value, poly_value, normalize_size-value}
use thrax.Sizes.Unify.{IsUnified, nat_value_lem, unify_size-IsUnified}
use thrax.Sizes.Canonical.{IsCanonical}
use thrax.Sizes.Normal.{normalize_size-IsCanonical}
use thrax.Sizes.Unique.{normalize_size_comm}

-- (v1 + 2) * (v0 + v1)
abbrev area : Size
area = nat_mul (nat_add (var 1) (nat 2)) (nat_add (var 0) (var 1))

-- (v0 + v1) * v1 + 2 * v1 + 2 * v0
abbrev sum : Size
sum =
    nat_add (nat_mul (nat_add (var 0) (var 1)) (var 1))
      (nat_add (nat_mul (nat 2) (var 1)) (nat_mul (nat 2) (var 0)))

normalize_size-area :
    normalize_size area ≡ (2, 0 ∷ []) ∷ (1, 0 ∷ 1 ∷ []) ∷ (2, 1 ∷ []) ∷ (1, 1 ∷ 1 ∷ []) ∷ []
unfolding normalize_size
normalize_size-area = refl

unify_size-examples :
    (unify_size area sum ≡ unified)
    × (unify_size (var 3) area ≡ bind 3 area)
    × (unify_size area (nat_add (var 3) (nat 0)) ≡ bind 3 area)
    × (unify_size (nat_add (var 3) (nat 1)) (nat 5) ≡ size_mismatch)
    × (unify_size (var 3) (nat_add (var 3) (nat 1)) ≡ size_mismatch)
unfolding unify_size
unify_size-examples = (refl, refl, refl, refl, refl)

nat_value-wraps : nat_value (nat_add (nat 18446744073709551615) (nat 3)) ≡ some 2
unfolding nat_value
nat_value-wraps = refl

abbrev reading : ℕ → ℕ
reading v = v + 5

normalize_size-value_example : Same (poly_value reading (normalize_size area)) (value reading area)
normalize_size-value_example = normalize_size-value reading area

nat_value_lem_example : Same (value reading (nat_add (nat 18446744073709551615) (nat 3))) 2
nat_value_lem_example =
    nat_value_lem (nat_add (nat 18446744073709551615) (nat 3)) 2 nat_value-wraps reading

-- A variable against a size that has it not
unify_size-IsUnified_example : IsUnified (var 3) area (unify_size (var 3) area)
unify_size-IsUnified_example = unify_size-IsUnified (var 3) area tt ((tt, tt), (tt, tt))

normalize_size-IsCanonical_example : IsCanonical (normalize_size area)
normalize_size-IsCanonical_example = normalize_size-IsCanonical area ((tt, omega arith), (tt, tt))

normalize_size_comm_example :
    (normalize_size (nat_add area (var 7)) ≡ normalize_size (nat_add (var 7) area))
    × (unify_size (nat_add area (var 7)) (nat_add (var 7) area) ≡ unified)
normalize_size_comm_example = normalize_size_comm area (var 7) ((tt, omega arith), (tt, tt)) tt
