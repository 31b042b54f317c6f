-- ===== src/Tokens/Tests.antt =====
-- The theorems on the tables at lexemes of theirs.
use thrax.Prelude.{ℕ, suc, ◌≤◌, ◌<◌, ◌≡◌, ◌⊎◌, refl, true, arith}
use thrax.Tokens.Kind.{op, operator, op_role, is_operator_char}
use thrax.Tokens.Power.{bp, prefix_power, infix_power}
use thrax.Tokens.Laws.{each, operator_chars}
use thrax.Tokens.Binding.{infix_power_range, infix_power_level}
use thrax.Tokens.Words.{classes, one_class}

operator_chars_example : each is_operator_char "<|>" ≡ true
unfolding operator
operator_chars_example = operator_chars "<|>" op refl

infix_power_range_example :
    (0 < 35)
    × (0 < 34)
    × (35 < prefix_power)
    × (34 < prefix_power)
    × ((◌≡◌ {A = ℕ} 35 (suc 34)) ⊎ (◌≡◌ {A = ℕ} 34 (suc 35)))
unfolding infix_power op_role
infix_power_range_example = infix_power_range "^" (bp 35 34) refl

infix_power_level_example : (◌≡◌ {A = ℕ} 30 30) × (◌≡◌ {A = ℕ} 31 31)
unfolding infix_power op_role
infix_power_level_example = infix_power_level "*" "<<<" (bp 30 31) (bp 30 31) refl refl refl

one_class_example : classes 95 ≤ 1
one_class_example = one_class 95 (omega arith)
