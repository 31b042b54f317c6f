-- ===== src/Tokens/Power.antt =====
-- crates/frontend/src/parser/table.rs: binding powers, read from the operator table.
use thrax.Prelude.{ℕ, Bool, true, false, ◌||◌, Option, none, some, if◌then◌else◌}
use thrax.Prelude.Names.{StrId, eq_str}
use thrax.Tokens.Kind.{OpRole, infix_role, infix_prefix, prefix_role, delimiter_role, op_role}

pub record Bp : Type 0 where
  pub left : ℕ
  pub right : ℕ

abbrev pub bp : ℕ → ℕ → Bp
bp l r = record { left = l; right = r }

-- `APP` and `PREFIX`
abbrev pub app_power : Bp
app_power = bp 50 51

abbrev pub prefix_power : ℕ
prefix_power = 40

abbrev pub power_of : Option OpRole → Option Bp
power_of (some (infix_role l r)) = some (bp l r)
power_of (some (infix_prefix l r)) = some (bp l r)
power_of _ = none

unfoldable pub infix_power : StrId → Option Bp
unfolding op_role
infix_power o = power_of (op_role o)

unfoldable pub prefix_name : StrId → Option StrId
prefix_name o =
    if eq_str o "-"
    then some "neg"
    else if eq_str o "!"
    then some "not"
    else if eq_str o "~~~"
    then some "complement"
    else none

abbrev pub name_for : Option OpRole → StrId → Option StrId
name_for (some prefix_role) o = prefix_name o
name_for (some (infix_prefix l r)) o = prefix_name o
name_for _ o = none

unfoldable pub prefix : StrId → Option StrId
unfolding op_role prefix_name
prefix o = name_for (op_role o) o

abbrev pub is_delimiter : Option OpRole → Bool
is_delimiter (some delimiter_role) = true
is_delimiter _ = false

unfoldable pub ends_expr : StrId → Bool
unfolding op_role
ends_expr o = is_delimiter (op_role o)

unfoldable pub desugared : StrId → Bool
desugared o =
    eq_str o "&&"
    || eq_str o "||"
    || eq_str o ";"
    || eq_str o "|>"
    || eq_str o "<|"
    || eq_str o "<|>"

unfoldable pub infix_global : StrId → Option StrId
infix_global o = if eq_str o "<|>" then some "compose" else none
