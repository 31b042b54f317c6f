-- ===== src/Tokens/Kind.antt =====
-- crates/frontend/src/lexer/data.rs: tokens' kinds, and the keyword, operator and delimiter tables.
-- A byte is a native ℕ below 256, and an `f64` is the number that its 64 bits are.
use thrax.Prelude.{ℕ, Bool, ◌==◌, ◌&&◌, ◌||◌, leb, Option, none, some, List, [], ◌∷◌, if◌then◌else◌}
use thrax.Prelude.Int.{ℤ}
use thrax.Prelude.Names.{StrId, eq_str}

abbrev pub Float : Type 0
Float = ℕ

-- Each constructor is the variant of the same name; `if_kw`, `let_kw` and so on are keywords.
pub data Kind : Type 0 where
  int : ℤ → Kind
  real imaginary : Float → Kind
  str word at op : Kind
  eq fat_arrow arrow lambda colon dollar comma dot ellipsis : Kind
  lparen rparen lbrace rbrace lbrack rbrack : Kind
  let_kw in_kw if_kw is_kw else_kw with_kw do_kw ctl_kw defer_kw : Kind
  comment eof : Kind

pub data OpRole : Type 0 where
  structural : Kind → OpRole
  infix_role infix_prefix : (left right : ℕ) → OpRole
  prefix_role delimiter_role : OpRole

pub data OpDef : Type 0 where
  op_def : (lexeme : StrId) (role : OpRole) → OpDef

abbrev pub lexeme_of : OpDef → StrId
lexeme_of (op_def s r) = s

abbrev pub role_of : OpDef → OpRole
role_of (op_def s r) = r

-- `OpDef::kind`
unfoldable pub kind : OpDef → Kind
kind (op_def s (structural k)) = k
kind _ = op

abbrev pub keywords : List (StrId × Kind)
keywords =
    ("let", let_kw)
    ∷ ("in", in_kw)
    ∷ ("if", if_kw)
    ∷ ("is", is_kw)
    ∷ ("else", else_kw)
    ∷ ("with", with_kw)
    ∷ ("do", do_kw)
    ∷ ("ctl", ctl_kw)
    ∷ ("defer", defer_kw)
    ∷ []

abbrev pub operators : List OpDef
operators =
    op_def "\\" (structural lambda)
    ∷ op_def "=" (structural eq)
    ∷ op_def "=>" (structural fat_arrow)
    ∷ op_def "->" (structural arrow)
    ∷ op_def ":" (structural colon)
    ∷ op_def "$" (structural dollar)
    ∷ op_def "+" (infix_role 20 21)
    ∷ op_def "-" (infix_prefix 20 21)
    ∷ op_def "*" (infix_role 30 31)
    ∷ op_def "/" (infix_role 30 31)
    ∷ op_def "%" (infix_role 30 31)
    ∷ op_def "^" (infix_role 35 34)
    ∷ op_def "!" prefix_role
    ∷ op_def "&&&" (infix_role 30 31)
    ∷ op_def "<<<" (infix_role 30 31)
    ∷ op_def ">>>" (infix_role 30 31)
    ∷ op_def "|||" (infix_role 20 21)
    ∷ op_def "^^^" (infix_role 20 21)
    ∷ op_def "~~~" prefix_role
    ∷ op_def "==" (infix_role 10 11)
    ∷ op_def "!=" (infix_role 10 11)
    ∷ op_def ">" (infix_role 10 11)
    ∷ op_def "<" (infix_role 10 11)
    ∷ op_def "<=" (infix_role 10 11)
    ∷ op_def ">=" (infix_role 10 11)
    ∷ op_def "|" delimiter_role
    ∷ op_def "<>" delimiter_role
    ∷ op_def "<|" (infix_role 5 4)
    ∷ op_def "<|>" (infix_role 37 36)
    ∷ op_def "&&" (infix_role 9 10)
    ∷ op_def "||" (infix_role 8 9)
    ∷ op_def ";" (infix_role 2 1)
    ∷ op_def "|>" (infix_role 6 7)
    ∷ op_def "::" (infix_role 15 14)
    ∷ op_def "++" (infix_role 16 17)
    ∷ []

abbrev pub delimiters : List (ℕ × Kind)
delimiters =
    (40, lparen)
    ∷ (41, rparen)
    ∷ (44, comma)
    ∷ (46, dot)
    ∷ (123, lbrace)
    ∷ (125, rbrace)
    ∷ (91, lbrack)
    ∷ (93, rbrack)
    ∷ []

-- `iter().find(..)`, the first member that passes the test
unfoldable pub first {ℓ} : {A : Type ℓ} → (A → Bool) → List A → Option A
first p [] = none
first p (x ∷ xs) = let rest = first p xs in if p x then some x else rest

abbrev pub value_of {ℓ} : {A : Type ℓ} → Option (A × Kind) → Option Kind
value_of none = none
value_of (some (k, v)) = some v

unfoldable pub lookup_str : List (StrId × Kind) → StrId → Option Kind
unfolding first
lookup_str table s = value_of (first (λ e. eq_str e.0 s) table)

-- `Option::unwrap_or`
abbrev pub unwrap_or {ℓ} : {A : Type ℓ} → Option A → A → A
unwrap_or none d = d
unwrap_or (some a) d = a

unfoldable pub keyword_or_word : StrId → Kind
unfolding lookup_str
keyword_or_word s = unwrap_or (lookup_str keywords s) word

unfoldable pub find_op : StrId → Option OpDef
unfolding first
find_op s = first (λ d. eq_str (lexeme_of d) s) operators

abbrev pub kind_in : Option OpDef → Option Kind
kind_in none = none
kind_in (some d) = some (kind d)

unfoldable pub operator : StrId → Option Kind
unfolding find_op kind
operator s = kind_in (find_op s)

abbrev pub role_in : Option OpDef → Option OpRole
role_in none = none
role_in (some d) = some (role_of d)

unfoldable pub op_role : StrId → Option OpRole
unfolding find_op
op_role s = role_in (find_op s)

unfoldable pub delimiter : ℕ → Option Kind
unfolding first
delimiter b = value_of (first (λ e. e.0 == b) delimiters)

-- ## Character classes

abbrev pub between : ℕ → ℕ → ℕ → Bool
between lo hi b = leb lo b && leb b hi

unfoldable pub is_digit : ℕ → Bool
is_digit b = between 48 57 b

unfoldable pub is_hex_digit : ℕ → Bool
is_hex_digit b = between 48 57 b || between 65 70 b || between 97 102 b

unfoldable pub is_bin_digit : ℕ → Bool
is_bin_digit b = b == 48 || b == 49

unfoldable pub is_ident_start : ℕ → Bool
is_ident_start b = between 65 90 b || between 97 122 b || b == 95

unfoldable pub is_ident_cont : ℕ → Bool
is_ident_cont b = between 48 57 b || between 65 90 b || between 97 122 b || b == 95

-- The bytes `!`, `$`, `%`, `&`, `*`, `+`, `-`, `/`, `:`, `;`, `<`, `=`, `>`, `^`, `|`, `~` and `\`.
unfoldable pub is_operator_char : ℕ → Bool
is_operator_char b =
    b == 33
    || b == 36
    || b == 37
    || b == 38
    || b == 42
    || b == 43
    || b == 45
    || b == 47
    || b == 58
    || b == 59
    || b == 60
    || b == 61
    || b == 62
    || b == 94
    || b == 124
    || b == 126
    || b == 92
