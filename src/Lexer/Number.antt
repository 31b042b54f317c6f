-- ===== src/Lexer/Number.antt =====
-- `lex_number` and `lex_radix`. The parse of an `f64` is a parameter.
use thrax.Prelude.{
  ℕ, ◌+◌, ◌-◌, ◌*◌, ◌^◌, Bool, true, false, not, ◌&&◌, ◌||◌, ◌==◌, ltb, leb, Option, none, some, [],
  ◌∷◌, if◌then◌else◌,
}
use thrax.Prelude.Int.{pos}
use thrax.Tokens.Kind.{
  Kind, Float, int, real, imaginary, is_digit, is_hex_digit, is_bin_digit, is_ident_cont,
}
use thrax.Lexer.Cursor.{
  Bytes, Cursor, Lexed, number_parsing_failure, int_literal_range, skip, byte_at, cur, slice_from,
  mk, fail, count_while, scan_while_digit_or_sep,
}

-- `.filter(|&c| c != '_')`
unfoldable pub cleaned : Bytes → Bytes
cleaned [] = []
cleaned (c ∷ cs) = let rest = cleaned cs in if c == b'_' then rest else c ∷ rest

-- `to_digit` of a hexadecimal digit
abbrev pub digit_value : ℕ → ℕ
digit_value b = if leb b b'9' then b - b'0' else if leb b'a' b then b - b'a' + 10 else b - b'A' + 10

unfoldable pub value_from : ℕ → ℕ → Bytes → ℕ
value_from radix n [] = n
value_from radix n (c ∷ cs) = value_from radix (n * radix + digit_value c) cs

-- `i64::from_str_radix` of digits: an error on none, or past the largest `i64`
unfoldable pub parse_int : ℕ → Bytes → Option ℕ
unfolding value_from
parse_int radix [] = none
parse_int radix (c ∷ cs) =
    let n = value_from radix 0 (c ∷ cs) in if ltb n (2 ^ 63) then some n else none

abbrev pub int_token : Cursor → Cursor → Option ℕ → Lexed
int_token start c none = fail int_literal_range start c
int_token start c (some n) = mk (int (pos n)) start c

abbrev pub float_token : (Float → Kind) → Cursor → Cursor → Option Float → Lexed
float_token k start c none = fail number_parsing_failure start c
float_token k start c (some x) = mk (k x) start c

-- After the digits `c`, which begin at `digits`
abbrev pub radix_token : ℕ → Cursor → Cursor → Cursor → Lexed
radix_token radix start digits c =
    if c.at == digits.at
    then fail number_parsing_failure start c
    else int_token start c (parse_int radix (cleaned (slice_from digits c)))

unfoldable pub lex_radix : ℕ → (ℕ → Bool) → Cursor → Lexed
unfolding cleaned parse_int count_while
lex_radix radix member start =
    let digits = skip 2 start in
    radix_token radix start digits (scan_while_digit_or_sep member digits)

-- The fractional part, if there is one: the cursor after it, and whether there is.
unfoldable pub fraction : Cursor → Cursor × Bool
unfolding count_while is_digit
fraction c =
    if cur c == b'.' && is_digit (byte_at c 1)
    then (scan_while_digit_or_sep is_digit (skip 1 c), true)
    else (c, false)

-- The bytes of an exponent before its digits: `e`, and a sign
abbrev pub exponent_head : Cursor → ℕ
exponent_head c = if byte_at c 1 == b'+' || byte_at c 1 == b'-' then 2 else 1

unfoldable pub exponent : Cursor × Bool → Cursor × Bool
unfolding count_while is_digit
exponent (c, is_real) =
    if (cur c == b'e' || cur c == b'E') && is_digit (byte_at c (exponent_head c))
    then (scan_while_digit_or_sep is_digit (skip (exponent_head c) c), true)
    else (c, is_real)

-- From the digits' end, where a suffix `i` may follow
unfoldable pub finish_number : (Bytes → Option Float) → Cursor → Cursor × Bool → Lexed
unfolding cleaned parse_int is_ident_cont
finish_number parse_float start (c, is_real) =
    if cur c == b'i' && not (is_ident_cont (byte_at c 1))
    then float_token imaginary start (skip 1 c) (parse_float (cleaned (slice_from start c)))
    else if is_real
    then float_token real start c (parse_float (cleaned (slice_from start c)))
    else int_token start c (parse_int 10 (cleaned (slice_from start c)))

unfoldable pub lex_number : (Bytes → Option Float) → Cursor → Lexed
unfolding lex_radix fraction exponent finish_number count_while is_digit is_hex_digit is_bin_digit
lex_number parse_float c =
    if cur c == b'0' && (byte_at c 1 == b'x' || byte_at c 1 == b'X')
    then lex_radix 16 is_hex_digit c
    else if cur c == b'0' && (byte_at c 1 == b'b' || byte_at c 1 == b'B')
    then lex_radix 2 is_bin_digit c
    else finish_number parse_float c (exponent (fraction (scan_while_digit_or_sep is_digit c)))
