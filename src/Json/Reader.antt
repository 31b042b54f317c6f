-- ===== src/Json/Reader.antt =====
-- `Reader::string`, `Reader::value` and `Json::parse`. The fuel bounds the nesting and the number of
-- characters and members; it has no counterpart in the source.
use Prim.Native.Nat.{bit_and}
use Prim.Native.Char.{Char, char, code}
use thrax.Prelude.{
  ℕ, zero, suc, ◌+◌, ◌-◌, ◌*◌, ◌^◌, ◌%◌, true, false, ◌&&◌, ◌||◌, ◌==◌, ltb, leb, Option, none,
  some, [], ◌∷◌, length, if◌then◌else◌,
}
use thrax.Prelude.Chars.{char?, char_or}
use thrax.Json.Value.{
  Text, chars, Float, Json, Items, Pairs, null, bool, str, arr, obj, no_items, item, no_pairs, pair,
}
use thrax.Json.Scan.{
  expected_comma_or_bracket, expected_comma_or_brace, expected_key, expected_value,
  truncated_escape, bad_unicode_escape, bad_escape, unterminated, trailing_characters, out_of_fuel,
  Parsed, ok, err, ws, expect, number, read_hex4,
}

-- `char::from_u32(code).unwrap_or('\u{FFFD}')`
unfoldable pub from_u32 : ℕ → Char
unfolding char?
from_u32 n = char_or (char? n)

abbrev pub push : Char → Parsed Text → Parsed Text
push c (ok s rest) = ok (c ∷ s) rest
push c (err e) = err e

-- The second half of a surrogate pair, with `hi` the first
abbrev pub low_half : (Text → Parsed Text) → ℕ → Option (ℕ × Text) → Parsed Text
low_half next hi none = err bad_unicode_escape
low_half next hi (some (lo, s)) =
    push (from_u32 (65536 + (hi - 55296) * 1024 + bit_and ((lo + 2 ^ 32 - 56320) % 2 ^ 32) 1023))
      (next s)

abbrev pub unicode : (Text → Parsed Text) → Option (ℕ × Text) → Parsed Text
unicode next none = err bad_unicode_escape
unicode next (some (hi, s)) =
    if leb 55296 hi && ltb hi 56320
    then expect (chars "\\u") s (λ t. low_half next hi (read_hex4 t))
    else push (from_u32 hi) (next s)

unfoldable pub escape : (Text → Parsed Text) → Text → Parsed Text
unfolding from_u32 expect read_hex4
escape next [] = err truncated_escape
escape next (c ∷ s) =
    if code c == 34
    then push (char 34 tt) (next s)
    else if code c == 92
    then push (char 92 tt) (next s)
    else if code c == 47
    then push (char 47 tt) (next s)
    else if code c == 98
    then push (char 8 tt) (next s)
    else if code c == 102
    then push (char 12 tt) (next s)
    else if code c == 110
    then push (char 10 tt) (next s)
    else if code c == 114
    then push (char 13 tt) (next s)
    else if code c == 116
    then push (char 9 tt) (next s)
    else if code c == 117
    then unicode next (read_hex4 s)
    else err bad_escape

-- A string after its opening quote
unfoldable pub string : ℕ → Text → Parsed Text
unfolding escape
string zero s = err out_of_fuel
string (suc f) [] = err unterminated
string (suc f) (c ∷ s) =
    if code c == 34
    then ok [] s
    else if code c == 92
    then escape (string f) s
    else push c (string f s)

abbrev pub and_then : {A B : Type 0} → Parsed A → (A → Text → Parsed B) → Parsed B
and_then (ok a s) next = next a s
and_then (err e) next = err e

abbrev pub more_items : Json → (Text → Parsed Items) → Text → Parsed Items
more_items v next [] = err expected_comma_or_bracket
more_items v next (c ∷ s) =
    if code c == 44
    then and_then (next s) (λ vs t. ok (item v vs) t)
    else if code c == 93
    then ok (item v no_items) s
    else err expected_comma_or_bracket

abbrev pub more_pairs : Text → Json → (Text → Parsed Pairs) → Text → Parsed Pairs
more_pairs k v next [] = err expected_comma_or_brace
more_pairs k v next (c ∷ s) =
    if code c == 44
    then and_then (next s) (λ vs t. ok (pair k v vs) t)
    else if code c == 125
    then ok (pair k v no_pairs) s
    else err expected_comma_or_brace

abbrev pub one_pair : ℕ → (Text → Parsed Json) → (Text → Parsed Pairs) → Text → Parsed Pairs
one_pair f value next [] = err expected_key
one_pair f value next (c ∷ s) =
    if code c == 34
    then and_then (string f s) (λ k t.
      expect (chars ":") (ws t) (λ u. and_then (value u) (λ v r. more_pairs k v next (ws r))))
    else err expected_key

-- What follows `[` or `{`: nothing but its close, or members
abbrev pub array_from : (Text → Parsed Items) → Text → Text → Parsed Json
array_from items [] s = and_then (items s) (λ vs t. ok (arr vs) t)
array_from items (c ∷ t) s =
    if code c == 93 then ok (arr no_items) t else and_then (items s) (λ vs u. ok (arr vs) u)

abbrev pub object_from : (Text → Parsed Pairs) → Text → Text → Parsed Json
object_from pairs [] s = and_then (pairs s) (λ vs t. ok (obj vs) t)
object_from pairs (c ∷ t) s =
    if code c == 125 then ok (obj no_pairs) t else and_then (pairs s) (λ vs u. ok (obj vs) u)

-- A value after white space, with the loops over members
abbrev pub value_from :
    ℕ → (Text → Option Float) → (Text → Parsed Items) → (Text → Parsed Pairs) → Text → Parsed Json
value_from f parse_float items pairs [] = err expected_value
value_from f parse_float items pairs (c ∷ s) =
    if code c == 110
    then expect (chars "null") (c ∷ s) (λ t. ok null t)
    else if code c == 116
    then expect (chars "true") (c ∷ s) (λ t. ok (bool true) t)
    else if code c == 102
    then expect (chars "false") (c ∷ s) (λ t. ok (bool false) t)
    else if code c == 34
    then and_then (string f s) (λ k t. ok (str k) t)
    else if code c == 91
    then array_from items (ws s) (ws s)
    else if code c == 123
    then object_from pairs (ws s) (ws s)
    else if code c == 45 || leb 48 (code c) && leb (code c) 57
    then number parse_float (c ∷ s)
    else err expected_value

unfoldable mutual
  unfolding string expect ws number

  pub value : ℕ → (Text → Option Float) → Text → Parsed Json
  value zero parse_float s = err out_of_fuel
  value (suc f) parse_float s =
      value_from f parse_float (items f parse_float) (pairs f parse_float) (ws s)

  pub items : ℕ → (Text → Option Float) → Text → Parsed Items
  items zero parse_float s = err out_of_fuel
  items (suc f) parse_float s =
      and_then (value f parse_float s) (λ v t. more_items v (items f parse_float) (ws t))

  pub pairs : ℕ → (Text → Option Float) → Text → Parsed Pairs
  pairs zero parse_float s = err out_of_fuel
  pairs (suc f) parse_float s = one_pair f (value f parse_float) (pairs f parse_float) (ws s)

abbrev pub at_end : Json → Text → Parsed Json
at_end v [] = ok v []
at_end v (c ∷ s) = err trailing_characters

unfoldable pub parse : (Text → Option Float) → Text → Parsed Json
unfolding value ws
parse parse_float s = and_then (value (2 * length s + 2) parse_float s) (λ v t. at_end v (ws t))
