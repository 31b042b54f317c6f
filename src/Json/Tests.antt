-- ===== src/Json/Tests.antt =====
-- The theorems on JSON values at concrete ones, and a value written.
use thrax.Prelude.{
  ◌++◌, ◌≢◌, ℕ, ◌≡◌, ◌==◌, refl, true, false, Option, none, some, [], ◌∷◌, arith, if◌then◌else◌,
}
use thrax.Json.Value.{
  Text, chars, eq_text, Json, Pairs, bool, num, str, arr, obj, no_items, item, no_pairs, pair, get,
  set,
}
use thrax.Json.Writer.{Floats, write, write_num, write_chars}
use Prim.Native.Char.{char, code}
use thrax.Json.Scan.{
  ok, err, expected, expected_value, trailing_characters, out_of_fuel, bad_unicode_escape,
  is_number_char,
}
use thrax.Json.Reader.{parse, string}
use thrax.Json.Members.{get-set}
use thrax.Json.Quoted.{string-write_chars}
use thrax.Json.ReadBack.{IsRead}
use thrax.Json.Undo.{parse-write}
use thrax.Json.Fuel.{parse_returns}
use thrax.Json.Printable.{Printed, write-Printed}

-- Numbers that are all shown as one digit
abbrev digits : Floats
digits = record {
  is_whole = λ n. true;
  is_small = λ n. true;
  is_finite = λ n. true;
  show_int = λ n. chars "7";
  show_float = λ n. chars "7.5";
}

abbrev members : Pairs
members = pair (chars "id") (num 7) (pair (chars "say") (str (chars "a\"b\n")) no_pairs)

write-members :
    write digits (arr (item (obj members) (item (bool true) no_items)))
    ≡ chars "[{\"id\":7,\"say\":\"a\\\"b\\n\"},true]"
unfolding write
write-members = refl

write-Printed_example : Printed (write digits (obj members))
write-Printed_example =
    write-Printed digits (obj members) (λ n. (omega arith, tt))
      (λ n. (omega arith, (omega arith, (omega arith, tt))))

get-set_example :
    (get (set (obj members) (chars "id") (bool true)) (chars "id") ≡ bool true)
    × ((other : Text)
        → eq_text (chars "id") other ≡ false
        → get (set (obj members) (chars "id") (bool true)) other ≡ get (obj members) other)
get-set_example = get-set members (chars "id") (bool true)

-- A parser of numbers that reads the digit `7`
abbrev sevens : Text → Option ℕ
sevens [] = none
sevens (c ∷ s) = if code c == 55 then some 7 else none

abbrev value_tree : Json
value_tree = arr (item (obj members) (item (bool true) (item (arr no_items) no_items)))

parse-write_tree : parse sevens (write digits value_tree) ≡ ok value_tree []
unfolding parse write
parse-write_tree = refl

parse-escapes : parse sevens (chars " \"\\u0041\\ud83d\\ude00\\/\" ") ≡ ok (str (chars "A😀/")) []
unfolding parse
parse-escapes = refl

parse-errors :
    (parse sevens (chars "[true,") ≡ err expected_value)
    × (parse sevens (chars "{\"a\" 7}") ≡ err (expected (chars ":")))
    × (parse sevens (chars "null x") ≡ err trailing_characters)
    × (parse sevens (chars "\"\\u12\"") ≡ err bad_unicode_escape)
unfolding parse
parse-errors = (refl, refl, refl, refl)

-- The number 7, whose text is one digit
seven-IsRead : IsRead digits sevens 7
unfolding write_num is_number_char
seven-IsRead = record {
  first = char 55 tt;
  more = [];
  written = refl;
  starts = refl;
  digits = (refl, tt);
  reads = refl;
}

parse-write_example : parse sevens (write digits value_tree) ≡ ok value_tree []
parse-write_example =
    parse-write digits sevens value_tree ((seven-IsRead, (tt, tt)), (tt, (tt, tt)))

string-write_chars_example :
    string 5 (write_chars (chars "a\"\n") ++ (chars "\"" ++ chars ", 1"))
    ≡ ok (chars "a\"\n") (chars ", 1")
string-write_chars_example = string-write_chars 5 (chars "a\"\n") (chars ", 1") (omega arith)

parse_returns_example : parse sevens (chars "[true, {\"a\": [7") ≢ err out_of_fuel
parse_returns_example = parse_returns sevens (chars "[true, {\"a\": [7")
