-- ===== src/Json/Scan.antt =====
-- `Reader`'s scanning of white space, literals, numbers and strings. A reader at byte `i` is the text
-- from there on: every step of the code moves `i` past whole characters, as the bytes that it tests
-- are ASCII. The byte offset in an error's message is left out.
use Prim.Native.Char.{code}
use mathlib.Core.Option
use thrax.Prelude.{
  ℕ, ◌+◌, ◌-◌, ◌*◌, Bool, ◌&&◌, ◌||◌, ◌==◌, leb, Option, none, some, [], ◌∷◌, if◌then◌else◌,
}
use thrax.Json.Value.{Text, Float, Json, num}

pub data ReadError : Type 0 where
  expected : Text → ReadError
  expected_comma_or_bracket expected_comma_or_brace expected_key expected_value : ReadError
  bad_number truncated_escape bad_unicode_escape bad_escape unterminated : ReadError
  trailing_characters out_of_fuel : ReadError

pub data Parsed (A : Type 0) : Type 0 where
  ok : A → Text → Parsed A
  err : ReadError → Parsed A

unfoldable pub ws : Text → Text
ws [] = []
ws (c ∷ s) = if code c == 32 || code c == 9 || code c == 10 || code c == 13 then ws s else c ∷ s

unfoldable pub strip : Text → Text → Option Text
strip [] s = some s
strip (d ∷ lit) [] = none
strip (d ∷ lit) (c ∷ s) = if code d == code c then strip lit s else none

-- `expect`, then what is done with the rest
abbrev pub stripped : {A : Type 0} → Text → Option Text → (Text → Parsed A) → Parsed A
stripped lit none next = err (expected lit)
stripped lit (some s) next = next s

unfoldable pub expect : {A : Type 0} → Text → Text → (Text → Parsed A) → Parsed A
unfolding strip
expect lit s next = stripped lit (strip lit s) next

-- `-`, `+`, `.`, `e`, `E` and the digits
unfoldable pub is_number_char : ℕ → Bool
is_number_char b = b == 45 || b == 43 || b == 46 || b == 101 || b == 69 || leb 48 b && leb b 57

unfoldable pub number_text : Text → Text × Text
unfolding is_number_char
number_text [] = ([], [])
number_text (c ∷ s) =
    let rest = number_text s in
    if is_number_char (code c) then (c ∷ rest.0, rest.1) else ([], c ∷ s)

abbrev pub number_from : Option Float → Text → Parsed Json
number_from none s = err bad_number
number_from (some n) s = ok (num n) s

-- `text.parse::<f64>()` is the parameter.
unfoldable pub number : (Text → Option Float) → Text → Parsed Json
unfolding number_text
number parse_float s = let read = number_text s in number_from (parse_float read.0) read.1

abbrev pub hex_value : ℕ → Option ℕ
hex_value b =
    if leb 48 b && leb b 57
    then some (b - 48)
    else if leb 97 b && leb b 102
    then some (b - 87)
    else if leb 65 b && leb b 70
    then some (b - 55)
    else none

abbrev pub more_hex : Option ℕ → Option ℕ → Option ℕ
more_hex (some n) (some d) = some (n * 16 + d)
more_hex _ _ = none

-- `u32::from_str_radix(h, 16)` takes a sign `+` before the digits.
abbrev pub first_hex : ℕ → Option ℕ
first_hex b = if b == 43 then some 0 else hex_value b

unfoldable pub read_hex4 : Text → Option (ℕ × Text)
read_hex4 (a ∷ b ∷ c ∷ d ∷ s) =
    Option.map (λ n. (n, s))
      (more_hex (more_hex (more_hex (first_hex (code a)) (hex_value (code b))) (hex_value (code c)))
        (hex_value (code d)))
read_hex4 _ = none
