-- ===== src/Json/Writer.antt =====
-- `Json::write` and `write_str`: what they push on the output.
use Prim.Native.Char.{Char, code}
use thrax.Prelude.{
  ℕ, ◌/◌, ◌%◌, Bool, true, false, ◌&&◌, ◌==◌, ltb, List, [], ◌∷◌, ◌++◌, get_or, if◌then◌else◌,
}
use thrax.Json.Value.{
  Text, chars, Float, Json, Items, Pairs, null, bool, num, str, arr, obj, no_items, item, no_pairs,
  pair,
}

-- What the writer asks of an `f64`: `fract() == 0.0`, `abs() < 9.0e15`, `is_finite()`, and its text
-- as an `i64` and as itself.
pub record Floats : Type 0 where
  pub is_whole : Float → Bool
  pub is_small : Float → Bool
  pub is_finite : Float → Bool
  pub show_int : Float → Text
  pub show_float : Float → Text

abbrev pub hex_digits : List Text
hex_digits =
    chars "0"
    ∷ chars "1"
    ∷ chars "2"
    ∷ chars "3"
    ∷ chars "4"
    ∷ chars "5"
    ∷ chars "6"
    ∷ chars "7"
    ∷ chars "8"
    ∷ chars "9"
    ∷ chars "a"
    ∷ chars "b"
    ∷ chars "c"
    ∷ chars "d"
    ∷ chars "e"
    ∷ chars "f"
    ∷ []

abbrev pub hex_digit : ℕ → Text
hex_digit n = get_or hex_digits (n % 16) []

-- `{:04x}` of a number below 65536
abbrev pub hex4 : ℕ → Text
hex4 n = hex_digit (n / 4096) ++ (hex_digit (n / 256) ++ (hex_digit (n / 16) ++ hex_digit n))

-- The codes are those of `"`, `\`, newline, carriage return and tab.
unfoldable pub write_char : Char → Text
write_char c =
    if code c == 34
    then chars "\\\""
    else if code c == 92
    then chars "\\\\"
    else if code c == 10
    then chars "\\n"
    else if code c == 13
    then chars "\\r"
    else if code c == 9
    then chars "\\t"
    else if ltb (code c) 32
    then chars "\\u" ++ hex4 (code c)
    else c ∷ []

unfoldable pub write_chars : Text → Text
unfolding write_char
write_chars [] = []
write_chars (c ∷ s) = write_char c ++ write_chars s

unfoldable pub write_str : Text → Text
unfolding write_chars
write_str s = chars "\"" ++ (write_chars s ++ chars "\"")

unfoldable pub write_num : Floats → Float → Text
write_num f n =
    if f.is_whole n && f.is_small n
    then f.show_int n
    else if f.is_finite n
    then f.show_float n
    else chars "null"

-- The comma before every member but the first
abbrev pub comma : Bool → Text
comma true = []
comma false = chars ","

unfoldable mutual
  unfolding write_num write_str

  pub write : Floats → Json → Text
  write f null = chars "null"
  write f (bool true) = chars "true"
  write f (bool false) = chars "false"
  write f (num n) = write_num f n
  write f (str s) = write_str s
  write f (arr xs) = chars "[" ++ (write_items f true xs ++ chars "]")
  write f (obj ps) = chars "{" ++ (write_pairs f true ps ++ chars "}")

  pub write_items : Floats → Bool → Items → Text
  write_items f first no_items = []
  write_items f first (item x xs) = comma first ++ (write f x ++ write_items f false xs)

  pub write_pairs : Floats → Bool → Pairs → Text
  write_pairs f first no_pairs = []
  write_pairs f first (pair k v ps) =
      comma first ++ (write_str k ++ (chars ":" ++ (write f v ++ write_pairs f false ps)))
