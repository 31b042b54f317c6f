-- ===== src/Json/Printable.antt =====
-- The writer puts no control character on the output, so a message has no line break in it.
use Prim.Native.Char.{Char, code}
use thrax.Prelude.{
  ℕ, zero, suc, ◌/◌, ◌%◌, ◌≤◌, ◌≡◌, Bool, true, false, ◌&&◌, ◌==◌, ltb, leb, leb→le, &&-eq-true,
  refl, if◌then◌else◌, List, [], ◌∷◌, ◌++◌, get_or, All, All-append, arith,
}
use thrax.Json.Value.{
  Text, chars, Float, Json, Items, Pairs, null, bool, num, str, arr, obj, no_items, item, no_pairs,
  pair,
}
use thrax.Json.Writer.{
  Floats, hex_digits, hex_digit, hex4, write_char, write_chars, write_str, write_num, comma, write,
  write_items, write_pairs,
}

abbrev pub IsPrintable : Char → Type 0
IsPrintable c = 32 ≤ code c

abbrev pub Printed : Text → Type 0
Printed = All IsPrintable

join : (s t : Text) → Printed s → Printed t → Printed (s ++ t)
join = All-append IsPrintable

-- The test of a literal, by evaluation.
abbrev printed : Text → Bool
printed [] = true
printed (c ∷ s) = leb 32 (code c) && printed s

by_test : (s : Text) → printed s ≡ true → Printed s
by_test [] h = tt
by_test (c ∷ s) h =
    let (a, b) = &&-eq-true (leb 32 (code c)) (printed s) h in (leb→le 32 (code c) a, by_test s b)

abbrev all_printed : List Text → Bool
all_printed [] = true
all_printed (t ∷ ts) = printed t && all_printed ts

get_or-Printed : (ts : List Text) (i : ℕ) → all_printed ts ≡ true → Printed (get_or ts i [])
get_or-Printed [] i h = tt
get_or-Printed (t ∷ ts) zero h = by_test t ((&&-eq-true (printed t) (all_printed ts) h).0)
get_or-Printed (t ∷ ts) (suc i) h =
    get_or-Printed ts i ((&&-eq-true (printed t) (all_printed ts) h).1)

hex_digit-Printed : (n : ℕ) → Printed (hex_digit n)
hex_digit-Printed n = get_or-Printed hex_digits (n % 16) refl

hex4-Printed : (n : ℕ) → Printed (hex4 n)
hex4-Printed n =
    join (hex_digit (n / 4096)) (hex_digit (n / 256) ++ (hex_digit (n / 16) ++ hex_digit n))
      (hex_digit-Printed (n / 4096))
      (join (hex_digit (n / 256)) (hex_digit (n / 16) ++ hex_digit n) (hex_digit-Printed (n / 256))
        (join (hex_digit (n / 16)) (hex_digit n) (hex_digit-Printed (n / 16))
          (hex_digit-Printed n)))

either :
    (b : Bool) (s t : Text) → Printed s → (b ≡ false → Printed t) → Printed (if b then s else t)
either true s t h k = h
either false s t h k = k refl

write_char-Printed : (c : Char) → Printed (write_char c)
unfolding write_char
write_char-Printed c = either (code c == 34) (chars "\\\"") _ (by_test (chars "\\\"") refl) (λ a.
    either (code c == 92) (chars "\\\\") _ (by_test (chars "\\\\") refl) (λ b.
      either (code c == 10) (chars "\\n") _ (by_test (chars "\\n") refl) (λ d.
        either (code c == 13) (chars "\\r") _ (by_test (chars "\\r") refl) (λ e.
          either (code c == 9) (chars "\\t") _ (by_test (chars "\\t") refl) (λ f.
            either (ltb (code c) 32) (chars "\\u" ++ hex4 (code c)) (c ∷ [])
              (join (chars "\\u") (hex4 (code c)) (by_test (chars "\\u") refl)
                (hex4-Printed (code c)))
              (λ g. (ground arith, tt)))))))

write_str-Printed : (s : Text) → Printed (write_str s)
unfolding write_str write_chars
write_str-Printed s =
    join (chars "\"") (write_chars s ++ chars "\"") (by_test (chars "\"") refl)
      (join (write_chars s) (chars "\"") (body s) (by_test (chars "\"") refl))
  where
    body : (s : Text) → Printed (write_chars s)
    body [] = tt
    body (c ∷ s) = join (write_char c) (write_chars s) (write_char-Printed c) (body s)

comma-Printed : (b : Bool) → Printed (comma b)
comma-Printed true = tt
comma-Printed false = by_test (chars ",") refl

module _ (f : Floats) (ints : (n : Float) → Printed (f.show_int n))
    (floats : (n : Float) → Printed (f.show_float n)) where
  write_num-Printed : (n : Float) → Printed (write_num f n)
  unfolding write_num
  write_num-Printed n = either (f.is_whole n && f.is_small n) (f.show_int n) _ (ints n) (λ a.
      either (f.is_finite n) (f.show_float n) (chars "null") (floats n)
        (λ b. by_test (chars "null") refl))

  mutual
    unfolding write

    json-Printed : (j : Json) → Printed (write f j)
    json-Printed null = by_test (chars "null") refl
    json-Printed (bool true) = by_test (chars "true") refl
    json-Printed (bool false) = by_test (chars "false") refl
    json-Printed (num n) = write_num-Printed n
    json-Printed (str s) = write_str-Printed s
    json-Printed (arr xs) =
        join (chars "[") (write_items f true xs ++ chars "]") (by_test (chars "[") refl) (
          join (write_items f true xs) (chars "]") (write_items-Printed true xs)
            (by_test (chars "]") refl))
    json-Printed (obj ps) =
        join (chars "{") (write_pairs f true ps ++ chars "}") (by_test (chars "{") refl) (
          join (write_pairs f true ps) (chars "}") (write_pairs-Printed true ps)
            (by_test (chars "}") refl))

    write_items-Printed : (first : Bool) (xs : Items) → Printed (write_items f first xs)
    write_items-Printed first no_items = tt
    write_items-Printed first (item x xs) =
        join (comma first) (write f x ++ write_items f false xs) (comma-Printed first) (
          join (write f x) (write_items f false xs) (json-Printed x) (write_items-Printed false xs))

    write_pairs-Printed : (first : Bool) (ps : Pairs) → Printed (write_pairs f first ps)
    write_pairs-Printed first no_pairs = tt
    write_pairs-Printed first (pair k v ps) =
        join (comma first) (write_str k ++ (chars ":" ++ (write f v ++ write_pairs f false ps)))
          (comma-Printed first)
          (join (write_str k) (chars ":" ++ (write f v ++ write_pairs f false ps))
            (write_str-Printed k)
            (join (chars ":") (write f v ++ write_pairs f false ps) (by_test (chars ":") refl) (
              join (write f v) (write_pairs f false ps) (json-Printed v)
                (write_pairs-Printed false ps))))

-- If the texts of numbers have no control character, the text of a value has none.
pub write-Printed :
    (f : Floats) (j : Json)
    → ((n : Float) → Printed (f.show_int n))
    → ((n : Float) → Printed (f.show_float n))
    → Printed (write f j)
write-Printed f j ints floats = json-Printed f ints floats j
