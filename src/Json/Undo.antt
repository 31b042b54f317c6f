-- ===== src/Json/Undo.antt =====
-- `parse` undoes `write`: the fuel that it gives is enough for a text that was written.
use mathlib.Core.List.{append-nil}
use thrax.Prelude.{
  ℕ, suc, ◌+◌, ◌*◌, ◌≤◌, ◌<◌, ◌≡◌, sym, ap, ◌∙◌, Bool, true, false, ◌==◌, ltb, Option, [], ◌∷◌,
  ◌++◌, length, length-append, if◌then◌else◌, arith,
}
use Prim.Native.Char.{Char, code}
use thrax.Json.Value.{
  Text, chars, Float, Json, Items, Pairs, null, bool, num, str, arr, obj, no_items, item, no_pairs,
  pair,
}
use thrax.Json.Writer.{
  Floats, comma, hex4, write_char, write_chars, write_str, write, write_items, write_pairs,
}
use thrax.Json.Scan.{ok, ws}
use thrax.Json.Reader.{and_then, value, at_end, parse}
use thrax.Json.ReadBack.{AllRead, ItemsRead, PairsRead, cost, items_cost, pairs_cost}
use thrax.Json.RoundTrip.{value-write}

either_some :
    (b : Bool) (s t : Text) → 0 < length s → 0 < length t → 0 < length (if b then s else t)
either_some true s t h k = h
either_some false s t h k = k

write_char_some : (c : Char) → 0 < length (write_char c)
unfolding write_char
write_char_some c = either_some (code c == 34) (chars "\\\"") _ (omega arith) (
    either_some (code c == 92) (chars "\\\\") _ (omega arith) (
      either_some (code c == 10) (chars "\\n") _ (omega arith) (
        either_some (code c == 13) (chars "\\r") _ (omega arith) (
          either_some (code c == 9) (chars "\\t") _ (omega arith) (
            either_some (ltb (code c) 32) (chars "\\u" ++ hex4 (code c)) (c ∷ []) (omega arith)
              (omega arith))))))

length-write_chars : (s : Text) → length s ≤ length (write_chars s)
unfolding write_chars
length-write_chars [] = omega arith
length-write_chars (c ∷ s) =
    omega
      (arith, length-write_chars s, write_char_some c, length-append (write_char c) (write_chars s))

length-write_str : (s : Text) → suc (suc (length s)) ≤ length (write_str s)
unfolding write_str
length-write_str s = omega (arith, length-write_chars s, length-append (write_chars s) (chars "\""))

module _ (fl : Floats) (parse_float : Text → Option Float) where
  mutual
    unfolding write

    cost-write : (v : Json) → AllRead fl parse_float v → cost v ≤ length (write fl v)
    cost-write null h = omega arith
    cost-write (bool true) h = omega arith
    cost-write (bool false) h = omega arith
    cost-write (num n) h = omega (arith, ap length h.written)
    cost-write (str s) h = length-write_str s
    cost-write (arr xs) h =
        omega
          (arith, items_cost-write true xs h, length-append (write_items fl true xs) (chars "]"))
    cost-write (obj ps) h =
        omega
          (arith, pairs_cost-write true ps h, length-append (write_pairs fl true ps) (chars "}"))

    items_cost-write :
        (first : Bool) (xs : Items)
        → ItemsRead fl parse_float xs
        → items_cost xs + length (comma first) ≤ length (write_items fl first xs) + 1
    items_cost-write true no_items h = omega arith
    items_cost-write false no_items h = omega arith
    items_cost-write first (item x xs) (h, k) = omega (
      arith,
      cost-write x h,
      items_cost-write false xs k,
      length-append (comma first) (write fl x ++ write_items fl false xs),
      length-append (write fl x) (write_items fl false xs),
    )

    pairs_cost-write :
        (first : Bool) (ps : Pairs)
        → PairsRead fl parse_float ps
        → pairs_cost ps + length (comma first) ≤ length (write_pairs fl first ps) + 1
    pairs_cost-write true no_pairs h = omega arith
    pairs_cost-write false no_pairs h = omega arith
    pairs_cost-write first (pair k v ps) (h, g) =
        let body = write fl v ++ write_pairs fl false ps in
        omega (
          arith,
          length-write_str k,
          cost-write v h,
          pairs_cost-write false ps g,
          length-append (comma first) (write_str k ++ (chars ":" ++ body)),
          length-append (write_str k) (chars ":" ++ body),
          length-append (write fl v) (write_pairs fl false ps),
        )

  -- `parse` gives back a value that was written, if the parse of numbers takes the text of each number in
  -- it for that number: see `IsRead`.
  pub parse-write : (v : Json) → AllRead fl parse_float v → parse parse_float (write fl v) ≡ ok v []
  unfolding parse ws
  parse-write v h =
      ap (λ r. and_then r (λ u t. at_end u (ws t)))
        (ap (value fuel parse_float) (sym (append-nil (write fl v)))
          ∙ value-write fl parse_float v fuel [] h (omega (arith, cost-write v h)) tt)
    where
      fuel : ℕ
      fuel = 2 * length (write fl v) + 2
