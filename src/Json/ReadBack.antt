-- ===== src/Json/ReadBack.antt =====
-- The parser reads back a value that the writer wrote.
use Prim.Native.Char.{Char, code}
use thrax.Prelude.{
  ℕ, suc, max, ◌≡◌, refl, ap, ◌∙◌, Bool, true, false, ◌&&◌, ◌||◌, ◌==◌, leb, All, Option, some, [],
  ◌∷◌, ◌++◌, length, arith,
}
use thrax.Json.Value.{
  Text, Float, Json, Items, Pairs, null, bool, num, str, arr, obj, no_items, item, no_pairs, pair,
}
use thrax.Json.Writer.{Floats, write_str, write_num, write}
use thrax.Json.Scan.{Parsed, ok, ws, is_number_char, number_text, number}
use thrax.Json.Reader.{and_then, array_from, value_from, value, items, pairs}

abbrev blank : Char → Bool
blank c = code c == 32 || code c == 9 || code c == 10 || code c == 13

-- What follows a number's text ends it.
abbrev pub Ends : Text → Type 0
Ends [] = Unit
Ends (c ∷ s) = is_number_char (code c) ≡ false

-- A text that begins with a character that is neither white space nor a closing bracket
abbrev pub Begins : Text → Type 0
Begins s = (c : Char) × (w : Text) × (s ≡ c ∷ w) × (blank c ≡ false) × ((code c == 93) ≡ false)

-- A number whose text the parser takes for a number and reads as that number
pub record IsRead (fl : Floats) (parse_float : Text → Option Float) (n : Float) : Type 0 where
  pub first : Char
  pub more : Text
  pub written : write_num fl n ≡ first ∷ more
  pub starts : (code first == 45 || leb 48 (code first) && leb (code first) 57) ≡ true
  pub digits : All (λ c. is_number_char (code c) ≡ true) (first ∷ more)
  pub reads : parse_float (first ∷ more) ≡ some n

number_text-append :
    (s rest : Text)
    → All (λ c. is_number_char (code c) ≡ true) s
    → Ends rest
    → number_text (s ++ rest) ≡ (s, rest)
unfolding number_text
number_text-append [] [] h e = refl
number_text-append [] (c ∷ rest) h e = rw e refl
number_text-append (c ∷ s) rest (k, h) e = rw k (rw (number_text-append s rest h e) refl)

ws-Begins : (s : Text) → Begins s → ws s ≡ s
unfolding ws
ws-Begins s (c, w, e, b, k) = rw e (rw b refl)

pub array_from-Begins :
    (next : Text → Parsed Items) (s : Text)
    → Begins s
    → array_from next (ws s) (ws s) ≡ and_then (next s) (λ vs u. ok (arr vs) u)
array_from-Begins next s (c, w, e, b, k) = rw (ws-Begins s (c, w, e, b, k)) (rw e (rw k refl))

module _ (fl : Floats) (parse_float : Text → Option Float) where
  abbrev mutual
    -- Every number of the value is read back.
    pub AllRead : Json → Type 0
    AllRead (num n) = IsRead fl parse_float n
    AllRead (arr xs) = ItemsRead xs
    AllRead (obj ps) = PairsRead ps
    AllRead _ = Unit

    pub ItemsRead : Items → Type 0
    ItemsRead no_items = Unit
    ItemsRead (item x xs) = AllRead x × ItemsRead xs

    pub PairsRead : Pairs → Type 0
    PairsRead no_pairs = Unit
    PairsRead (pair k v ps) = AllRead v × PairsRead ps

abbrev mutual
  -- The fuel that a value takes
  pub cost : Json → ℕ
  cost (str s) = suc (suc (length s))
  cost (arr xs) = suc (items_cost xs)
  cost (obj ps) = suc (pairs_cost ps)
  cost _ = 1

  pub items_cost : Items → ℕ
  items_cost no_items = 0
  items_cost (item x xs) = suc (max (cost x) (items_cost xs))

  pub pairs_cost : Pairs → ℕ
  pairs_cost no_pairs = 0
  pairs_cost (pair k v ps) = suc (max (suc (length k)) (max (cost v) (pairs_cost ps)))

module _ (fl : Floats) (parse_float : Text → Option Float) where
  pub write-Begins : (v : Json) (t : Text) → AllRead fl parse_float v → Begins (write fl v ++ t)
  unfolding write write_str
  write-Begins null t h = (_, _, refl, refl, refl)
  write-Begins (bool true) t h = (_, _, refl, refl, refl)
  write-Begins (bool false) t h = (_, _, refl, refl, refl)
  write-Begins (num n) t h =
      let s = h.starts in
      (h.first, h.more ++ t, ap (λ r. r ++ t) h.written, ground (arith, s), ground (arith, s))
  write-Begins (str s) t h = (_, _, refl, refl, refl)
  write-Begins (arr xs) t h = (_, _, refl, refl, refl)
  write-Begins (obj ps) t h = (_, _, refl, refl, refl)

  number_dispatch :
      (f : ℕ) (items : Text → Parsed Items) (pairs : Text → Parsed Pairs) (c : Char) (s : Text)
      → (code c == 45 || leb 48 (code c) && leb (code c) 57) ≡ true
      → value_from f parse_float items pairs (c ∷ s) ≡ number parse_float (c ∷ s)
  number_dispatch f items pairs c s h =
      let n : (code c == 110) ≡ false = ground (arith, h) in
      let t : (code c == 116) ≡ false = ground (arith, h) in
      let g : (code c == 102) ≡ false = ground (arith, h) in
      let q : (code c == 34) ≡ false = ground (arith, h) in
      let b : (code c == 91) ≡ false = ground (arith, h) in
      let o : (code c == 123) ≡ false = ground (arith, h) in
      rw n (rw t (rw g (rw q (rw b (rw o (rw h refl))))))

  pub value-num :
      (f : ℕ) (n : Float) (rest : Text)
      → IsRead fl parse_float n
      → Ends rest
      → value (suc f) parse_float (write_num fl n ++ rest) ≡ ok (num n) rest
  unfolding value number
  value-num f n rest h e =
      let start = h.starts in
      let whole : write_num fl n ++ rest ≡ h.first ∷ (h.more ++ rest) =
        ap (λ r. r ++ rest) h.written in
      ap (value_from f parse_float (items f parse_float) (pairs f parse_float)) (
        ws-Begins (write_num fl n ++ rest)
          (h.first, h.more ++ rest, whole, ground (arith, start), ground (arith, start))
        ∙ whole)
      ∙ number_dispatch f (items f parse_float) (pairs f parse_float) h.first (h.more ++ rest) start
      ∙ rw (number_text-append (h.first ∷ h.more) rest h.digits e) (rw h.reads refl)
