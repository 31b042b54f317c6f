-- ===== src/Json/RoundTrip.antt =====
-- The parser undoes the writer, on values whose numbers it reads back.
use mathlib.Core.List.{append_assoc}
use thrax.Prelude.{
  ℕ, zero, suc, ◌≤◌, ◌<◌, ◌≡◌, refl, sym, ap, ◌∙◌, subst, true, false, Option, [], ◌++◌, length,
  arith,
}
use thrax.Json.Value.{
  Text, chars, Float, Json, Items, Pairs, null, bool, num, str, arr, obj, no_items, item, no_pairs,
  pair,
}
use thrax.Json.Writer.{Floats, write_chars, write_str, write, write_items, write_pairs}
use thrax.Json.Scan.{Parsed, ok, ws, expect, is_number_char}
use thrax.Json.Reader.{string, and_then, more_items, more_pairs, array_from, value, items, pairs}
use thrax.Json.Quoted.{string-write_chars}
use thrax.Json.ReadBack.{
  Begins, Ends, array_from-Begins, AllRead, ItemsRead, PairsRead, cost, items_cost, pairs_cost,
  write-Begins, value-num,
}

-- A key, its value and later members, and what follows them
joined :
    (k w p t : Text)
    → ((k ++ chars "\"") ++ (chars ":" ++ (w ++ p))) ++ t
      ≡ k ++ (chars "\"" ++ (chars ":" ++ (w ++ (p ++ t))))
joined k w p t =
    append_assoc (k ++ chars "\"") (chars ":" ++ (w ++ p)) t
    ∙ append_assoc k (chars "\"") ((chars ":" ++ (w ++ p)) ++ t)
    ∙ ap (λ r. k ++ (chars "\"" ++ (chars ":" ++ r))) (append_assoc w p t)

no_fuel : (v : Json) → cost v ≤ 0 → ⊥
no_fuel null l = omega arith
no_fuel (bool b) l = omega arith
no_fuel (num n) l = omega arith
no_fuel (str s) l = omega arith
no_fuel (arr xs) l = omega arith
no_fuel (obj ps) l = omega arith

abbrev SomeItems : Items → Type 0
SomeItems no_items = ⊥
SomeItems (item x xs) = Unit

abbrev SomePairs : Pairs → Type 0
SomePairs no_pairs = ⊥
SomePairs (pair k v ps) = Unit

module _ (fl : Floats) (parse_float : Text → Option Float) where
  -- What reads the value after a key, and then more members
  abbrev after_key : ℕ → Text → Text → Parsed Pairs
  after_key f k t =
      expect (chars ":") (ws t)
        (λ u. and_then (value f parse_float u) (λ v r. more_pairs k v (pairs f parse_float) (ws r)))

  key_read :
      (k w p t : Text) (f : ℕ)
      → length k < f
      → and_then
          (string f (((write_chars k ++ chars "\"") ++ (chars ":" ++ (w ++ p))) ++ t))
          (after_key f)
        ≡ and_then
            (value f parse_float (w ++ (p ++ t)))
            (λ v r. more_pairs k v (pairs f parse_float) (ws r))
  unfolding expect ws
  key_read k w p t f l =
      ap (λ r. and_then (string f r) (after_key f)) (joined k' w p t)
      ∙ ap (λ r. and_then r (after_key f)) (string-write_chars f k (chars ":" ++ (w ++ (p ++ t))) l)
    where
      k' : Text
      k' = write_chars k

  mutual
    unfolding value write write_str string ws expect is_number_char

    pub value-write :
        (v : Json) (f : ℕ) (rest : Text)
        → AllRead fl parse_float v
        → cost v ≤ f
        → Ends rest
        → value f parse_float (write fl v ++ rest) ≡ ok v rest
    value-write v zero rest h l e = absurd (no_fuel v l)
    value-write null (suc f) rest h l e = refl
    value-write (bool true) (suc f) rest h l e = refl
    value-write (bool false) (suc f) rest h l e = refl
    value-write (num n) (suc f) rest h l e = value-num fl parse_float f n rest h e
    value-write (str s) (suc f) rest h l e =
        ap (λ r. and_then (string f r) (λ k t. ok (str k) t))
          (append_assoc (write_chars s) (chars "\"") rest)
        ∙ ap (λ r. and_then r (λ k t. ok (str k) t))
            (string-write_chars f s rest (omega (arith, l)))
    value-write (arr no_items) (suc f) rest h l e = refl
    value-write (arr (item x xs)) (suc f) rest (h, k) l e =
        let tail = write_items fl false xs ++ (chars "]" ++ rest) in
        ap (λ r. array_from (items f parse_float) (ws r) (ws r))
          (append_assoc (write fl x ++ write_items fl false xs) (chars "]") rest)
        ∙ array_from-Begins (items f parse_float)
            ((write fl x ++ write_items fl false xs) ++ (chars "]" ++ rest))
            (subst Begins
              (sym (append_assoc (write fl x) (write_items fl false xs) (chars "]" ++ rest)))
              (write-Begins fl parse_float x tail h))
        ∙ ap (λ r. and_then r (λ vs u. ok (arr vs) u))
            (items-write (item x xs) f rest (h, k) (omega (arith, l)) tt)
    value-write (obj no_pairs) (suc f) rest h l e = refl
    value-write (obj (pair k v ps)) (suc f) rest (h, g) l e =
        ap (λ r. and_then (pairs f parse_float (chars "\"" ++ r)) (λ vs u. ok (obj vs) u))
          (append_assoc
            ((write_chars k ++ chars "\"")
              ++ (chars ":" ++ (write fl v ++ write_pairs fl false ps)))
            (chars "}") rest)
        ∙ ap (λ r. and_then r (λ vs u. ok (obj vs) u))
            (pairs-write (pair k v ps) f rest (h, g) (omega (arith, l)) tt)

    items-write :
        (xs : Items) (f : ℕ) (rest : Text)
        → ItemsRead fl parse_float xs
        → items_cost xs ≤ f
        → SomeItems xs
        → items f parse_float (write_items fl true xs ++ (chars "]" ++ rest)) ≡ ok xs rest
    items-write no_items f rest h l s = absurd s
    items-write (item x xs) zero rest h l s = absurd (omega arith)
    items-write (item x no_items) (suc f) rest (h, k) l s =
        ap
          (λ r. and_then (value f parse_float r) (λ v t. more_items v (items f parse_float) (ws t)))
          (append_assoc (write fl x) [] (chars "]" ++ rest))
        ∙ rw (value-write x f (chars "]" ++ rest) h (omega (arith, l)) refl) refl
    items-write (item x (item y ys)) (suc f) rest (h, k) l s =
        ap
          (λ r. and_then (value f parse_float r) (λ v t. more_items v (items f parse_float) (ws t)))
          (append_assoc (write fl x) (write_items fl false (item y ys)) (chars "]" ++ rest))
        ∙ rw
            (value-write x f (write_items fl false (item y ys) ++ (chars "]" ++ rest)) h
              (omega (arith, l)) refl)
            (ap (λ r. and_then r (λ vs t. ok (item x vs) t))
              (items-write (item y ys) f rest k (omega (arith, l)) tt))

    pairs-write :
        (ps : Pairs) (f : ℕ) (rest : Text)
        → PairsRead fl parse_float ps
        → pairs_cost ps ≤ f
        → SomePairs ps
        → pairs f parse_float (write_pairs fl true ps ++ (chars "}" ++ rest)) ≡ ok ps rest
    pairs-write no_pairs f rest h l s = absurd s
    pairs-write (pair k v ps) zero rest h l s = absurd (omega arith)
    pairs-write (pair k v no_pairs) (suc f) rest (h, g) l s =
        key_read k (write fl v) [] (chars "}" ++ rest) f (omega (arith, l))
        ∙ rw (value-write v f (chars "}" ++ rest) h (omega (arith, l)) refl) refl
    pairs-write (pair k v (pair k' v' ps)) (suc f) rest (h, g) l s =
        key_read k (write fl v) (write_pairs fl false (pair k' v' ps)) (chars "}" ++ rest) f
          (omega (arith, l))
        ∙ rw
            (value-write v f (write_pairs fl false (pair k' v' ps) ++ (chars "}" ++ rest)) h
              (omega (arith, l)) refl)
            (ap (λ r. and_then r (λ vs t. ok (pair k v vs) t))
              (pairs-write (pair k' v' ps) f rest g (omega (arith, l)) tt))
