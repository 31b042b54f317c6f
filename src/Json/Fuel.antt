-- ===== src/Json/Fuel.antt =====
-- The parser's fuel is enough for every text: a value, an item or a pair takes at least one character.
use Prim.Native.Char.{Char, code}
use thrax.Prelude.{
  ℕ, zero, suc, ◌+◌, ◌*◌, ◌≤◌, ◌<◌, ◌≡◌, ◌≢◌, subst, true, ◌&&◌, ◌||◌, ◌==◌, leb, if_cases, Option,
  none, some, [], ◌∷◌, length, arith,
}
use thrax.Json.Value.{Text, chars, Float, Json, Items, Pairs, str, arr, obj, item, pair}
use thrax.Json.Scan.{
  out_of_fuel, Parsed, ok, err, ws, expect, is_number_char, number_text, number_from, number,
}
use thrax.Json.Reader.{
  string, more_items, more_pairs, one_pair, array_from, object_from, value_from, value, items,
  pairs, at_end, parse,
}
use thrax.Json.Leaves.{
  Leaves, less_left, Leaves-and_then, length-ws, Leaves-expect, Leaves-expect_some, Leaves-string,
}

length-number_text : (s : Text) → length ((number_text s).1) ≤ length s
unfolding number_text
length-number_text [] = omega arith
length-number_text (c ∷ s) =
    if_cases (λ (r : Text × Text). length r.1 ≤ suc (length s)) (is_number_char (code c)) _ _
      (λ e. omega (arith, length-number_text s)) (λ e. omega arith)

module _ (parse_float : Text → Option Float) where
  Leaves-number :
      (c : Char) (s : Text)
      → (code c == 45 || leb 48 (code c) && leb (code c) 57) ≡ true
      → Leaves (suc (length s)) (number parse_float (c ∷ s))
  unfolding number number_text is_number_char
  Leaves-number c s h = rw (digit (code c) h) (
      from (parse_float (c ∷ (number_text s).0)) ((number_text s).1)
        (omega (arith, length-number_text s)))
    where
      digit : (b : ℕ) → (b == 45 || leb 48 b && leb b 57) ≡ true → is_number_char b ≡ true
      digit b h = ground (arith, h)

      from :
          (o : Option Float) (t : Text)
          → length t < suc (length s)
          → Leaves (suc (length s)) (number_from o t)
      from none t l = tt
      from (some n) t l = l

  module _ (n : ℕ) where
    Leaves-more_items :
        (v : Json) (next : Text → Parsed Items) (s : Text)
        → length s < n
        → ((t : Text) → length t < length s → Leaves n (next t))
        → Leaves n (more_items v next s)
    Leaves-more_items v next [] l f = tt
    Leaves-more_items v next (c ∷ s) l f =
        if_cases (Leaves n) (code c == 44) _ _
          (λ e.
            Leaves-and_then n n (next s) (λ vs t. ok (item v vs) t) (f s (omega arith))
              (λ vs t m. m))
          (λ e. if_cases (Leaves n) (code c == 93) _ _ (λ k. omega (arith, l)) (λ k. tt))

    Leaves-more_pairs :
        (k : Text) (v : Json) (next : Text → Parsed Pairs) (s : Text)
        → length s < n
        → ((t : Text) → length t < length s → Leaves n (next t))
        → Leaves n (more_pairs k v next s)
    Leaves-more_pairs k v next [] l f = tt
    Leaves-more_pairs k v next (c ∷ s) l f =
        if_cases (Leaves n) (code c == 44) _ _
          (λ e.
            Leaves-and_then n n (next s) (λ vs t. ok (pair k v vs) t) (f s (omega arith))
              (λ vs t m. m))
          (λ e. if_cases (Leaves n) (code c == 125) _ _ (λ k. omega (arith, l)) (λ k. tt))

    Leaves-array_from :
        (next : Text → Parsed Items) (s : Text)
        → length s < n
        → ((t : Text) → length t ≤ length s → Leaves n (next t))
        → Leaves n (array_from next s s)
    Leaves-array_from next [] l f =
        Leaves-and_then n n (next []) _ (f [] (omega arith)) (λ vs t m. m)
    Leaves-array_from next (c ∷ s) l f =
        if_cases (Leaves n) (code c == 93) _ _ (λ e. omega (arith, l))
          (λ e.
            Leaves-and_then n n (next (c ∷ s)) (λ vs u. ok (arr vs) u) (f (c ∷ s) (omega arith))
              (λ vs t m. m))

    Leaves-object_from :
        (next : Text → Parsed Pairs) (s : Text)
        → length s < n
        → ((t : Text) → length t ≤ length s → Leaves n (next t))
        → Leaves n (object_from next s s)
    Leaves-object_from next [] l f =
        Leaves-and_then n n (next []) _ (f [] (omega arith)) (λ vs t m. m)
    Leaves-object_from next (c ∷ s) l f =
        if_cases (Leaves n) (code c == 125) _ _ (λ e. omega (arith, l))
          (λ e.
            Leaves-and_then n n (next (c ∷ s)) (λ vs u. ok (obj vs) u) (f (c ∷ s) (omega arith))
              (λ vs t m. m))

    Leaves-one_pair :
        (f : ℕ) (first : Text → Parsed Json) (next : Text → Parsed Pairs) (s : Text)
        → length s ≤ n
        → length s < suc f
        → ((t : Text) → length t < length s → Leaves (length t) (first t))
        → ((t : Text) → length t < length s → Leaves n (next t))
        → Leaves n (one_pair f first next s)
    Leaves-one_pair f first next [] l m g h = tt
    Leaves-one_pair f first next (c ∷ s) l m g h =
        if_cases (Leaves n) (code c == 34) _ _
          (λ e.
            Leaves-and_then (length s) n (string f s) _ (Leaves-string f s (omega (arith, m)))
              (λ k t q. Leaves-expect n (chars ":") (ws t) _ (λ u r.
                let short : length u < suc (length s) = omega (arith, q, r, length-ws t) in
                Leaves-and_then (length u) n (first u) _ (g u short) (λ v w x.
                  let less : length (ws w) < length s =
                    omega (arith, q, r, x, length-ws t, length-ws w) in
                  Leaves-more_pairs k v next (ws w) (omega (arith, l, less))
                    (λ y z. h y (omega (arith, less, z)))))))
          (λ e. tt)

    Leaves-value_from :
        (f : ℕ) (items : Text → Parsed Items) (pairs : Text → Parsed Pairs) (s : Text)
        → length s ≤ n
        → length s < suc f
        → ((t : Text) → length t < length s → Leaves n (items t))
        → ((t : Text) → length t < length s → Leaves n (pairs t))
        → Leaves n (value_from f parse_float items pairs s)
    Leaves-value_from f items pairs [] l m g h = tt
    Leaves-value_from f items pairs (c ∷ s) l m g h =
        let short = length-ws s in
        if_cases (Leaves n) (code c == 110) _ _ (λ e. lit _ _ _)
          (λ e.
            if_cases (Leaves n) (code c == 116) _ _ (λ e. lit _ _ _)
              (λ e.
                if_cases (Leaves n) (code c == 102) _ _ (λ e. lit _ _ _)
                  (λ e.
                    if_cases (Leaves n) (code c == 34) _ _
                      (λ e.
                        Leaves-and_then n n (string f s) (λ k t. ok (str k) t)
                          (less_left (length s) n (string f s) (omega (arith, l))
                            (Leaves-string f s (omega (arith, m))))
                          (λ k t q. q))
                      (λ e.
                        if_cases (Leaves n) (code c == 91) _ _
                          (λ e.
                            Leaves-array_from items (ws s) (omega (arith, l, short))
                              (λ t q. g t (omega (arith, q, short))))
                          (λ e.
                            if_cases (Leaves n) (code c == 123) _ _
                              (λ e.
                                Leaves-object_from pairs (ws s) (omega (arith, l, short))
                                  (λ t q. h t (omega (arith, q, short))))
                              (λ e.
                                if_cases (Leaves n)
                                  (code c == 45 || leb 48 (code c) && leb (code c) 57) _ _
                                  (λ e.
                                    less_left (suc (length s)) n (number parse_float (c ∷ s)) l
                                      (Leaves-number c s e))
                                  (λ e. tt)))))))
      where
        lit : (d : Char) (ds : Text) (v : Json) → Leaves n (expect (d ∷ ds) (c ∷ s) (λ t. ok v t))
        lit d ds v = Leaves-expect_some n d ds (c ∷ s) (λ t. ok v t) (λ t q. omega (arith, q, l))

  -- ## Values, with twice the length as fuel

  mutual
    unfolding value

    Leaves-value :
        (f : ℕ) (s : Text) → 2 * length s + 1 ≤ f → Leaves (length s) (value f parse_float s)
    Leaves-value zero s l = absurd (omega arith)
    Leaves-value (suc f) s l =
        let short = length-ws s in
        Leaves-value_from (length s) f (items f parse_float) (pairs f parse_float) (ws s) short
          (omega (arith, l, short))
          (λ t q.
            less_left (length t) (length s) (items f parse_float t) (omega (arith, q, short))
              (Leaves-items f t (omega (arith, l, q, short))))
          (λ t q.
            less_left (length t) (length s) (pairs f parse_float t) (omega (arith, q, short))
              (Leaves-pairs f t (omega (arith, l, q, short))))

    Leaves-items :
        (f : ℕ) (s : Text) → 2 * length s + 2 ≤ f → Leaves (length s) (items f parse_float s)
    Leaves-items zero s l = absurd (omega arith)
    Leaves-items (suc f) s l =
        Leaves-and_then (length s) (length s) (value f parse_float s) _
          (Leaves-value f s (omega (arith, l)))
          (λ v t q.
            Leaves-more_items (length s) v (items f parse_float) (ws t)
              (omega (arith, q, length-ws t))
              (λ u r.
                less_left (length u) (length s) (items f parse_float u)
                  (omega (arith, q, r, length-ws t))
                  (Leaves-items f u (omega (arith, l, q, r, length-ws t)))))

    Leaves-pairs :
        (f : ℕ) (s : Text) → 2 * length s + 2 ≤ f → Leaves (length s) (pairs f parse_float s)
    Leaves-pairs zero s l = absurd (omega arith)
    Leaves-pairs (suc f) s l =
        let short = length-ws s in
        Leaves-one_pair (length s) f (value f parse_float) (pairs f parse_float) (ws s) short
          (omega (arith, l, short)) (λ t q. Leaves-value f t (omega (arith, l, q, short)))
          (λ t q.
            less_left (length t) (length s) (pairs f parse_float t) (omega (arith, q, short))
              (Leaves-pairs f t (omega (arith, l, q, short))))

  Leaves-at_end : (n : ℕ) (v : Json) (s : Text) → Leaves (suc n) (at_end v s)
  Leaves-at_end n v [] = omega arith
  Leaves-at_end n v (c ∷ s) = tt

  -- `parse` has enough fuel for every text.
  pub parse_returns : (s : Text) → parse parse_float s ≢ err out_of_fuel
  unfolding parse
  parse_returns s e = subst (Leaves (suc (length s))) e (
      Leaves-and_then (length s) (suc (length s)) (value (2 * length s + 2) parse_float s)
        (λ v t. at_end v (ws t)) (Leaves-value (2 * length s + 2) s (omega arith))
        (λ v t q. Leaves-at_end (length s) v (ws t)))
