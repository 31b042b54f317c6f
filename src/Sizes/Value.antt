-- ===== src/Sizes/Value.antt =====
-- The normal form of a size has the size's value modulo 2 ^ 64, whatever its variables stand for.
use thrax.Prelude.{
  ℕ, ◌+◌, ◌*◌, ◌/◌, ◌%◌, ◌≡◌, refl, sym, ap, ap₂, ◌∙◌, true, false, ◌==◌, ltb, &&-eq-true, if_cases,
  [], ◌∷◌, ◌++◌, arith,
}
use native.Mathlib.Nat.{add-mod, div-add-mod, mul-add-mod_self_left}
use thrax.Sizes.Poly.{
  Size, nat, var, nat_add, nat_mul, other, Monomial, Poly, word, insert_id, sort_ids, less, eq_ids,
  insert_term, sort_terms, combine, combine_all, retain, canon, times, products, poly_mul,
  normalize_size,
}

-- ## Congruence

-- Equal modulo 2 ^ 64
abbrev pub Same : ℕ → ℕ → Type 0
Same a b = a % word ≡ b % word

pub congruent : (a b : ℕ) → a ≡ b → Same a b
congruent a b e = ap (λ x. x % word) e

pub Same-add : (a b c d : ℕ) → Same a b → Same c d → Same (a + c) (b + d)
Same-add a b c d p q = add-mod a c word ∙ ap₂ (λ x y. (x + y) % word) p q ∙ sym (add-mod b d word)

mul_reduced : (m a b : ℕ) → (a % m * b) % m ≡ (a * b) % m
mul_reduced m a b =
    sym (mul-add-mod_self_left m (a / m * b) (a % m * b))
    ∙ ap (λ x. x % m) (split ∙ ap (λ x. x * b) (div-add-mod a m))
  where
    split : m * (a / m * b) + a % m * b ≡ (m * (a / m) + a % m) * b
    split = grind arith

Same-mul : (a b c d : ℕ) → Same a b → Same c d → Same (a * c) (b * d)
Same-mul a b c d p q =
    sym (mul_reduced word a c)
    ∙ ap (λ x. (x * c) % word) p
    ∙ mul_reduced word b c
    ∙ ap (λ x. x % word) (swap b c)
    ∙ sym (mul_reduced word c b)
    ∙ ap (λ x. (x * b) % word) q
    ∙ mul_reduced word d b
    ∙ ap (λ x. x % word) (swap d b)
  where
    swap : (x y : ℕ) → x * y ≡ y * x
    swap x y = grind arith

module _ (env : ℕ → ℕ) where
  -- The value of a size whose variables stand for numbers; what is no size counts as 0.
  abbrev pub value : Size → ℕ
  value (nat k) = k
  value (var id) = env id
  value (nat_add a b) = value a + value b
  value (nat_mul a b) = value a * value b
  value other = 0

  abbrev pub product : Monomial → ℕ
  product [] = 1
  product (v ∷ vs) = env v * product vs

  abbrev pub poly_value : Poly → ℕ
  poly_value [] = 0
  poly_value ((c, m) ∷ ts) = c * product m + poly_value ts

  -- ## Sorting keeps the value

  product-append : (m n : Monomial) → product (m ++ n) ≡ product m * product n
  product-append [] n = omega arith
  product-append (v ∷ vs) n = let h = product-append vs n in rw h (grind arith)

  product-insert_id : (v : ℕ) (m : Monomial) → product (insert_id v m) ≡ env v * product m
  unfolding insert_id
  product-insert_id v [] = refl
  product-insert_id v (w ∷ ws) =
      let h = product-insert_id v ws in
      if_cases (λ r. product r ≡ env v * (env w * product ws)) (ltb w v) (w ∷ insert_id v ws)
        (v ∷ w ∷ ws) (λ e. rw h (grind arith)) (λ e. refl)

  product-sort_ids : (m : Monomial) → product (sort_ids m) ≡ product m
  unfolding sort_ids
  product-sort_ids [] = refl
  product-sort_ids (v ∷ vs) =
      product-insert_id v (sort_ids vs) ∙ ap (λ x. env v * x) (product-sort_ids vs)

  poly_value-insert_term :
      (c : ℕ) (m : Monomial) (p : Poly)
      → poly_value (insert_term (c, m) p) ≡ c * product m + poly_value p
  unfolding insert_term
  poly_value-insert_term c m [] = refl
  poly_value-insert_term c m ((d, n) ∷ us) =
      let h = poly_value-insert_term c m us in
      if_cases (λ r. poly_value r ≡ c * product m + (d * product n + poly_value us)) (less n m)
        ((d, n) ∷ insert_term (c, m) us) ((c, m) ∷ (d, n) ∷ us) (λ e. omega (arith, h)) (λ e. refl)

  poly_value-sort_terms : (p : Poly) → poly_value (sort_terms p) ≡ poly_value p
  unfolding sort_terms
  poly_value-sort_terms [] = refl
  poly_value-sort_terms ((c, m) ∷ ts) =
      poly_value-insert_term c (sort_ids m) (sort_terms ts)
      ∙ ap₂ (λ x y. c * x + y) (product-sort_ids m) (poly_value-sort_terms ts)

  -- ## Combining keeps the value modulo 2 ^ 64

  pub product_same : (m n : Monomial) → eq_ids m n ≡ true → product m ≡ product n
  product_same [] [] e = refl
  product_same [] (w ∷ ws) e = absurd (no e)
    where
      no : false ≡ true → ⊥
      no e = cc
  product_same (v ∷ vs) [] e = absurd (no e)
    where
      no : false ≡ true → ⊥
      no e = cc
  product_same (v ∷ vs) (w ∷ ws) e =
      let (h, t) = &&-eq-true (v == w) (eq_ids vs ws) e in
      ap₂ (λ x y. env x * y) (ground (arith, h)) (product_same vs ws t)

  Same-combine :
      (c : ℕ) (m : Monomial) (p : Poly)
      → Same (poly_value (combine (c, m) p)) (c * product m + poly_value p)
  unfolding combine
  Same-combine c m [] = refl
  Same-combine c m ((d, n) ∷ ts) =
      if_cases (λ r. Same (poly_value r) (c * product m + (d * product n + poly_value ts)))
        (eq_ids m n) (combine ((c + d) % word, m) ts) ((c, m) ∷ combine (d, n) ts)
        (λ e.
          Same-combine ((c + d) % word) m ts
          ∙ Same-add ((c + d) % word * product m) ((c + d) * product m) (poly_value ts)
              (poly_value ts) (mul_reduced word (c + d) (product m)) refl
          ∙ ap (λ x. x % word) (together e))
        (λ e.
          Same-add (c * product m) (c * product m) (poly_value (combine (d, n) ts))
            (d * product n + poly_value ts) refl (Same-combine d n ts))
    where
      together :
          eq_ids m n ≡ true
          → (c + d) * product m + poly_value ts ≡ c * product m + (d * product n + poly_value ts)
      together e = rw (← product_same m n e) (grind arith)

  Same-combine_all : (p : Poly) → Same (poly_value (combine_all p)) (poly_value p)
  Same-combine_all [] = refl
  Same-combine_all ((c, m) ∷ ts) = Same-combine c m ts

  poly_value-retain : (p : Poly) → poly_value (retain p) ≡ poly_value p
  unfolding retain
  poly_value-retain [] = refl
  poly_value-retain ((c, m) ∷ ts) =
      let h = poly_value-retain ts in
      if_cases (λ r. poly_value r ≡ c * product m + poly_value ts) (c == 0) (retain ts)
        ((c, m) ∷ retain ts) (λ e. let z : c ≡ 0 = ground (arith, e) in rw z (omega (arith, h)))
        (λ e. omega (arith, h))

  Same-canon : (p : Poly) → Same (poly_value (canon p)) (poly_value p)
  unfolding canon
  Same-canon p =
      ap (λ x. x % word) (poly_value-retain (combine_all (sort_terms p)))
      ∙ Same-combine_all (sort_terms p)
      ∙ ap (λ x. x % word) (poly_value-sort_terms p)

  -- ## Sums and products

  poly_value-append : (p q : Poly) → poly_value (p ++ q) ≡ poly_value p + poly_value q
  poly_value-append [] q = omega arith
  poly_value-append ((c, m) ∷ ts) q = omega (arith, poly_value-append ts q)

  Same-times :
      (c : ℕ) (m : Monomial) (p : Poly)
      → Same (poly_value (times (c, m) p)) (c * product m * poly_value p)
  Same-times c m [] = congruent 0 (c * product m * 0) (grind arith)
  Same-times c m ((d, n) ∷ us) =
      Same-add ((c * d) % word * product (m ++ n)) (c * d * product (m ++ n))
        (poly_value (times (c, m) us)) (c * product m * poly_value us)
        (mul_reduced word (c * d) (product (m ++ n))) (Same-times c m us)
      ∙ ap (λ x. x % word) (rw (product-append m n) (grind arith))

  Same-products : (a b : Poly) → Same (poly_value (products a b)) (poly_value a * poly_value b)
  Same-products [] b = congruent 0 (0 * poly_value b) (grind arith)
  Same-products ((c, m) ∷ ts) b =
      ap (λ x. x % word) (poly_value-append (times (c, m) b) (products ts b))
      ∙ Same-add (poly_value (times (c, m) b)) (c * product m * poly_value b)
          (poly_value (products ts b)) (poly_value ts * poly_value b) (Same-times c m b)
          (Same-products ts b)
      ∙ ap (λ x. x % word) (grind arith)

  -- the polynomial that a size is normalized to has the size's value modulo 2 ^ 64, whatever numbers the
  -- variables stand for.
  pub normalize_size-value : (ty : Size) → Same (poly_value (normalize_size ty)) (value ty)
  unfolding normalize_size poly_mul
  normalize_size-value (nat k) = Same-canon ((k, []) ∷ []) ∙ ap (λ x. x % word) (grind arith)
  normalize_size-value (var id) = ap (λ x. x % word) (grind arith)
  normalize_size-value (nat_add a b) =
      Same-canon (normalize_size a ++ normalize_size b)
      ∙ ap (λ x. x % word) (poly_value-append (normalize_size a) (normalize_size b))
      ∙ Same-add (poly_value (normalize_size a)) (value a) (poly_value (normalize_size b)) (value b)
          (normalize_size-value a) (normalize_size-value b)
  normalize_size-value (nat_mul a b) =
      Same-canon (products (normalize_size a) (normalize_size b))
      ∙ Same-products (normalize_size a) (normalize_size b)
      ∙ Same-mul (poly_value (normalize_size a)) (value a) (poly_value (normalize_size b)) (value b)
          (normalize_size-value a) (normalize_size-value b)
  normalize_size-value other = refl
