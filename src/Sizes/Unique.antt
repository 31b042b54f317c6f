-- ===== src/Sizes/Unique.antt =====
-- Canonical polynomials against their coefficients, and the sums of two sizes in either order.
use thrax.Prelude.{
  ℕ, ◌+◌, ◌%◌, ◌≡◌, refl, sym, ap, ap₂, ◌∙◌, subst, Bool, true, false, ◌==◌, if_cases, All,
  All-append, [], ◌∷◌, ◌++◌, if◌then◌else◌, arith, Bool-cases, inl, inr,
}
use native.Mathlib.Nat.{mod-eq_of_lt, mod-mod}
use thrax.Sizes.Poly.{
  Size, nat_add, Monomial, Poly, word, less, eq_ids, sort_ids, insert_term, sort_terms, combine,
  combine_all, retain, canon, normalize_size, unified, unify_size,
}
use thrax.Sizes.Value.{Same, Same-add, congruent}
use thrax.Sizes.Order.{less_trans, less_linear, less_irrefl, eq_ids_same, eq_ids_refl}
use thrax.Sizes.Unify.{unify_size_same}
use thrax.Sizes.Canonical.{Ordered, IsCanonical, Fits, Word}
use thrax.Sizes.Normal.{canon-IsCanonical, IsTerm-Word, normalize_size-IsCanonical}

clash : {b : Bool} → b ≡ true → b ≡ false → ⊥
clash p q = cc

-- The coefficient of a monomial
abbrev coef : Monomial → Poly → ℕ
coef n [] = 0
coef n ((c, m) ∷ ts) = (if eq_ids m n then c else 0) + coef n ts

-- ## Canonical polynomials

unequal : (m n : Monomial) → less m n ≡ true → eq_ids n m ≡ false
unequal m n l = elim (Bool-cases (eq_ids n m)) [
  | inl e ↦ absurd (clash (subst (λ x. less m x ≡ true) (eq_ids_same n m e) l) (less_irrefl m))
  | inr e ↦ e
]

coef_after :
    (n : Monomial) (p : Poly) → All (λ (u : ℕ × Monomial). less n u.1 ≡ true) p → coef n p ≡ 0
coef_after n [] h = refl
coef_after n ((c, m) ∷ ts) (l, h) = rw (unequal n m l) (omega (arith, coef_after n ts h))

after_first :
    (m n : Monomial) (p : Poly)
    → less m n ≡ true
    → All (λ (u : ℕ × Monomial). less n u.1 ≡ true) p
    → All (λ (u : ℕ × Monomial). less m u.1 ≡ true) p
after_first m n [] l h = tt
after_first m n (u ∷ us) l (k, h) = (less_trans m n u.1 l k, after_first m n us l h)

-- The coefficient of the first monomial
coef_first : (c : ℕ) (m : Monomial) (p : Poly) → Ordered ((c, m) ∷ p) → coef m ((c, m) ∷ p) ≡ c
coef_first c m p (a, r) = rw (eq_ids_refl m) (omega (arith, coef_after m p a))

-- A canonical polynomial has a coefficient that is not zero, unless it is empty.
first_differs :
    (c : ℕ) (m : Monomial) (p q : Poly)
    → IsCanonical ((c, m) ∷ p)
    → Same (coef m ((c, m) ∷ p)) (coef m q)
    → All (λ (u : ℕ × Monomial). less m u.1 ≡ true) q
    → ⊥
first_differs c m p q (o, ((pos, l, k), r)) s a =
    let first = coef_first c m p o in
    let zero = coef_after m q a in omega (arith, pos, l, first, zero, s, mod-eq_of_lt l)

module _ (c d : ℕ) (m : Monomial) (ts us : Poly) (h : IsCanonical ((c, m) ∷ ts))
    (k : IsCanonical ((d, m) ∷ us))
    (s : (n : Monomial) → Same (coef n ((c, m) ∷ ts)) (coef n ((d, m) ∷ us))) where
  equal_coef : c ≡ d
  equal_coef =
      sym (mod-eq_of_lt h.1.0.1)
      ∙ congruent c (coef m ((c, m) ∷ ts)) (sym (coef_first c m ts h.0))
      ∙ s m
      ∙ congruent (coef m ((d, m) ∷ us)) d (coef_first d m us k.0)
      ∙ mod-eq_of_lt k.1.0.1

  equal_rest : (n : Monomial) → Same (coef n ts) (coef n us)
  equal_rest n = elim (Bool-cases (eq_ids m n)) [
    | inl e ↦
        subst (λ x. Same (coef x ts) (coef x us)) (eq_ids_same m n e)
          (congruent (coef m ts) (coef m us) (coef_after m ts h.0.0 ∙ sym (coef_after m us k.0.0)))
    | inr e ↦
        congruent (coef n ts) (0 + coef n ts) (omega arith)
        ∙ (rw e at (s n))
        ∙ congruent (0 + coef n us) (coef n us) (omega arith)
  ]

canonical_unique :
    (p q : Poly)
    → IsCanonical p
    → IsCanonical q
    → ((n : Monomial) → Same (coef n p) (coef n q))
    → p ≡ q
canonical_unique [] [] h k s = refl
canonical_unique [] ((d, n) ∷ us) h k s = absurd (first_differs d n us [] k (sym (s n)) tt)
canonical_unique ((c, m) ∷ ts) [] h k s = absurd (first_differs c m ts [] h (s m) tt)
canonical_unique ((c, m) ∷ ts) ((d, n) ∷ us) h k s = elim (Bool-cases (less m n)) [
  | inl e ↦ absurd (first_differs c m ts ((d, n) ∷ us) h (s m) (e, after_first m n us e k.0.0))
  | inr e ↦ elim (Bool-cases (less n m)) [
    | inl f ↦
        absurd (first_differs d n us ((c, m) ∷ ts) k (sym (s n)) (f, after_first n m ts f h.0.0))
    | inr f ↦
        let mn = eq_ids_same m n (less_linear m n e f) in
        let k' = subst (λ x. IsCanonical ((d, x) ∷ us)) (sym mn) k in
        let s' =
          subst (λ x. (i : Monomial) → Same (coef i ((c, m) ∷ ts)) (coef i ((d, x) ∷ us))) (sym mn)
            s in
        let rest =
          canonical_unique ts us (h.0.1, h.1.1) (k.0.1, k.1.1) (equal_rest c d m ts us h k' s') in
        ap₂ (λ t ts. t ∷ ts) (ap₂ (λ x y. (x, y)) (equal_coef c d m ts us h k' s') mn) rest
  ]
]

-- ## The coefficients of a normal form

together :
    (b : Bool) (c d r : ℕ)
    → Same
        ((if b then (c + d) % word else 0) + r)
        ((if b then c else 0) + ((if b then d else 0) + r))
together true c d r =
    Same-add ((c + d) % word) (c + d) r r (mod-mod (c + d) word) refl
    ∙ congruent (c + d + r) (c + (d + r)) (omega arith)
together false c d r = congruent (0 + r) (0 + (0 + r)) (omega arith)

module _ (n : Monomial) where
  -- The coefficient in what is not in order yet
  abbrev loose : Poly → ℕ
  loose [] = 0
  loose ((c, m) ∷ ts) = (if eq_ids (sort_ids m) n then c else 0) + loose ts

  loose-append : (p q : Poly) → loose (p ++ q) ≡ loose p + loose q
  loose-append [] q = omega arith
  loose-append ((c, m) ∷ ts) q = omega (arith, loose-append ts q)

  coef-insert_term :
      (c : ℕ) (m : Monomial) (p : Poly) → coef n (insert_term (c, m) p) ≡ coef n ((c, m) ∷ p)
  unfolding insert_term
  coef-insert_term c m [] = refl
  coef-insert_term c m ((d, x) ∷ us) =
      if_cases (λ r. coef n r ≡ coef n ((c, m) ∷ (d, x) ∷ us)) (less x m)
        ((d, x) ∷ insert_term (c, m) us) ((c, m) ∷ (d, x) ∷ us)
        (λ e. omega (arith, coef-insert_term c m us)) (λ e. refl)

  coef-sort_terms : (p : Poly) → coef n (sort_terms p) ≡ loose p
  unfolding sort_terms
  coef-sort_terms [] = refl
  coef-sort_terms ((c, m) ∷ ts) =
      coef-insert_term c (sort_ids m) (sort_terms ts)
      ∙ ap (λ x. (if eq_ids (sort_ids m) n then c else 0) + x) (coef-sort_terms ts)

  coef-combine :
      (c : ℕ) (m : Monomial) (p : Poly) → Same (coef n (combine (c, m) p)) (coef n ((c, m) ∷ p))
  unfolding combine
  coef-combine c m [] = refl
  coef-combine c m ((d, x) ∷ ts) =
      if_cases (λ r. Same (coef n r) (coef n ((c, m) ∷ (d, x) ∷ ts))) (eq_ids m x)
        (combine ((c + d) % word, m) ts) ((c, m) ∷ combine (d, x) ts)
        (λ e.
          coef-combine ((c + d) % word) m ts
          ∙ subst (λ y. Same (coef n (((c + d) % word, m) ∷ ts)) (coef n ((c, m) ∷ (d, y) ∷ ts)))
              (eq_ids_same m x e) (together (eq_ids m n) c d (coef n ts)))
        (λ e.
          Same-add (if eq_ids m n then c else 0) (if eq_ids m n then c else 0)
            (coef n (combine (d, x) ts)) (coef n ((d, x) ∷ ts)) refl (coef-combine d x ts))

  coef-combine_all : (p : Poly) → Same (coef n (combine_all p)) (coef n p)
  coef-combine_all [] = refl
  coef-combine_all ((c, m) ∷ ts) = coef-combine c m ts

  coef-retain : (p : Poly) → coef n (retain p) ≡ coef n p
  unfolding retain
  coef-retain [] = refl
  coef-retain ((c, m) ∷ ts) =
      if_cases (λ r. coef n r ≡ coef n ((c, m) ∷ ts)) (c == 0) (retain ts) ((c, m) ∷ retain ts)
        (λ e. ground (arith, e, coef-retain ts)) (λ e. omega (arith, coef-retain ts))

  coef-canon : (p : Poly) → Same (coef n (canon p)) (loose p)
  unfolding canon
  coef-canon p =
      congruent (coef n (canon p)) (coef n (combine_all (sort_terms p)))
        (coef-retain (combine_all (sort_terms p)))
      ∙ coef-combine_all (sort_terms p)
      ∙ congruent (coef n (sort_terms p)) (loose p) (coef-sort_terms p)

canon-swap : (p q : Poly) → All Word p → All Word q → canon (p ++ q) ≡ canon (q ++ p)
canon-swap p q h k =
    canonical_unique (canon (p ++ q)) (canon (q ++ p))
      (canon-IsCanonical (p ++ q) (All-append Word p q h k))
      (canon-IsCanonical (q ++ p) (All-append Word q p k h))
      (λ n.
        coef-canon n (p ++ q)
        ∙ congruent (loose n (p ++ q)) (loose n (q ++ p))
            (omega (arith, loose-append n p q, loose-append n q p))
        ∙ sym (coef-canon n (q ++ p)))

normalize_size_swap :
    (a b : Size) → Fits a → Fits b → normalize_size (nat_add a b) ≡ normalize_size (nat_add b a)
unfolding normalize_size
normalize_size_swap a b h k =
    canon-swap (normalize_size a) (normalize_size b)
      (IsTerm-Word (normalize_size a) ((normalize_size-IsCanonical a h).1))
      (IsTerm-Word (normalize_size b) ((normalize_size-IsCanonical b k).1))

-- Sums of two sizes in either order, whose numbers are of 64 bits, are normalized to one polynomial, and
-- `unify_size` unifies them with no variable bound.
pub normalize_size_comm :
    (a b : Size)
    → Fits a
    → Fits b
    → (normalize_size (nat_add a b) ≡ normalize_size (nat_add b a))
      × (unify_size (nat_add a b) (nat_add b a) ≡ unified)
normalize_size_comm a b h k =
    let same = normalize_size_swap a b h k in
    (same, unify_size_same (nat_add a b) (nat_add b a) same)
