-- ===== src/Sizes/Order.antt =====
-- The order of monomials is a strict linear order.
use thrax.Prelude.{
  ◌≡◌, refl, sym, ap₂, Bool, true, false, ◌==◌, &&-eq-true, [], ◌∷◌, arith, Bool-cases, inl, inr,
}
use thrax.Sizes.Poly.{Monomial, less, eq_ids}

pub less_trans : (a b c : Monomial) → less a b ≡ true → less b c ≡ true → less a c ≡ true
less_trans a [] c h k = absurd (no h)
  where
    no : false ≡ true → ⊥
    no e = cc
less_trans a (w ∷ ws) [] h k = k
less_trans [] (w ∷ ws) (x ∷ xs) h k = refl
less_trans (v ∷ vs) (w ∷ ws) (x ∷ xs) h k =
    let rest = less_trans vs ws xs in ground (arith, h, k, rest)

pub less_linear : (a b : Monomial) → less a b ≡ false → less b a ≡ false → eq_ids a b ≡ true
less_linear [] [] h k = refl
less_linear [] (w ∷ ws) h k = sym h
less_linear (v ∷ vs) [] h k = sym k
less_linear (v ∷ vs) (w ∷ ws) h k = let rest = less_linear vs ws in ground (arith, h, k, rest)

pub less_asym : (a b : Monomial) → less a b ≡ true → less b a ≡ false
less_asym [] [] h = refl
less_asym [] (w ∷ ws) h = refl
less_asym (v ∷ vs) [] h = sym h
less_asym (v ∷ vs) (w ∷ ws) h = let rest = less_asym vs ws in ground (arith, h, rest)

pub eq_ids_same : (a b : Monomial) → eq_ids a b ≡ true → a ≡ b
eq_ids_same [] [] h = refl
eq_ids_same [] (w ∷ ws) h = absurd (no h)
  where
    no : false ≡ true → ⊥
    no e = cc
eq_ids_same (v ∷ vs) [] h = absurd (no h)
  where
    no : false ≡ true → ⊥
    no e = cc
eq_ids_same (v ∷ vs) (w ∷ ws) h =
    let (e, r) = &&-eq-true (v == w) (eq_ids vs ws) h in
    ap₂ (λ x xs. x ∷ xs) (ground (arith, e)) (eq_ids_same vs ws r)

pub eq_ids_refl : (a : Monomial) → eq_ids a a ≡ true
eq_ids_refl [] = refl
eq_ids_refl (v ∷ vs) = let rest = eq_ids_refl vs in ground (arith, rest)

pub less_irrefl : (a : Monomial) → less a a ≡ false
less_irrefl [] = refl
less_irrefl (v ∷ vs) = let rest = less_irrefl vs in ground (arith, rest)

-- At or after one that is not before another
pub not_less_trans : (a b c : Monomial) → less b a ≡ false → less c b ≡ false → less c a ≡ false
not_less_trans [] [] c h k = k
not_less_trans [] (w ∷ ws) [] h k = refl
not_less_trans [] (w ∷ ws) (x ∷ xs) h k = refl
not_less_trans (v ∷ vs) [] c h k = absurd (no h)
  where
    no : true ≡ false → ⊥
    no e = cc
not_less_trans (v ∷ vs) (w ∷ ws) [] h k = k
not_less_trans (v ∷ vs) (w ∷ ws) (x ∷ xs) h k =
    let rest = not_less_trans vs ws xs in ground (arith, h, k, rest)

-- Before one that another is not before
pub less_then : (a b c : Monomial) → less a b ≡ true → less c b ≡ false → less a c ≡ true
less_then a [] c h k = absurd (no h)
  where
    no : false ≡ true → ⊥
    no e = cc
less_then a (w ∷ ws) [] h k = absurd (no k)
  where
    no : true ≡ false → ⊥
    no e = cc
less_then [] (w ∷ ws) (x ∷ xs) h k = refl
less_then (v ∷ vs) (w ∷ ws) (x ∷ xs) h k =
    let rest = less_then vs ws xs in ground (arith, h, k, rest)

pub less_unequal : (a b : Monomial) → less b a ≡ false → eq_ids a b ≡ false → less a b ≡ true
less_unequal a b h k = elim (Bool-cases (less a b)) [
  | inl e ↦ e
  | inr e ↦ absurd (no (less_linear a b e h) k)
]
  where
    no : {x : Bool} → x ≡ true → x ≡ false → ⊥
    no p q = cc
