-- ===== src/Sizes/Unify.antt =====
-- `unify_size` and `nat_value` against the values of sizes.
use thrax.Prelude.{
  ℕ, ◌≡◌, refl, sym, ◌∙◌, true, false, ◌&&◌, ◌==◌, &&-eq-true, if_cases, if◌then◌else◌, Bool, ◌||◌,
  ◌*◌, ap, Option, none, some, [], ◌∷◌, arith, Bool-cases, inl, inr,
}
use mathlib.Core.Option.{some_inj}
use thrax.Sizes.Poly.{
  Size, nat, var, nat_add, nat_mul, other, Monomial, contains, Poly, eq_ids, normalize_size,
  is_size, constant, nat_value, lone_var, poly_has_var, eq_poly, Unified, unified, size_mismatch,
  bind, bind_lone, unify_size,
}
use thrax.Sizes.Order.{eq_ids_refl}
use thrax.Sizes.Value.{
  Same, congruent, value, product, poly_value, product_same, normalize_size-value,
}

-- A size: no node of it is of another sort.
abbrev pub IsNat : Size → Type 0
IsNat (nat k) = Unit
IsNat (var id) = Unit
IsNat (nat_add a b) = IsNat a × IsNat b
IsNat (nat_mul a b) = IsNat a × IsNat b
IsNat other = ⊥

-- The reading that gives `v` the value `n`, and is `env` elsewhere
abbrev pub assign : ℕ → ℕ → (ℕ → ℕ) → ℕ → ℕ
assign v n env w = if w == v then n else env w

-- What binding `v` to `ty` means for two sides: `ty` is a size, its value modulo 2 ^ 64 does not change
-- with `v`, and the readings that give both sides one value are those that give `v` the value of `ty`.
pub record IsSolved (a b : Size) (v : ℕ) (ty : Size) : Type 0 where
  pub nat : IsNat ty
  pub free : (env : ℕ → ℕ) (n : ℕ) → Same (value (assign v n env) ty) (value env ty)
  pub solves : (env : ℕ → ℕ) → Same (env v) (value env ty) → Same (value env a) (value env b)
  pub forced : (env : ℕ → ℕ) → Same (value env a) (value env b) → Same (env v) (value env ty)

-- Sizes that are unified have one value modulo 2 ^ 64 under every reading of the variables; a variable that
-- is bound is solved for (`IsSolved`); on a mismatch the normal forms differ, and a side that is one
-- variable occurs in the other.
abbrev pub IsUnified : Size → Size → Unified → Type 0
IsUnified a b unified = (env : ℕ → ℕ) → Same (value env a) (value env b)
IsUnified a b (bind v ty) = IsSolved a b v ty
IsUnified a b size_mismatch =
    (normalize_size a ≡ normalize_size b → ⊥)
    × ((v : ℕ) → lone_var (normalize_size a) ≡ some v → poly_has_var (normalize_size b) v ≡ true)
    × ((v : ℕ) → lone_var (normalize_size b) ≡ some v → poly_has_var (normalize_size a) v ≡ true)

-- ## Equal polynomials

no_pair : false ≡ true → ⊥
no_pair q = cc

eq_poly_refl : (p : Poly) → eq_poly p p ≡ true
eq_poly_refl [] = refl
eq_poly_refl ((c, m) ∷ ts) = ground (arith, eq_ids_refl m, eq_poly_refl ts)

eq_poly-differ : (p q : Poly) → eq_poly p q ≡ false → p ≡ q → ⊥
eq_poly-differ p q e x = no_pair (sym (rw (← x) at e) ∙ eq_poly_refl p)

-- Sizes with one normal form are unified.
pub unify_size_same : (a b : Size) → normalize_size a ≡ normalize_size b → unify_size a b ≡ unified
unfolding unify_size
unify_size_same a b e = rw e (rw (eq_poly_refl (normalize_size b)) refl)

no_variable : {v : ℕ} → ◌≡◌ {A = Option ℕ} none (some v) → ⊥
no_variable q = cc

module _ (env : ℕ → ℕ) where
  poly_value_same : (p q : Poly) → eq_poly p q ≡ true → poly_value env p ≡ poly_value env q
  poly_value_same [] [] e = refl
  poly_value_same [] (u ∷ us) e = absurd (no_pair e)
  poly_value_same (t ∷ ts) [] e = absurd (no_pair e)
  poly_value_same ((c, m) ∷ ts) ((d, n) ∷ us) e =
      let (h, rest) = &&-eq-true (c == d && eq_ids m n) (eq_poly ts us) e in
      let (k, l) = &&-eq-true (c == d) (eq_ids m n) h in
      let same : c ≡ d = ground (arith, k) in
      rw same (rw (product_same env m n l) (rw (poly_value_same ts us rest) refl))

  poly_value-lone_var : (p : Poly) (v : ℕ) → lone_var p ≡ some v → poly_value env p ≡ env v
  poly_value-lone_var [] v e = absurd (no_variable e)
  poly_value-lone_var ((c, []) ∷ []) v e = absurd (no_variable e)
  poly_value-lone_var ((c, w ∷ []) ∷ []) v e = elim (Bool-cases (c == 1)) [
    | inl k ↦
        let one : c ≡ 1 = ground (arith, k) in rw (← some_inj.0 (rw k at e)) (rw one (grind arith))
    | inr k ↦ absurd (no_variable (rw k at e))
  ]
  poly_value-lone_var ((c, w ∷ x ∷ xs) ∷ []) v e = absurd (no_variable e)
  poly_value-lone_var ((c, []) ∷ u ∷ us) v e = absurd (no_variable e)
  poly_value-lone_var ((c, w ∷ []) ∷ u ∷ us) v e = absurd (no_variable e)
  poly_value-lone_var ((c, w ∷ x ∷ xs) ∷ u ∷ us) v e = absurd (no_variable e)

  value_lone :
      (ty : Size) (v : ℕ) → lone_var (normalize_size ty) ≡ some v → Same (value env ty) (env v)
  value_lone ty v e =
      sym (normalize_size-value env ty)
      ∙ congruent (poly_value env (normalize_size ty)) (env v)
          (poly_value-lone_var (normalize_size ty) v e)

  constant_value : (p : Poly) (k : ℕ) → constant p ≡ some k → poly_value env p ≡ k
  constant_value [] k e = some_inj.0 e
  constant_value ((c, []) ∷ []) k e = grind (arith, some_inj.0 e)
  constant_value ((c, w ∷ ws) ∷ []) k e = absurd (no_variable e)
  constant_value ((c, []) ∷ u ∷ us) k e = absurd (no_variable e)
  constant_value ((c, w ∷ ws) ∷ u ∷ us) k e = absurd (no_variable e)

-- ## A variable that does not occur

apart : (b c : Bool) → (b || c) ≡ false → (b ≡ false) × (c ≡ false)
apart b c h = (ground (arith, h), ground (arith, h))

module _ (v n : ℕ) (env : ℕ → ℕ) where
  product_free : (m : Monomial) → contains v m ≡ false → product (assign v n env) m ≡ product env m
  product_free [] h = refl
  product_free (w ∷ ws) h =
      let (e, r) = apart (w == v) (contains v ws) h in
      rw e (ap (λ x. env w * x) (product_free ws r))

  poly_value_free :
      (p : Poly) → poly_has_var p v ≡ false → poly_value (assign v n env) p ≡ poly_value env p
  poly_value_free [] h = refl
  poly_value_free ((c, m) ∷ ts) h =
      let (e, r) = apart (contains v m) (poly_has_var ts v) h in
      rw (product_free m e) (rw (poly_value_free ts r) refl)

  value_free :
      (ty : Size)
      → poly_has_var (normalize_size ty) v ≡ false
      → Same (value (assign v n env) ty) (value env ty)
  value_free ty h =
      sym (normalize_size-value (assign v n env) ty)
      ∙ congruent (poly_value (assign v n env) (normalize_size ty))
          (poly_value env (normalize_size ty)) (poly_value_free (normalize_size ty) h)
      ∙ normalize_size-value env ty

-- a size that `nat_value` gives a number for has that value modulo 2 ^ 64, whatever its variables stand
-- for.
pub nat_value_lem :
    (ty : Size) (k : ℕ) → nat_value ty ≡ some k → (env : ℕ → ℕ) → Same (value env ty) k
unfolding nat_value
nat_value_lem ty k e env = elim (Bool-cases (is_size ty)) [
  | inl s ↦
      sym (normalize_size-value env ty)
      ∙ congruent (poly_value env (normalize_size ty)) k
          (constant_value env (normalize_size ty) k (rw s at e))
  | inr s ↦ absurd (no_variable (rw s at e))
]

module _ (a b : Size) (ha : IsNat a) (hb : IsNat b) where
  left_bound :
      (v : ℕ)
      → lone_var (normalize_size a) ≡ some v
      → poly_has_var (normalize_size b) v ≡ false
      → IsSolved a b v b
  left_bound v o h = record {
    nat = hb;
    free = λ env n. value_free v n env b h;
    solves = λ env s. value_lone env a v o ∙ s;
    forced = λ env s. sym (value_lone env a v o) ∙ s;
  }

  right_bound :
      (v : ℕ)
      → lone_var (normalize_size b) ≡ some v
      → poly_has_var (normalize_size a) v ≡ false
      → IsSolved a b v a
  right_bound v o h = record {
    nat = ha;
    free = λ env n. value_free v n env a h;
    solves = λ env s. sym s ∙ sym (value_lone env b v o);
    forced = λ env s. sym (value_lone env b v o) ∙ sym s;
  }

  right_lone :
      (o : Option ℕ)
      → lone_var (normalize_size b) ≡ o
      → (normalize_size a ≡ normalize_size b → ⊥)
      → ((v : ℕ) → lone_var (normalize_size a) ≡ some v → poly_has_var (normalize_size b) v ≡ true)
      → IsUnified a b (bind_lone o (normalize_size a) a size_mismatch)
  right_lone none o e f = (e, f, λ v q. absurd (no_variable (sym o ∙ q)))
  right_lone (some v) o e f =
      if_cases (IsUnified a b) (poly_has_var (normalize_size a) v) size_mismatch (bind v a)
        (λ h. (e, f, λ w q. rw (← some_inj.0 (sym o ∙ q)) h)) (λ h. right_bound v o h)

  left_lone :
      (o : Option ℕ)
      → lone_var (normalize_size a) ≡ o
      → (normalize_size a ≡ normalize_size b → ⊥)
      → IsUnified a b (
          bind_lone o
            (normalize_size b)
            b
            (bind_lone (lone_var (normalize_size b)) (normalize_size a) a size_mismatch))
  left_lone none o e =
      right_lone (lone_var (normalize_size b)) refl e (λ v q. absurd (no_variable (sym o ∙ q)))
  left_lone (some v) o e =
      if_cases (IsUnified a b) (poly_has_var (normalize_size b) v)
        (bind_lone (lone_var (normalize_size b)) (normalize_size a) a size_mismatch) (bind v b)
        (λ h.
          right_lone (lone_var (normalize_size b)) refl e (λ w q. rw (← some_inj.0 (sym o ∙ q)) h))
        (λ h. left_bound v o h)

  -- For two sizes, what `unify_size` does is right. If it unifies them, they have one value modulo 2 ^ 64
  -- under every reading of the variables. If it binds a variable to a size, that size's value does not
  -- change with the variable, and the readings that give both sides one value are those that give the
  -- variable the size's value. On a mismatch the normal forms differ, and a side that is one variable
  -- occurs in the other.
  pub unify_size-IsUnified : IsUnified a b (unify_size a b)
  unfolding unify_size
  unify_size-IsUnified =
      if_cases (IsUnified a b) (eq_poly (normalize_size a) (normalize_size b)) unified
        (bind_lone (lone_var (normalize_size a)) (normalize_size b) b
          (bind_lone (lone_var (normalize_size b)) (normalize_size a) a size_mismatch))
        (λ e env.
          sym (normalize_size-value env a)
          ∙ congruent (poly_value env (normalize_size a)) (poly_value env (normalize_size b))
              (poly_value_same env (normalize_size a) (normalize_size b) e)
          ∙ normalize_size-value env b)
        (λ e.
          left_lone (lone_var (normalize_size a)) refl
            (eq_poly-differ (normalize_size a) (normalize_size b) e))
