-- ===== src/Sizes/Normal.antt =====
-- `canon` makes canonical polynomials, and so does `normalize_size`.
use thrax.Prelude.{ℕ, ◌*◌, ◌≡◌, true, ◌==◌, if_cases, All, All-append, [], ◌∷◌, ◌++◌, arith}
use native.Mathlib.Nat.{mod-lt}
use thrax.Sizes.Poly.{
  Size, nat, var, nat_add, nat_mul, other, Monomial, Poly, less, sort_terms, combine_all, retain,
  canon, times, products, poly_mul, normalize_size,
}
use thrax.Sizes.Canonical.{
  Ordered, IsTerm, IsCanonical, Fits, Sorted, Small, Word, sort_terms-Sorted, sort_terms-Small,
  combine-Ordered, combine-Small,
}

combine_all-Ordered : (p : Poly) → Sorted p → Ordered (combine_all p)
combine_all-Ordered [] h = tt
combine_all-Ordered (t ∷ ts) h = combine-Ordered t ts h

combine_all-Small : (p : Poly) → All Small p → All Small (combine_all p)
combine_all-Small [] h = tt
combine_all-Small (t ∷ ts) (h, r) = combine-Small t ts h r

All-retain : (P : ℕ × Monomial → Type 0) (p : Poly) → All P p → All P (retain p)
unfolding retain
All-retain P [] h = tt
All-retain P ((c, m) ∷ ts) (h, r) =
    if_cases (All P) (c == 0) (retain ts) ((c, m) ∷ retain ts) (λ e. All-retain P ts r)
      (λ e. (h, All-retain P ts r))

retain-Ordered : (p : Poly) → Ordered p → Ordered (retain p)
unfolding retain
retain-Ordered [] h = tt
retain-Ordered ((c, m) ∷ ts) (a, r) =
    if_cases Ordered (c == 0) (retain ts) ((c, m) ∷ retain ts) (λ e. retain-Ordered ts r)
      (λ e. (All-retain (λ (u : ℕ × Monomial). less m u.1 ≡ true) ts a, retain-Ordered ts r))

retain-IsTerm : (p : Poly) → All Small p → All IsTerm (retain p)
unfolding retain
retain-IsTerm [] h = tt
retain-IsTerm ((c, m) ∷ ts) ((l, h), r) =
    if_cases (All IsTerm) (c == 0) (retain ts) ((c, m) ∷ retain ts) (λ e. retain-IsTerm ts r)
      (λ e. ((ground (arith, e), l, h), retain-IsTerm ts r))

pub canon-IsCanonical : (p : Poly) → All Word p → IsCanonical (canon p)
unfolding canon
canon-IsCanonical p h = (
  retain-Ordered (combine_all (sort_terms p))
      (combine_all-Ordered (sort_terms p) (sort_terms-Sorted p)),
  retain-IsTerm (combine_all (sort_terms p))
      (combine_all-Small (sort_terms p) (sort_terms-Small p h)),
)

pub IsTerm-Word : (p : Poly) → All IsTerm p → All Word p
IsTerm-Word [] h = tt
IsTerm-Word (t ∷ ts) (h, r) = (h.1, IsTerm-Word ts r)

times-Word : (t : ℕ × Monomial) (p : Poly) → All Word (times t p)
times-Word t [] = tt
times-Word t ((c, m) ∷ us) = (mod-lt (t.0 * c) (omega arith), times-Word t us)

products-Word : (a b : Poly) → All Word (products a b)
products-Word [] b = tt
products-Word (t ∷ a) b =
    All-append Word (times t b) (products a b) (times-Word t b) (products-Word a b)

-- a size whose numbers are of 64 bits is normalized to a canonical polynomial: see `IsCanonical`.
pub normalize_size-IsCanonical : (ty : Size) → Fits ty → IsCanonical (normalize_size ty)
unfolding normalize_size poly_mul
normalize_size-IsCanonical (nat k) h = canon-IsCanonical ((k, []) ∷ []) (h, tt)
normalize_size-IsCanonical (var id) h = ((tt, tt), ((omega arith, omega arith, (tt, tt)), tt))
normalize_size-IsCanonical (nat_add a b) (h, k) =
    canon-IsCanonical (normalize_size a ++ normalize_size b) (
      All-append Word (normalize_size a) (normalize_size b)
        (IsTerm-Word (normalize_size a) ((normalize_size-IsCanonical a h).1))
        (IsTerm-Word (normalize_size b) ((normalize_size-IsCanonical b k).1)))
normalize_size-IsCanonical (nat_mul a b) h =
    canon-IsCanonical (products (normalize_size a) (normalize_size b))
      (products-Word (normalize_size a) (normalize_size b))
normalize_size-IsCanonical other h = (tt, tt)
