-- ===== src/Usefulness/Total/Matrix.antt =====
-- The matrices that `useful` recurs on are well formed, and weigh no more.
use thrax.Prelude.{
  ℕ, zero, suc, ◌+◌, ◌≤◌, ◌<◌, ◌≡◌, refl, ◌∙◌, true, ◌&&◌, inl, inr, List, [], ◌∷◌, ◌++◌, All,
  All-append, length, length-append, length-replicate, replicate, arith, Bool-cases,
}
use thrax.Prelude.Int.{leb_ℤ}
use thrax.Prelude.Names.{StrId}
use thrax.Usefulness.Pattern.{
  Ctor, int, DPat, DPats, wild, opaque, ctor, product, nil, cons, to_list, arity, same,
}
use thrax.Usefulness.Segments.{Range}
use thrax.Usefulness.Column.{Row, specialize}
use thrax.Usefulness.Search.{rows_at, default_rows, ctors, any_same}
use thrax.Usefulness.Fuel.{weight, weight_args, weight_all, weight_rows}
use thrax.Usefulness.Total.WellFormed.{
  Unions, WellFormed, WellFormedArgs, RowOk, MatrixOk, NormalCtor, same-arity, WellFormedArgs-All,
  wilds-All,
}
use thrax.Usefulness.Total.Normalized.{weight_pairs, NormalPair}

pub weight_all-append : (ps qs : List DPat) → weight_all (ps ++ qs) ≡ weight_all ps + weight_all qs
weight_all-append [] qs = omega arith
weight_all-append (p ∷ ps) qs = omega (arith, weight_all-append ps qs)

pub weight_args-eq : (args : DPats) → weight_all (to_list args) ≡ weight_args args
unfolding weight
weight_args-eq nil = refl
weight_args-eq (cons p ps) = omega (arith, weight_args-eq ps)

pub weight_wilds : (n : ℕ) → weight_all (replicate n wild) ≡ 0
unfolding weight
weight_wilds zero = refl
weight_wilds (suc n) = omega (arith, weight_wilds n)

-- The arguments of a constructor, or wildcards, in front of a row.
pub args-RowOk :
    (env : Unions) (args : DPats) (r : List DPat) (k n : ℕ)
    → WellFormedArgs env args
    → length (to_list args) ≡ k
    → RowOk env n r
    → RowOk env (k + n) (to_list args ++ r)
args-RowOk env args r k n w l h = (
  All-append (WellFormed env) (to_list args) r (WellFormedArgs-All env args w) h.0,
  omega (arith, length-append (to_list args) r, h.1),
)

pub wilds-RowOk :
    (env : Unions) (r : List DPat) (k n : ℕ)
    → RowOk env n r
    → RowOk env (k + n) (replicate k wild ++ r)
wilds-RowOk env r k n h = (
  All-append (WellFormed env) (replicate k wild) r (wilds-All env k) h.0,
  omega (arith, length-append (replicate k wild) r, length-replicate k wild, h.1),
)

module _ (env : Unions) (ns : List StrId) (n : ℕ) where
  pub specialize-MatrixOk :
      (c : Ctor) (rows : List Row)
      → NormalCtor env ns c
      → All (NormalPair env ns n) rows
      → MatrixOk env (arity c + n) (specialize rows c)
  unfolding specialize
  specialize-MatrixOk c [] nc t = tt
  specialize-MatrixOk c ((ctor d args, r) ∷ rows) nc t = elim (Bool-cases (same d c)) [
    | inl e ↦ rw e (
      args-RowOk env args r (arity c) n t.0.0.2 (t.0.0.1 ∙ same-arity env ns c d nc t.0.0.0 e)
          t.0.1,
      specialize-MatrixOk c rows nc t.1,
    )
    | inr e ↦ rw e (specialize-MatrixOk c rows nc t.1)
  ]
  specialize-MatrixOk c ((wild, r) ∷ rows) nc t =
      (wilds-RowOk env r (arity c) n t.0.1, specialize-MatrixOk c rows nc t.1)
  specialize-MatrixOk c ((opaque, r) ∷ rows) nc t =
      (wilds-RowOk env r (arity c) n t.0.1, specialize-MatrixOk c rows nc t.1)
  specialize-MatrixOk c ((product k fs, r) ∷ rows) nc t = absurd t.0.0

  pub default_rows-MatrixOk :
      (rows : List Row) → All (NormalPair env ns n) rows → MatrixOk env n (default_rows rows)
  unfolding default_rows
  default_rows-MatrixOk [] t = tt
  default_rows-MatrixOk ((wild, r) ∷ rows) t = (t.0.1, default_rows-MatrixOk rows t.1)
  default_rows-MatrixOk ((_, r) ∷ rows) t = default_rows-MatrixOk rows t.1

  pub rows_at-MatrixOk :
      (s : Range) (rows : List Row)
      → All (NormalPair env ns n) rows
      → MatrixOk env n (rows_at s rows)
  unfolding rows_at
  rows_at-MatrixOk s [] t = tt
  rows_at-MatrixOk s ((ctor (int lo hi d) args, r) ∷ rows) t =
      elim (Bool-cases (leb_ℤ lo s.0 && leb_ℤ s.1 hi)) [
        | inl e ↦ rw e (t.0.1, rows_at-MatrixOk s rows t.1)
        | inr e ↦ rw e (rows_at-MatrixOk s rows t.1)
      ]
  rows_at-MatrixOk s ((_, r) ∷ rows) t = (t.0.1, rows_at-MatrixOk s rows t.1)

-- ## Weights

pub specialize-weight :
    (c : Ctor) (rows : List Row) → weight_rows (specialize rows c) ≤ weight_pairs rows
unfolding specialize weight
specialize-weight c [] = omega arith
specialize-weight c ((ctor d args, r) ∷ rows) = elim (Bool-cases (same d c)) [
  | inl e ↦ rw e (
      omega
        (arith, weight_all-append (to_list args) r, weight_args-eq args, specialize-weight c rows))
  | inr e ↦ rw e (omega (arith, specialize-weight c rows))
]
specialize-weight c ((wild, r) ∷ rows) = omega (
  arith,
  weight_all-append (replicate (arity c) wild) r,
  weight_wilds (arity c),
  specialize-weight c rows,
)
specialize-weight c ((_, r) ∷ rows) = omega (
  arith,
  weight_all-append (replicate (arity c) wild) r,
  weight_wilds (arity c),
  specialize-weight c rows,
)

-- A row with the constructor loses it.
pub specialize-weight_lt :
    (c : Ctor) (rows : List Row)
    → any_same (ctors rows) c ≡ true
    → weight_rows (specialize rows c) < weight_pairs rows
unfolding specialize weight ctors any_same
specialize-weight_lt c [] h = cc
specialize-weight_lt c ((ctor d args, r) ∷ rows) h = elim (Bool-cases (same d c)) [
  | inl e ↦ rw e (
      omega
        (arith, weight_all-append (to_list args) r, weight_args-eq args, specialize-weight c rows))
  | inr e ↦ rw e (omega (arith, specialize-weight_lt c rows (rw e at h)))
]
specialize-weight_lt c ((wild, r) ∷ rows) h = omega (
  arith,
  weight_all-append (replicate (arity c) wild) r,
  weight_wilds (arity c),
  specialize-weight_lt c rows h,
)
specialize-weight_lt c ((_, r) ∷ rows) h = omega (
  arith,
  weight_all-append (replicate (arity c) wild) r,
  weight_wilds (arity c),
  specialize-weight_lt c rows h,
)

pub default_rows-weight : (rows : List Row) → weight_rows (default_rows rows) ≤ weight_pairs rows
unfolding default_rows
default_rows-weight [] = omega arith
default_rows-weight ((wild, r) ∷ rows) = omega (arith, default_rows-weight rows)
default_rows-weight ((_, r) ∷ rows) = omega (arith, default_rows-weight rows)

pub rows_at-weight :
    (s : Range) (rows : List Row) → weight_rows (rows_at s rows) ≤ weight_pairs rows
unfolding rows_at
rows_at-weight s [] = omega arith
rows_at-weight s ((ctor (int lo hi d) args, r) ∷ rows) =
    elim (Bool-cases (leb_ℤ lo s.0 && leb_ℤ s.1 hi)) [
      | inl e ↦ rw e (omega (arith, rows_at-weight s rows))
      | inr e ↦ rw e (omega (arith, rows_at-weight s rows))
    ]
rows_at-weight s ((_, r) ∷ rows) = omega (arith, rows_at-weight s rows)
