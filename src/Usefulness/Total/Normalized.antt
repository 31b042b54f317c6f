-- ===== src/Usefulness/Total/Normalized.antt =====
-- `normalize_column` keeps a matrix well formed and adds no constructor.
use thrax.Prelude.{
  ℕ, suc, ◌+◌, ◌≤◌, ◌≡◌, refl, inl, inr, Option, some, List, [], ◌∷◌, ◌++◌, All, All-append, arith,
  Bool-cases, if◌then◌else◌,
}
use thrax.Prelude.Names.{StrId}
use thrax.Usefulness.Pattern.{Ctor, DPat, wild}
use thrax.Usefulness.Column.{
  Row, Scan, scan_all, fix, fits, keep_rows, heads, fix_rows, no_scan, Column, normalize_column,
  find_ctor,
}
use thrax.Usefulness.Search.{Matrix, split_rows}
use thrax.Usefulness.Fuel.{weight, weight_all, weight_rows}
use thrax.Usefulness.Total.WellFormed.{Unions, WellFormed, RowOk, MatrixOk, NormalOk}
use thrax.Usefulness.Total.Fixed.{Scanned, scan_all-Scanned, fix-Fixed}

abbrev pub weight_pairs : List Row → ℕ
weight_pairs [] = 0
weight_pairs ((p, r) ∷ rows) = weight p + weight_all r + weight_pairs rows

abbrev pub PairOk : Unions → ℕ → Row → Type 0
PairOk env n r = WellFormed env r.0 × RowOk env n r.1

abbrev pub NormalPair : Unions → List StrId → ℕ → Row → Type 0
NormalPair env ns n r = NormalOk env ns r.0 × RowOk env n r.1

-- A matrix of `n + 1` columns splits.
pub split_rows-some :
    (env : Unions) (n : ℕ) (rows : Matrix)
    → MatrixOk env (suc n) rows
    → (rs : List Row) × (split_rows rows ≡ some rs)
      × All (PairOk env n) rs
      × (weight_pairs rs ≡ weight_rows rows)
unfolding split_rows
split_rows-some env n [] h = ([], refl, tt, refl)
split_rows-some env n ([] ∷ rows) h = absurd (omega arith)
split_rows-some env n ((p ∷ r) ∷ rows) h =
    let (rs, e, ok, w) = split_rows-some env n rows h.1 in
    ((p, r) ∷ rs, rw e, ((h.0.0.0, (h.0.0.1, omega arith)), ok), omega arith)

module _ (env : Unions) (n : ℕ) (f : Option Ctor) (s : Scan) (ok : Scanned env s) where
  kept-NormalPair :
      (rows : List Row)
      → All (PairOk env n) rows
      → All (NormalPair env s.names n) (keep_rows f (fix_rows s rows))
        × (weight_pairs (keep_rows f (fix_rows s rows)) ≤ weight_pairs rows)
  unfolding keep_rows fix_rows
  kept-NormalPair [] t = (tt, omega arith)
  kept-NormalPair ((p, r) ∷ rows) t =
      let (a, b) = fix-Fixed env s p ok t.0.0 in
      let (c, d) = kept-NormalPair rows t.1 in
      elim (Bool-cases (fits f (fix s p))) [
        | inl e ↦ rw e (((a, t.0.1), c), omega arith)
        | inr e ↦ rw e (c, omega arith)
      ]

  kept-head_NormalOk :
      (p : DPat)
      → WellFormed env p
      → NormalOk env s.names (if fits f (fix s p) then fix s p else wild)
        × (weight (if fits f (fix s p) then fix s p else wild) ≤ weight p)
  unfolding weight
  kept-head_NormalOk p t = elim (Bool-cases (fits f (fix s p))) [
    | inl e ↦ rw e (fix-Fixed env s p ok t)
    | inr e ↦ rw e (tt, omega arith)
  ]

pub record Normalized (env : Unions) (n : ℕ) (rows : List Row) (head : DPat) (col : Column)
    : Type 0 where
  pub names : List StrId
  pub rows_ok : All (NormalPair env names n) col.rows
  pub head_ok : NormalOk env names col.head
  pub rows_weight : weight_pairs col.rows ≤ weight_pairs rows
  pub head_weight : weight col.head ≤ weight head

heads-WellFormed :
    (env : Unions) (n : ℕ) (rows : List Row)
    → All (PairOk env n) rows
    → All (WellFormed env) (heads rows)
heads-WellFormed env n [] t = tt
heads-WellFormed env n ((p, r) ∷ rows) t = (t.0.0, heads-WellFormed env n rows t.1)

-- `normalize_column` keeps well-formed rows and head well formed, with no product left, and adds no
-- constructor to either: see `Normalized`.
pub normalize_column-Normalized :
    (env : Unions) (n : ℕ) (rows : List Row) (head : DPat) (m : Option StrId)
    → All (PairOk env n) rows
    → WellFormed env head
    → Normalized env n rows head (normalize_column rows head m)
unfolding normalize_column
normalize_column-Normalized env n rows head m t th =
    let column : List DPat = heads rows ++ head ∷ [] in
    let s = scan_all no_scan column in
    let ok =
      scan_all-Scanned env no_scan column (tt, tt)
        (All-append (WellFormed env) (heads rows) (head ∷ []) (heads-WellFormed env n rows t)
          (th, tt)) in
    let family = find_ctor (heads (fix_rows s rows) ++ fix s head ∷ []) in
    let (a, b) = kept-NormalPair env n family s ok rows t in
    let (c, d) = kept-head_NormalOk env n family s ok head th in
    record { names = s.names; rows_ok = a; head_ok = c; rows_weight = b; head_weight = d }
