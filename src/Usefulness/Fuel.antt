-- ===== src/Usefulness/Fuel.antt =====
-- The number of constructors of a pattern, which bounds the recursion of `useful`. It has no
-- counterpart in the source.
use thrax.Prelude.{ℕ, suc, ◌+◌, List, [], ◌∷◌}
use thrax.Usefulness.Pattern.{
  DPat, DPats, DFields, wild, opaque, ctor, product, nil, cons, end, field,
}
use thrax.Usefulness.Search.{Matrix}

unfoldable mutual
  pub weight : DPat → ℕ
  weight wild = 0
  weight opaque = 0
  weight (ctor c args) = suc (weight_args args)
  weight (product k fs) = suc (weight_fields fs)

  pub weight_args : DPats → ℕ
  weight_args nil = 0
  weight_args (cons p ps) = weight p + weight_args ps

  pub weight_fields : DFields → ℕ
  weight_fields end = 0
  weight_fields (field n p fs) = weight p + weight_fields fs

abbrev pub weight_all : List DPat → ℕ
weight_all [] = 0
weight_all (p ∷ ps) = weight p + weight_all ps

abbrev pub weight_rows : Matrix → ℕ
weight_rows [] = 0
weight_rows (r ∷ rows) = weight_all r + weight_rows rows
