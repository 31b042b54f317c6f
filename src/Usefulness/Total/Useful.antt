-- ===== src/Usefulness/Total/Useful.antt =====
-- `useful` returns: with as much fuel as there are constructors it neither panics nor runs out, and
-- a witness is as long as the vector.
use thrax.Prelude.{
  ℕ, zero, suc, ◌+◌, ◌≤◌, ◌<◌, ◌≡◌, refl, true, Option, none, some, List, [], ◌∷◌, ◌++◌, All,
  length, replicate, arith,
}
use thrax.Prelude.Names.{StrId}
use thrax.Usefulness.Pattern.{Ctor, int, DPat, nil, product, wild, opaque, ctor, to_list, arity}
use thrax.Usefulness.Segments.{Range, segments}
use thrax.Usefulness.Column.{Row, heads, Column, normalize_column, specialize, rebuild}
use thrax.Usefulness.Search.{
  out_of_fuel, run, Matrix, Deeper, Across, int_domain, rows_at, try_segments, useful_ints,
  sort_by_key, head_span, int_ranges, ctors, any_same, missing_from, signature_of, default_rows,
  try_ctors, absent_head, by_default, by_missing, by_signature, by_head, by_domain, in_column,
  with_rows, step, useful,
}
use thrax.Usefulness.Fuel.{weight, weight_all, weight_rows}
use thrax.Usefulness.Total.WellFormed.{Unions, WellFormed, RowOk, MatrixOk, NormalCtor, NormalOk}
use thrax.Usefulness.Total.Normalized.{
  weight_pairs, NormalPair, split_rows-some, normalize_column-Normalized,
}
use thrax.Usefulness.Total.Matrix.{
  weight_all-append, weight_args-eq, weight_wilds, args-RowOk, wilds-RowOk, specialize-MatrixOk,
  default_rows-MatrixOk, rows_at-MatrixOk, specialize-weight, specialize-weight_lt,
  default_rows-weight, rows_at-weight,
}
use thrax.Usefulness.Total.Outcomes.{
  Returns, length-rebuild, map_outcome-Returns, next_or-Returns, missing_from-none,
  signature_of-Normal,
}

-- What the recursive calls of `useful` are to do, with fuel `f`.
abbrev pub DeeperTotal : Unions → ℕ → Deeper → Type 0
DeeperTotal env f deeper =
    (k : ℕ) (rows : Matrix) (v : List DPat) (m : Option StrId)
    → MatrixOk env k rows
    → RowOk env k v
    → weight_rows rows + weight_all v < f
    → Returns k (deeper rows v m).outcome

abbrev pub AcrossTotal : Unions → ℕ → ℕ → List DPat → Across → Type 0
AcrossTotal env f n rest across =
    (rows : Matrix) (m : Option StrId)
    → MatrixOk env n rows
    → weight_rows rows + weight_all rest ≤ f
    → Returns n (across rows m).outcome

module _ (env : Unions) (f n : ℕ) (rest : List DPat) (rest_ok : RowOk env n rest) (deeper : Deeper)
    (across : Across) (deeper_total : DeeperTotal env f deeper)
    (across_total : AcrossTotal env f n rest across) (ns : List StrId) where
  try_segments-Returns :
      (dom : Range) (rows : List Row) (segs : List Range) (m : Option StrId)
      → All (NormalPair env ns n) rows
      → weight_pairs rows + weight_all rest ≤ f
      → Returns (suc n) (try_segments across dom rows segs m).outcome
  unfolding try_segments
  try_segments-Returns dom rows [] m t h = tt
  try_segments-Returns dom rows ((a, b) ∷ segs) m t h =
      let r = across (rows_at (a, b) rows) m in
      next_or-Returns n (suc n) r.outcome r.mixed (λ m'. try_segments across dom rows segs m')
        (λ w. ctor (int a b dom) nil ∷ w)
        (across_total (rows_at (a, b) rows) m (rows_at-MatrixOk env ns n (a, b) rows t)
          (omega (arith, rows_at-weight (a, b) rows, h)))
        (λ w l. omega (arith, l)) (λ m'. try_segments-Returns dom rows segs m' t h)

  try_ctors-Returns :
      (rows : List Row) (cs : List Ctor) (m : Option StrId)
      → All (NormalPair env ns n) rows
      → All (NormalCtor env ns) cs
      → All (λ c. any_same (ctors rows) c ≡ true) cs
      → weight_pairs rows + weight_all rest ≤ f
      → Returns (suc n) (try_ctors deeper rows rest cs m).outcome
  unfolding try_ctors
  try_ctors-Returns rows [] m t a b h = tt
  try_ctors-Returns rows (c ∷ cs) m t a b h =
      let v : List DPat = replicate (arity c) wild ++ rest in
      let r = deeper (specialize rows c) v m in
      next_or-Returns (arity c + n) (suc n) r.outcome r.mixed
        (λ m'. try_ctors deeper rows rest cs m') (rebuild c)
        (deeper_total (arity c + n) (specialize rows c) v m
          (specialize-MatrixOk env ns n c rows a.0 t) (wilds-RowOk env rest (arity c) n rest_ok)
          (omega (
            arith,
            specialize-weight_lt c rows b.0,
            weight_all-append (replicate (arity c) wild) rest,
            weight_wilds (arity c),
            h,
          )))
        (λ w l. length-rebuild c n w l) (λ m'. try_ctors-Returns rows cs m' t a.1 b.1 h)

  by_default-Returns :
      (rows : List Row) (missing : List Ctor) (m : Option StrId)
      → All (NormalPair env ns n) rows
      → weight_pairs rows + weight_all rest ≤ f
      → Returns (suc n) (by_default across rows missing m).outcome
  unfolding by_default
  by_default-Returns rows missing m t h =
      map_outcome-Returns n (suc n) (λ w. absent_head missing ∷ w)
        (across (default_rows rows) m).outcome
        (across_total (default_rows rows) m (default_rows-MatrixOk env ns n rows t)
          (omega (arith, default_rows-weight rows, h)))
        (λ w l. omega (arith, l))

  by_missing-Returns :
      (rows : List Row) (cs missing : List Ctor) (m : Option StrId)
      → All (NormalPair env ns n) rows
      → All (NormalCtor env ns) cs
      → missing_from (ctors rows) cs ≡ missing
      → weight_pairs rows + weight_all rest ≤ f
      → Returns (suc n) (by_missing deeper across rows rest cs missing m).outcome
  unfolding by_missing
  by_missing-Returns rows cs [] m t a e h =
      try_ctors-Returns rows cs m t a (missing_from-none (ctors rows) cs e) h
  by_missing-Returns rows cs (c ∷ missing) m t a e h = by_default-Returns rows (c ∷ missing) m t h

  by_signature-Returns :
      (rows : List Row) (o : Option (List Ctor)) (m : Option StrId)
      → All (NormalPair env ns n) rows
      → signature_of (ctors rows) ≡ o
      → weight_pairs rows + weight_all rest ≤ f
      → Returns (suc n) (by_signature deeper across rows rest o m).outcome
  unfolding by_signature
  by_signature-Returns rows none m t e h = by_default-Returns rows [] m t h
  by_signature-Returns rows (some cs) m t e h =
      by_missing-Returns rows cs (missing_from (ctors rows) cs) m t
        (signature_of-Normal env ns n rows cs t e) refl h

  by_head-Returns :
      (rows : List Row) (head : DPat) (m : Option StrId)
      → All (NormalPair env ns n) rows
      → NormalOk env ns head
      → weight_pairs rows + weight head + weight_all rest ≤ f
      → Returns (suc n) (by_head deeper across rows head rest m).outcome
  unfolding by_head weight
  by_head-Returns rows (ctor c args) m t a h =
      let v : List DPat = to_list args ++ rest in
      map_outcome-Returns (arity c + n) (suc n) (rebuild c) (deeper (specialize rows c) v m).outcome
        (deeper_total (arity c + n) (specialize rows c) v m
          (specialize-MatrixOk env ns n c rows a.0 t)
          (args-RowOk env args rest (arity c) n a.2 a.1 rest_ok)
          (omega (
            arith,
            specialize-weight c rows,
            weight_all-append (to_list args) rest,
            weight_args-eq args,
            h,
          )))
        (λ w l. length-rebuild c n w l)
  by_head-Returns rows (product k fs) m t a h = absurd a
  by_head-Returns rows opaque m t a h =
      by_signature-Returns rows (signature_of (ctors rows)) m t refl (omega (arith, h))
  by_head-Returns rows wild m t a h =
      by_signature-Returns rows (signature_of (ctors rows)) m t refl (omega (arith, h))

  by_domain-Returns :
      (col : Column) (o : Option Range)
      → All (NormalPair env ns n) col.rows
      → NormalOk env ns col.head
      → weight_pairs col.rows + weight col.head + weight_all rest ≤ f
      → Returns (suc n) (by_domain deeper across col rest o).outcome
  unfolding by_domain useful_ints
  by_domain-Returns col (some dom) t a h =
      try_segments-Returns dom col.rows
        (sort_by_key dom (segments (head_span col.head dom) (int_ranges col.rows))) col.mixed t
        (omega (arith, h))
  by_domain-Returns col none t a h = by_head-Returns col.rows col.head col.mixed t a h

module _ (env : Unions) (f n : ℕ) (rest : List DPat) (rest_ok : RowOk env n rest) (deeper : Deeper)
    (across : Across) (deeper_total : DeeperTotal env f deeper)
    (across_total : AcrossTotal env f n rest across) where
  step-Returns :
      (rows : Matrix) (head : DPat) (m : Option StrId)
      → MatrixOk env (suc n) rows
      → WellFormed env head
      → weight_rows rows + weight head + weight_all rest ≤ f
      → Returns (suc n) (step deeper across rows head rest m).outcome
  unfolding step with_rows in_column
  step-Returns rows head m t th h =
      let (rs, e, ok, w) = split_rows-some env n rows t in
      let col = normalize_column rs head m in
      let z = normalize_column-Normalized env n rs head m ok th in
      rw e (
        by_domain-Returns env f n rest rest_ok deeper across deeper_total across_total z.names col
          (int_domain (heads col.rows ++ col.head ∷ [])) z.rows_ok z.head_ok
          (omega (arith, z.rows_weight, z.head_weight, w, h)))

-- On a well-formed matrix of the vector's width, with at least as much fuel as the matrix and the
-- vector have constructors, `useful` answers `covered` or a witness as long as the vector; it does
-- not panic or run out of fuel.
pub useful-Returns :
    (env : Unions) (f : ℕ) (rows : Matrix) (ps : List DPat) (m : Option StrId)
    → MatrixOk env (length ps) rows
    → All (WellFormed env) ps
    → weight_rows rows + weight_all ps ≤ f
    → Returns (length ps) (useful f rows ps m).outcome
unfolding useful
useful-Returns env f [] [] m t tp h = refl
useful-Returns env f (r ∷ rows) [] m t tp h = tt
useful-Returns env zero rows (head ∷ rest) m t tp h =
    step-Returns env zero (length rest) rest (tp.1, refl) (λ rows' v m'. run out_of_fuel m')
      (λ rows' m'. useful zero rows' rest m') (λ k rows' v m' a b l. absurd (omega (arith, l)))
      (λ rows' m' a l. useful-Returns env zero rows' rest m' a tp.1 l) rows head m t tp.0
      (omega (arith, h))
useful-Returns env (suc f) rows (head ∷ rest) m t tp h =
    step-Returns env (suc f) (length rest) rest (tp.1, refl) (λ rows' v m'. useful f rows' v m')
      (λ rows' m'. useful (suc f) rows' rest m')
      (λ k rows' v m' a b l.
        rw b.1 at (useful-Returns env f rows' v m' (rw b.1 a) b.0 (omega (arith, l))))
      (λ rows' m' a l. useful-Returns env (suc f) rows' rest m' a tp.1 l) rows head m t tp.0
      (omega (arith, h))
