-- ===== src/Usefulness/Sound/Loops.antt =====
-- The branches of `useful` that try one case after another, or drop the first column.
use thrax.Prelude.{◌≡◌, refl, sym, subst, Option, List, [], ◌∷◌, ◌++◌, All, Any, All-Any, replicate}
use thrax.Prelude.Int.{ℤ}
use thrax.Prelude.Names.{StrId}
use thrax.Usefulness.Datum.{Val}
use thrax.Usefulness.Pattern.{Ctor, int, DPat, wild, ctor, nil, arity}
use thrax.Usefulness.Segments.{Range, segments}
use thrax.Usefulness.Column.{Row, specialize, rebuild}
use thrax.Usefulness.Search.{
  Outcome, covered, panicked, out_of_fuel, witness, Run, next_or, map_outcome, Matrix, Deeper,
  Across, int_ranges, head_span, rows_at, sort_by_key, try_segments, useful_ints, default_rows,
  try_ctors, absent_head, by_default,
}
use thrax.Usefulness.Value.{SeesRow, MayMatch, TypedRow}
use thrax.Usefulness.Sound.Ctors.{Built}
use thrax.Usefulness.Sound.Ints.{In, segments-In, sort_by_key-Any}
use thrax.Usefulness.Sound.Normal.Fixed.{Normal}
use thrax.Usefulness.Sound.Normal.Whole.{NormalAt, CoversAt}
use thrax.Usefulness.Sound.Matrix.{
  TypedMatrix, CoveredBy, wilds-Typed, wilds-Sees, specialize-Typed, specialize-Covers,
}
use thrax.Usefulness.Sound.Rest.{
  default_rows-Typed, default_rows-Covers, head_span-In, rows_at-Typed, rows_at-Covers,
}

abbrev pub IsCovered : Run → Type 0
IsCovered r = r.outcome ≡ covered

pub map_outcome-covered :
    (f : List DPat → List DPat) (o : Outcome) → map_outcome f o ≡ covered → o ≡ covered
map_outcome-covered f covered e = refl
map_outcome-covered f panicked e = cc
map_outcome-covered f out_of_fuel e = cc
map_outcome-covered f (witness w) e = cc

next_or-covered :
    (o : Outcome) (m : Option StrId) (next : Option StrId → Run) (f : List DPat → List DPat)
    → IsCovered (next_or o m next f)
    → (o ≡ covered) × IsCovered (next m)
next_or-covered covered m next f h = (refl, h)
next_or-covered panicked m next f h = cc
next_or-covered out_of_fuel m next f h = cc
next_or-covered (witness w) m next f h = cc

-- The recursive calls are sound.
abbrev pub DeeperOk : Deeper → Type 0
DeeperOk deeper =
    (rows : Matrix) (ps : List DPat) (m : Option StrId) (vs : List Val)
    → TypedMatrix rows vs
    → TypedRow ps vs
    → SeesRow (Unit {0}) ps vs
    → IsCovered (deeper rows ps m)
    → CoveredBy rows vs

abbrev pub AcrossOk : Across → List Val → Type 0
AcrossOk across vs =
    (rows : Matrix) (m : Option StrId)
    → TypedMatrix rows vs
    → IsCovered (across rows m)
    → CoveredBy rows vs

-- A loop that finds nothing has tried every case.
try_segments-all :
    (across : Across) (dom : Range) (rows : List Row) (segs : List Range) (m : Option StrId)
    → IsCovered (try_segments across dom rows segs m)
    → All (λ s. (m' : Option StrId) × IsCovered (across (rows_at s rows) m')) segs
unfolding try_segments
try_segments-all across dom rows [] m h = tt
try_segments-all across dom rows ((a, b) ∷ segs) m h =
    let r = across (rows_at (a, b) rows) m in
    let both =
      next_or-covered r.outcome r.mixed (λ m'. try_segments across dom rows segs m')
        (λ w. ctor (int a b dom) nil ∷ w) h in
    ((m, both.0), try_segments-all across dom rows segs r.mixed both.1)

try_ctors-all :
    (deeper : Deeper) (rows : List Row) (rest : List DPat) (cs : List Ctor) (m : Option StrId)
    → IsCovered (try_ctors deeper rows rest cs m)
    → All
        (λ c.
          (m' : Option StrId) × IsCovered
            (deeper (specialize rows c) (replicate (arity c) wild ++ rest) m'))
        cs
unfolding try_ctors
try_ctors-all deeper rows rest [] m h = tt
try_ctors-all deeper rows rest (c ∷ cs) m h =
    let r = deeper (specialize rows c) (replicate (arity c) wild ++ rest) m in
    let both =
      next_or-covered r.outcome r.mixed (λ m'. try_ctors deeper rows rest cs m') (rebuild c) h in
    ((m, both.0), try_ctors-all deeper rows rest cs r.mixed both.1)

module _ (ns : List StrId) (v : Val) (vs : List Val) (rest : List DPat)
    (rest_typed : TypedRow rest vs) (rest_may : SeesRow (Unit {0}) rest vs) where
  pub useful_ints_sound :
      (across : Across) (rows : List Row) (head : DPat) (dom : Range) (m : Option StrId)
      → AcrossOk across vs
      → All (NormalAt ns v vs) rows
      → Normal ns head v
      → MayMatch head v
      → (z : ℤ) × (v ≡ Val.int z) × In z dom
      → IsCovered (useful_ints across rows head dom m)
      → Any (CoversAt v vs) rows
  unfolding useful_ints
  useful_ints_sound across rows head dom m ok t n h (z, e, i) c =
      let segs = segments (head_span head dom) (int_ranges rows) in
      let tried = try_segments-all across dom rows (sort_by_key dom segs) m c in
      let t' = subst (λ w. All (NormalAt ns w vs) rows) e t in
      let spanned =
        head_span-In ns head dom z (subst (Normal ns head) e n) (subst (MayMatch head) e h) i in
      let (s, (m', k), inside) = All-Any (In z) (sort_by_key dom segs) tried (
        sort_by_key-Any (In z) dom segs
          (segments-In z (head_span head dom) (int_ranges rows) spanned)) in
      subst (λ w. Any (CoversAt w vs) rows) (sym e)
        (rows_at-Covers ns z vs s inside rows t'
          (ok (rows_at s rows) m' (rows_at-Typed ns z vs s inside rows t') k))

  pub by_default_sound :
      (across : Across) (rows : List Row) (missing : List Ctor) (m : Option StrId)
      → AcrossOk across vs
      → All (NormalAt ns v vs) rows
      → IsCovered (by_default across rows missing m)
      → Any (CoversAt v vs) rows
  unfolding by_default
  by_default_sound across rows missing m ok t c = default_rows-Covers ns v vs rows (
      ok (default_rows rows) m (default_rows-Typed ns v vs rows t) (
        map_outcome-covered (λ w. absent_head missing ∷ w) (across (default_rows rows) m).outcome
          c))

  pub try_ctors_sound :
      (deeper : Deeper) (rows : List Row) (cs : List Ctor) (m : Option StrId)
      → DeeperOk deeper
      → All (NormalAt ns v vs) rows
      → Any (Built ns v) cs
      → IsCovered (try_ctors deeper rows rest cs m)
      → Any (CoversAt v vs) rows
  try_ctors_sound deeper rows cs m ok t b h =
      let (c, (m', k), (ih, oc, ws, e, l)) =
        All-Any (Built ns v) cs (try_ctors-all deeper rows rest cs m h) b in
      specialize-Covers ns c v ws vs oc e l rows t (
        ok (specialize rows c) (replicate (arity c) wild ++ rest) m' (ws ++ vs)
          (specialize-Typed ns c v ws vs oc e l rows t)
          (wilds-Typed (arity c) rest ws vs l rest_typed)
          (wilds-Sees (Unit {0}) (arity c) rest ws vs l rest_may) k)
