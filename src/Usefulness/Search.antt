-- ===== src/Usefulness/Search.antt =====
-- `useful`: a value that a vector of patterns matches and no earlier row does, or none.
use thrax.Prelude.{
  ℕ, zero, suc, Bool, true, false, ◌&&◌, ◌||◌, not, Option, none, some, List, [], ◌∷◌, ◌++◌,
  replicate, if◌then◌else◌,
}
use thrax.Prelude.Int.{leb_ℤ, eq_ℤ}
use thrax.Prelude.Names.{StrId}
use thrax.Usefulness.Pattern.{
  Ctor, int, DPat, wild, ctor, product, nil, to_list, from_list, arity, same, signature,
}
use thrax.Usefulness.Segments.{Range, segments}
use thrax.Usefulness.Column.{Row, heads, Column, normalize_column, specialize, rebuild}

-- `witness` is `Some`, `covered` is `None`. `panicked` is an index out of bounds or an
-- `unreachable!`, and `out_of_fuel` has no counterpart in the source; neither arises on a matrix
-- whose rows are as long as the vector (`Total`).
pub data Outcome : Type 0 where
  covered panicked out_of_fuel : Outcome
  witness : List DPat → Outcome

-- The outcome, and what `mixed` holds afterwards.
pub record Run : Type 0 where
  pub outcome : Outcome
  pub mixed : Option StrId

abbrev pub run : Outcome → Option StrId → Run
run o m = record { outcome = o; mixed = m }

abbrev pub map_outcome : (List DPat → List DPat) → Outcome → Outcome
map_outcome f (witness w) = witness (f w)
map_outcome f o = o

abbrev pub map_witness : (List DPat → List DPat) → Run → Run
map_witness f r = run (map_outcome f r.outcome) r.mixed

-- The end of a round of a loop that returns the first witness.
abbrev pub next_or : Outcome → Option StrId → (Option StrId → Run) → (List DPat → List DPat) → Run
next_or covered m next f = next m
next_or o m next f = run (map_outcome f o) m

abbrev pub Matrix : Type 0
Matrix = List (List DPat)

-- The recursive call on any vector, and that on the rest of the vector.
abbrev pub Deeper : Type 0
Deeper = Matrix → List DPat → Option StrId → Run

abbrev pub Across : Type 0
Across = Matrix → Option StrId → Run

-- `r[0]` and `r[1..]` of every row
unfoldable pub split_rows : Matrix → Option (List Row)
split_rows [] = some []
split_rows ([] ∷ rows) = none
split_rows ((p ∷ r) ∷ rows) = elim (split_rows rows) as (λ _. Option (List Row)) [
  | none ↦ none
  | some rs ↦ some ((p, r) ∷ rs)
]

unfoldable pub int_domain : List DPat → Option Range
int_domain [] = none
int_domain (ctor (int lo hi dom) args ∷ ps) = some dom
int_domain (_ ∷ ps) = int_domain ps

unfoldable pub int_ranges : List Row → List Range
int_ranges [] = []
int_ranges ((ctor (int lo hi dom) args, r) ∷ rows) = (lo, hi) ∷ int_ranges rows
int_ranges (_ ∷ rows) = int_ranges rows

abbrev pub head_span : DPat → Range → Range
head_span (ctor (int lo hi dom) args) d = (lo, hi)
head_span p d = d

-- The rows whose range holds the segment, without their first column.
unfoldable pub rows_at : Range → List Row → Matrix
rows_at seg [] = []
rows_at (a, b) ((ctor (int lo hi dom) args, r) ∷ rows) =
    let rest = rows_at (a, b) rows in if leb_ℤ lo a && leb_ℤ b hi then r ∷ rest else rest
rows_at seg ((p, r) ∷ rows) = r ∷ rows_at seg rows

-- `segs.sort_by_key(..)`, a stable sort: the interior gaps, then the top, then the bottom.
unfoldable pub pick : (Range → Bool) → List Range → List Range
pick p [] = []
pick p (s ∷ ss) = let rest = pick p ss in if p s then s ∷ rest else rest

unfoldable pub sort_by_key : Range → List Range → List Range
unfolding pick
sort_by_key dom segs =
    pick (λ s. not (eq_ℤ s.0 dom.0) && not (eq_ℤ s.1 dom.1)) segs
    ++ (pick (λ s. not (eq_ℤ s.0 dom.0) && eq_ℤ s.1 dom.1) segs ++ pick (λ s. eq_ℤ s.0 dom.0) segs)

unfoldable pub try_segments : Across → Range → List Row → List Range → Option StrId → Run
unfolding rows_at
try_segments across dom rows [] mixed = run covered mixed
try_segments across dom rows ((a, b) ∷ segs) mixed =
    let r = across (rows_at (a, b) rows) mixed in
    next_or r.outcome r.mixed (λ m. try_segments across dom rows segs m)
      (λ w. ctor (int a b dom) nil ∷ w)

unfoldable pub useful_ints : Across → List Row → DPat → Range → Option StrId → Run
unfolding try_segments sort_by_key segments int_ranges
useful_ints across rows head dom mixed =
    try_segments across dom rows (sort_by_key dom (segments (head_span head dom) (int_ranges rows)))
      mixed

unfoldable pub ctors : List Row → List Ctor
ctors [] = []
ctors ((ctor c args, r) ∷ rows) = c ∷ ctors rows
ctors (_ ∷ rows) = ctors rows

unfoldable pub any_same : List Ctor → Ctor → Bool
unfolding same
any_same [] c = false
any_same (h ∷ hs) c = same h c || any_same hs c

unfoldable pub missing_from : List Ctor → List Ctor → List Ctor
unfolding any_same
missing_from hs [] = []
missing_from hs (c ∷ cs) = let rest = missing_from hs cs in if any_same hs c then rest else c ∷ rest

-- The signature of the first constructor, if there is one and its type is finite.
unfoldable pub signature_of : List Ctor → Option (List Ctor)
unfolding signature
signature_of [] = none
signature_of (c ∷ cs) = signature c

unfoldable pub default_rows : List Row → Matrix
default_rows [] = []
default_rows ((wild, r) ∷ rows) = r ∷ default_rows rows
default_rows (_ ∷ rows) = default_rows rows

unfoldable pub try_ctors : Deeper → List Row → List DPat → List Ctor → Option StrId → Run
unfolding specialize rebuild arity
try_ctors deeper rows rest [] mixed = run covered mixed
try_ctors deeper rows rest (c ∷ cs) mixed =
    let r = deeper (specialize rows c) (replicate (arity c) wild ++ rest) mixed in
    next_or r.outcome r.mixed (λ m. try_ctors deeper rows rest cs m) (rebuild c)

unfoldable pub absent_head : List Ctor → DPat
unfolding arity
absent_head [] = wild
absent_head (c ∷ cs) = ctor c (from_list (replicate (arity c) wild))

unfoldable pub by_default : Across → List Row → List Ctor → Option StrId → Run
unfolding default_rows absent_head
by_default across rows missing mixed =
    map_witness (λ w. absent_head missing ∷ w) (across (default_rows rows) mixed)

-- Every constructor is tried if none is missing.
unfoldable pub by_missing :
    Deeper → Across → List Row → List DPat → List Ctor → List Ctor → Option StrId → Run
unfolding try_ctors by_default
by_missing deeper across rows rest cs [] mixed = try_ctors deeper rows rest cs mixed
by_missing deeper across rows rest cs (c ∷ missing) mixed =
    by_default across rows (c ∷ missing) mixed

unfoldable pub by_signature :
    Deeper → Across → List Row → List DPat → Option (List Ctor) → Option StrId → Run
unfolding by_missing by_default missing_from ctors
by_signature deeper across rows rest none mixed = by_default across rows [] mixed
by_signature deeper across rows rest (some cs) mixed =
    by_missing deeper across rows rest cs (missing_from (ctors rows) cs) mixed

unfoldable pub by_head : Deeper → Across → List Row → DPat → List DPat → Option StrId → Run
unfolding by_signature signature_of ctors specialize rebuild
by_head deeper across rows (ctor c args) rest mixed =
    map_witness (rebuild c) (deeper (specialize rows c) (to_list args ++ rest) mixed)
by_head deeper across rows (product k fs) rest mixed = run panicked mixed
by_head deeper across rows p rest mixed =
    by_signature deeper across rows rest (signature_of (ctors rows)) mixed

unfoldable pub by_domain : Deeper → Across → Column → List DPat → Option Range → Run
unfolding by_head useful_ints
by_domain deeper across col rest (some dom) = useful_ints across col.rows col.head dom col.mixed
by_domain deeper across col rest none = by_head deeper across col.rows col.head rest col.mixed

unfoldable pub in_column : Deeper → Across → Column → List DPat → Run
unfolding by_domain int_domain
in_column deeper across col rest =
    by_domain deeper across col rest (int_domain (heads col.rows ++ col.head ∷ []))

unfoldable pub with_rows :
    Deeper → Across → Option (List Row) → DPat → List DPat → Option StrId → Run
unfolding in_column normalize_column
with_rows deeper across none head rest mixed = run panicked mixed
with_rows deeper across (some rs) head rest mixed =
    in_column deeper across (normalize_column rs head mixed) rest

unfoldable pub step : Deeper → Across → Matrix → DPat → List DPat → Option StrId → Run
unfolding with_rows split_rows
step deeper across rows head rest mixed = with_rows deeper across (split_rows rows) head rest mixed

abbrev pub is_empty {ℓ} : {A : Type ℓ} → List A → Bool
is_empty [] = true
is_empty (_ ∷ _) = false

-- The fuel bounds how many constructors are opened one inside another; a call on the rest of the
-- vector costs none.
unfoldable pub useful : ℕ → Matrix → List DPat → Option StrId → Run
unfolding step
useful f rows [] mixed = run (if is_empty rows then witness [] else covered) mixed
useful zero rows (head ∷ rest) mixed =
    step (λ rows' v m. run out_of_fuel m) (λ rows' m. useful zero rows' rest m) rows head rest mixed
useful (suc f) rows (head ∷ rest) mixed =
    step (λ rows' v m. useful f rows' v m) (λ rows' m. useful (suc f) rows' rest m) rows head rest
      mixed
