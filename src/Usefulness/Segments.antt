-- ===== src/Usefulness/Segments.antt =====
-- `segments`: a span of integers cut at every boundary of a list of ranges.
use thrax.Prelude.{◌&&◌, List, [], ◌∷◌, ◌++◌, if◌then◌else◌}
use thrax.Prelude.Int.{ℤ, pos, ◌+ℤ◌, ◌-ℤ◌, leb_ℤ, ltb_ℤ, eq_ℤ}

abbrev pub Range : Type 0
Range = ℤ × ℤ

-- `cuts.sort_unstable()`, on integers
unfoldable pub insert : ℤ → List ℤ → List ℤ
insert x [] = x ∷ []
insert x (y ∷ ys) = if leb_ℤ x y then x ∷ y ∷ ys else y ∷ insert x ys

unfoldable pub sort : List ℤ → List ℤ
sort [] = []
sort (x ∷ xs) = insert x (sort xs)

-- `cuts.dedup()`: `x` is the last element kept
unfoldable pub dedup_from : ℤ → List ℤ → List ℤ
dedup_from x [] = x ∷ []
dedup_from x (y ∷ ys) = if eq_ℤ x y then dedup_from x ys else x ∷ dedup_from y ys

unfoldable pub dedup : List ℤ → List ℤ
unfolding dedup_from
dedup [] = []
dedup (x ∷ xs) = dedup_from x xs

-- `cuts.windows(2).map(|w| (w[0], w[1] - 1))`
unfoldable pub windows : List ℤ → List Range
windows [] = []
windows (x ∷ []) = []
windows (x ∷ y ∷ ys) = (x, y -ℤ pos 1) ∷ windows (y ∷ ys)

-- the boundaries of one range that lie inside the span
unfoldable pub cuts_of : Range → Range → List ℤ
cuts_of (lo, hi) (a, b) =
    let next = b +ℤ pos 1 in
    let after : List ℤ = if ltb_ℤ lo next && leb_ℤ next hi then next ∷ [] else [] in
    if ltb_ℤ lo a && leb_ℤ a hi then a ∷ after else after

unfoldable pub cuts : Range → List Range → List ℤ
unfolding cuts_of
cuts span [] = []
cuts span (r ∷ rs) = cuts_of span r ++ cuts span rs

unfoldable pub segments : Range → List Range → List Range
unfolding sort insert dedup windows cuts
segments (lo, hi) ranges = windows (dedup (sort (lo ∷ (hi +ℤ pos 1) ∷ cuts (lo, hi) ranges)))
