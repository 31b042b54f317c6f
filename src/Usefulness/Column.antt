-- ===== src/Usefulness/Column.antt =====
-- `normalize_column`, `specialize` and `rebuild`: the first column of a pattern matrix.
use mathlib.Core.Option
use thrax.Prelude.{
  ℕ, zero, suc, Bool, true, false, ◌&&◌, ◌==◌, Option, none, some, List, [], ◌∷◌, ◌++◌, map, length,
  take, drop, replicate, if◌then◌else◌,
}
use thrax.Prelude.Names.{StrId, eq_str, contains}
use thrax.Usefulness.Pattern.{
  ProductKind, Siblings, Ctor, variant, seq_empty, seq_more, product, DPat, DPats, DFields, wild,
  opaque, ctor, end, field, to_list, from_list, arity, same, same_family,
}

-- A row with at least one column: its head and the rest.
abbrev pub Row : Type 0
Row = DPat × List DPat

-- What the first loop of `normalize_column` gathers.
pub record Scan : Type 0 where
  pub names : List StrId
  pub kind : Option ProductKind
  pub list : Option Siblings

unfoldable pub add_names : List StrId → DFields → List StrId
add_names names end = names
add_names names (field n p fs) = add_names (if contains names n then names else names ++ n ∷ []) fs

abbrev pub or_insert {ℓ} : {A : Type ℓ} → Option A → A → Option A
or_insert none a = some a
or_insert (some b) a = some b

-- The `Ctor` that `list` holds is a variant of the union `List`; of it only the siblings are used.
unfoldable pub scan : Scan → DPat → Scan
unfolding add_names
scan s (product k fs) = record s { names = add_names s.names fs; kind = or_insert s.kind k }
scan s (ctor (variant u i ss) args) =
    if eq_str u "List" then record s { list = or_insert s.list ss } else s
scan s p = s

unfoldable pub scan_all : Scan → List DPat → Scan
unfolding scan
scan_all s [] = s
scan_all s (p ∷ ps) = scan_all (scan s p) ps

-- The pattern of field `n`, or a wildcard.
unfoldable pub find_field : DFields → StrId → DPat
find_field end n = wild
find_field (field m p fs) n = if eq_str m n then p else find_field fs n

-- The index of the first variant of this tag and arity.
unfoldable pub position : Siblings → StrId → ℕ → Option ℕ
position [] tag n = none
position ((t, k) ∷ ss) tag n =
    let rest = Option.map suc (position ss tag n) in
    if eq_str t tag && k == n then some zero else rest

abbrev pub variant_at : Option ℕ → Siblings → DPats → DPat
variant_at none ss args = opaque
variant_at (some i) ss args = ctor (variant "List" i ss) args

-- A sequence step in a column of `List` variants becomes the variant of that tag.
unfoldable pub fix_seq : Option Siblings → StrId → Ctor → DPats → DPat
unfolding position
fix_seq none tag c args = ctor c args
fix_seq (some ss) tag c args = variant_at (position ss tag (length (to_list args))) ss args

-- The product's own kind stands in for `kind.expect(..)`: scanning has seen this product.
abbrev pub kind_or : Option ProductKind → ProductKind → ProductKind
kind_or none k = k
kind_or (some k') k = k'

unfoldable pub fix : Scan → DPat → DPat
unfolding find_field fix_seq
fix s (product k fs) =
    ctor (product (kind_or s.kind k) s.names) (from_list (map (find_field fs) s.names))
fix s (ctor seq_empty args) = fix_seq s.list "Nil" seq_empty args
fix s (ctor seq_more args) = fix_seq s.list "Cons" seq_more args
fix s p = p

unfoldable pub find_ctor : List DPat → Option Ctor
find_ctor [] = none
find_ctor (ctor c args ∷ ps) = some c
find_ctor (_ ∷ ps) = find_ctor ps

unfoldable pub fits : Option Ctor → DPat → Bool
fits (some f) (ctor c args) = same_family c f
fits f opaque = false
fits f p = true

unfoldable pub seq_variant_clash : Ctor → Ctor → Option StrId
seq_variant_clash (variant u i ss) seq_empty = some u
seq_variant_clash (variant u i ss) seq_more = some u
seq_variant_clash seq_empty (variant u i ss) = some u
seq_variant_clash seq_more (variant u i ss) = some u
seq_variant_clash a b = none

-- The effect of `fits` on `mixed`.
unfoldable pub clash : Option Ctor → DPat → Option StrId → Option StrId
unfolding seq_variant_clash same_family
clash (some f) (ctor c args) mixed =
    if same_family c f
    then mixed
    else elim (seq_variant_clash c f) [ none ↦ mixed | some u ↦ or_insert mixed u ]
clash f p mixed = mixed

unfoldable pub clash_all : Option Ctor → List DPat → Option StrId → Option StrId
unfolding clash
clash_all f [] mixed = mixed
clash_all f (p ∷ ps) mixed = clash_all f ps (clash f p mixed)

unfoldable pub keep_rows : Option Ctor → List Row → List Row
unfolding fits
keep_rows f [] = []
keep_rows f ((p, r) ∷ rows) =
    let rest = keep_rows f rows in if fits f p then (p, r) ∷ rest else rest

abbrev pub heads : List Row → List DPat
heads [] = []
heads ((p, r) ∷ rows) = p ∷ heads rows

unfoldable pub fix_rows : Scan → List Row → List Row
unfolding fix
fix_rows s [] = []
fix_rows s ((p, r) ∷ rows) = (fix s p, r) ∷ fix_rows s rows

pub record Column : Type 0 where
  pub rows : List Row
  pub head : DPat
  pub mixed : Option StrId

abbrev pub no_scan : Scan
no_scan = record { names = []; kind = none; list = none }

unfoldable pub normalize_column : List Row → DPat → Option StrId → Column
unfolding scan_all fix_rows fix find_ctor clash_all keep_rows fits
normalize_column rows head mixed =
    let s = scan_all no_scan (heads rows ++ head ∷ []) in
    let fixed = fix_rows s rows in
    let head' = fix s head in
    let family = find_ctor (heads fixed ++ head' ∷ []) in
    record {
      rows = keep_rows family fixed;
      head = if fits family head' then head' else wild;
      mixed = clash_all family (heads fixed ++ head' ∷ []) mixed;
    }

-- The rows that match constructor `c`, its arguments in place of the first column.
unfoldable pub specialize : List Row → Ctor → List (List DPat)
unfolding same arity
specialize [] c = []
specialize ((ctor d args, r) ∷ rows) c =
    let rest = specialize rows c in if same d c then (to_list args ++ r) ∷ rest else rest
specialize ((p, r) ∷ rows) c = (replicate (arity c) wild ++ r) ∷ specialize rows c

unfoldable pub rebuild : Ctor → List DPat → List DPat
unfolding arity
rebuild c w = ctor c (from_list (take (arity c) w)) ∷ drop (arity c) w
