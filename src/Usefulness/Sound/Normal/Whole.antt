-- ===== src/Usefulness/Sound/Normal/Whole.antt =====
-- `normalize_column` keeps the types of a column, covers no more, and rules nothing out.
use thrax.Prelude.{
  ◌≡◌, refl, true, false, inl, inr, Option, none, some, List, [], ◌∷◌, ◌++◌, All, Any, All-append,
  All-append_left, Bool-cases, if◌then◌else◌,
}
use thrax.Prelude.Names.{StrId}
use thrax.Usefulness.Datum.{Val}
use thrax.Usefulness.Pattern.{Ctor, DPat, wild, opaque}
use thrax.Usefulness.Column.{
  Row, Scan, scan_all, fix, fits, keep_rows, heads, fix_rows, no_scan, Column, normalize_column,
  find_ctor,
}
use thrax.Usefulness.Value.{SeesRow, Covers, MayMatch, Typed, TypedRow}
use thrax.Usefulness.Sound.Normal.Scanned.{ScanOk, Knows, scan_all-ScanOk, scan_all-Knows}
use thrax.Usefulness.Sound.Normal.Fixed.{Normal, fix-Normal, fix-Covers, fix-MayMatch}

abbrev pub TypedAt : Val → List Val → Row → Type 0
TypedAt v vs r = Typed r.0 v × TypedRow r.1 vs

abbrev pub NormalAt : List StrId → Val → List Val → Row → Type 0
NormalAt ns v vs r = Normal ns r.0 v × TypedRow r.1 vs

abbrev pub CoversAt : Val → List Val → Row → Type 0
CoversAt v vs r = Covers r.0 v × SeesRow ⊥ r.1 vs

fits-opaque : (f : Option Ctor) → fits f opaque ≡ false
unfolding fits
fits-opaque none = refl
fits-opaque (some f) = refl

module _ (f : Option Ctor) (s : Scan) (v : Val) (vs : List Val) (ok : ScanOk v s) where
  kept-NormalAt :
      (rows : List Row)
      → All (TypedAt v vs) rows
      → All (NormalAt s.names v vs) (keep_rows f (fix_rows s rows))
  unfolding keep_rows fix_rows
  kept-NormalAt [] t = tt
  kept-NormalAt ((p, r) ∷ rows) t = elim (Bool-cases (fits f (fix s p))) [
    | inl e ↦ rw e (elim (fix-Normal s p v ok t.0.0) [
      | inl o ↦ absurd (true-ne-false (rw (o, fits-opaque f) at e))
      | inr n ↦ ((n, t.0.1), kept-NormalAt rows t.1)
    ])
    | inr e ↦ rw e (kept-NormalAt rows t.1)
  ]
    where
      true-ne-false : false ≡ true → ⊥
      true-ne-false q = cc

  kept-CoversAt :
      (rows : List Row)
      → All (TypedAt v vs) rows
      → All (Knows s.names) (heads rows)
      → Any (CoversAt v vs) (keep_rows f (fix_rows s rows))
      → Any (CoversAt v vs) rows
  unfolding keep_rows fix_rows
  kept-CoversAt [] t k h = h
  kept-CoversAt ((p, r) ∷ rows) t k h = elim (Bool-cases (fits f (fix s p))) [
    | inl e ↦ elim (rw e at h) [
      | inl c ↦ inl (fix-Covers s p v ok k.0 t.0.0 c.0, c.1)
      | inr c ↦ inr (kept-CoversAt rows t.1 k.1 c)
    ]
    | inr e ↦ inr (kept-CoversAt rows t.1 k.1 (rw e at h))
  ]

  kept-head_Normal :
      (p : DPat) → Typed p v → Normal s.names (if fits f (fix s p) then fix s p else wild) v
  kept-head_Normal p t = elim (Bool-cases (fits f (fix s p))) [
    | inl e ↦ rw e (elim (fix-Normal s p v ok t) [
      | inl o ↦ absurd (true-ne-false (rw (o, fits-opaque f) at e))
      | inr n ↦ n
    ])
    | inr e ↦ rw e tt
  ]
    where
      true-ne-false : false ≡ true → ⊥
      true-ne-false q = cc

  kept-head_MayMatch :
      (p : DPat)
      → Typed p v
      → MayMatch p v
      → MayMatch (if fits f (fix s p) then fix s p else wild) v
  kept-head_MayMatch p t h = elim (Bool-cases (fits f (fix s p))) [
    | inl e ↦ rw e (fix-MayMatch s p v ok t h)
    | inr e ↦ rw e tt
  ]

-- What a normalized column says of a value at which the column is typed.
pub record Normalizes (rows : List Row) (head : DPat) (v : Val) (vs : List Val) (col : Column)
    : Type 0 where
  pub names : List StrId
  pub normal : All (NormalAt names v vs) col.rows
  pub normal_head : Normal names col.head v
  pub covers : Any (CoversAt v vs) col.rows → Any (CoversAt v vs) rows
  pub may_match : MayMatch head v → MayMatch col.head v

heads-Typed :
    (v : Val) (vs : List Val) (rows : List Row)
    → All (TypedAt v vs) rows
    → All (λ p. Typed p v) (heads rows)
heads-Typed v vs [] t = tt
heads-Typed v vs ((p, r) ∷ rows) t = (t.0.0, heads-Typed v vs rows t.1)

-- `normalize_column` makes every row and the head normal, covers no value that the column did not
-- cover, and leaves the head matching what it may match, at a value at which the column is typed:
-- see `Normalizes`.
pub normalize_column-Normalizes :
    (rows : List Row) (head : DPat) (mixed : Option StrId) (v : Val) (vs : List Val)
    → All (TypedAt v vs) rows
    → Typed head v
    → Normalizes rows head v vs (normalize_column rows head mixed)
unfolding normalize_column
normalize_column-Normalizes rows head mixed v vs t th =
    let column : List DPat = heads rows ++ head ∷ [] in
    let s = scan_all no_scan column in
    let typed =
      All-append (λ p. Typed p v) (heads rows) (head ∷ []) (heads-Typed v vs rows t) (th, tt) in
    let ok = scan_all-ScanOk no_scan column v (tt, tt) typed in
    let knows =
      All-append_left (Knows s.names) (heads rows) (head ∷ []) (scan_all-Knows no_scan column) in
    let family = find_ctor (heads (fix_rows s rows) ++ fix s head ∷ []) in
    record {
      names = s.names;
      normal = kept-NormalAt family s v vs ok rows t;
      normal_head = kept-head_Normal family s v vs ok head th;
      covers = kept-CoversAt family s v vs ok rows t knows;
      may_match = kept-head_MayMatch family s v vs ok head th;
    }
