-- ===== src/Usefulness/Sound/Rest.antt =====
-- The rows without their first column: by default, and within a segment of integers.
use thrax.Prelude.{
  ◌≡◌, refl, subst, true, ◌&&◌, inl, inr, some, List, [], ◌∷◌, All, Any, Bool-cases, arith,
  &&-eq-true,
}
use mathlib.Core.Option.{some_inj}
use thrax.Prelude.Int.{ℤ, leb_ℤ, leb_ℤ→le, le→leb_ℤ}
use thrax.Prelude.Names.{StrId}
use thrax.Usefulness.Datum.{Val}
use thrax.Usefulness.Pattern.{int, DPat, DPats, wild, ctor, nil, cons}
use thrax.Usefulness.Segments.{Range}
use thrax.Usefulness.Column.{Row}
use thrax.Usefulness.Search.{int_domain, rows_at, default_rows, head_span}
use thrax.Usefulness.Value.{opened, SeesAll, TypedAll, Covers, MayMatch}
use thrax.Usefulness.Sound.Ints.{In}
use thrax.Usefulness.Sound.Normal.Fixed.{Normal}
use thrax.Usefulness.Sound.Normal.Whole.{NormalAt, CoversAt}
use thrax.Usefulness.Sound.Matrix.{TypedMatrix, CoveredBy}

module _ (ns : List StrId) (v : Val) (vs : List Val) where
  pub default_rows-Typed :
      (rows : List Row) → All (NormalAt ns v vs) rows → TypedMatrix (default_rows rows) vs
  unfolding default_rows
  default_rows-Typed [] t = tt
  default_rows-Typed ((wild, r) ∷ rows) t = (t.0.1, default_rows-Typed rows t.1)
  default_rows-Typed ((_, r) ∷ rows) t = default_rows-Typed rows t.1

  pub default_rows-Covers :
      (rows : List Row) → CoveredBy (default_rows rows) vs → Any (CoversAt v vs) rows
  unfolding default_rows
  default_rows-Covers [] h = h
  default_rows-Covers ((wild, r) ∷ rows) (inl h) = inl (tt, h)
  default_rows-Covers ((wild, r) ∷ rows) (inr h) = inr (default_rows-Covers rows h)
  default_rows-Covers ((_, r) ∷ rows) h = inr (default_rows-Covers rows h)

-- ## Integers

-- A column with a range holds integers of its domain.
pub int_domain-In :
    (ns : List StrId) (v : Val) (dom : Range) (ps : List DPat)
    → All (λ p. Normal ns p v) ps
    → int_domain ps ≡ some dom
    → (z : ℤ) × (v ≡ Val.int z) × In z dom
unfolding int_domain
int_domain-In ns v dom [] t e = cc
int_domain-In ns (Val.int z) dom (ctor (int lo hi d) args ∷ ps) t e =
    (z, refl, subst (In z) (some_inj.0 e) t.0.0)
int_domain-In ns _ dom (ctor (int lo hi d) args ∷ ps) t e = absurd t.0.0
int_domain-In ns v dom (ctor c args ∷ ps) t e = int_domain-In ns v dom ps t.1 e
int_domain-In ns v dom (_ ∷ ps) t e = int_domain-In ns v dom ps t.1 e

pub head_span-In :
    (ns : List StrId) (head : DPat) (dom : Range) (z : ℤ)
    → Normal ns head (Val.int z)
    → MayMatch head (Val.int z)
    → In z dom
    → In z (head_span head dom)
unfolding opened
head_span-In ns (ctor (int lo hi d) args) dom z n h i =
    elim (Bool-cases (leb_ℤ lo z && leb_ℤ z hi)) [
      | inl e ↦
          let (a, b) = &&-eq-true (leb_ℤ lo z) (leb_ℤ z hi) e in (leb_ℤ→le lo z a, leb_ℤ→le z hi b)
      | inr e ↦ absurd (rw e at h)
    ]
head_span-In ns _ dom z n h i = i

no_args : (args : DPats) → TypedAll args [] → SeesAll ⊥ args []
no_args nil t = tt
no_args (cons p ps) t = absurd t

-- A range that holds a segment covers each of its numbers.
range-Covers :
    (ns : List StrId) (lo hi : ℤ) (d : Range) (args : DPats) (z : ℤ) (seg : Range)
    → In z seg
    → (leb_ℤ lo seg.0 && leb_ℤ seg.1 hi) ≡ true
    → Normal ns (ctor (int lo hi d) args) (Val.int z)
    → Covers (ctor (int lo hi d) args) (Val.int z)
unfolding opened
range-Covers ns lo hi d args z seg inside e n =
    let (a, b) = &&-eq-true (leb_ℤ lo seg.0) (leb_ℤ seg.1 hi) e in
    let below = leb_ℤ→le lo seg.0 a in
    let above = leb_ℤ→le seg.1 hi b in
    let left = le→leb_ℤ lo z (omega arith) in
    let right = le→leb_ℤ z hi (omega arith) in
    rw (left, right) (no_args args (rw (left, right) at n.2))

module _ (ns : List StrId) (z : ℤ) (vs : List Val) (seg : Range) (inside : In z seg) where
  pub rows_at-Typed :
      (rows : List Row) → All (NormalAt ns (Val.int z) vs) rows → TypedMatrix (rows_at seg rows) vs
  unfolding rows_at
  rows_at-Typed [] t = tt
  rows_at-Typed ((ctor (int lo hi d) args, r) ∷ rows) t =
      elim (Bool-cases (leb_ℤ lo seg.0 && leb_ℤ seg.1 hi)) [
        | inl e ↦ rw e (t.0.1, rows_at-Typed rows t.1)
        | inr e ↦ rw e (rows_at-Typed rows t.1)
      ]
  rows_at-Typed ((_, r) ∷ rows) t = (t.0.1, rows_at-Typed rows t.1)

  pub rows_at-Covers :
      (rows : List Row)
      → All (NormalAt ns (Val.int z) vs) rows
      → CoveredBy (rows_at seg rows) vs
      → Any (CoversAt (Val.int z) vs) rows
  unfolding rows_at
  rows_at-Covers [] t h = h
  rows_at-Covers ((ctor (int lo hi d) args, r) ∷ rows) t h =
      elim (Bool-cases (leb_ℤ lo seg.0 && leb_ℤ seg.1 hi)) [
        | inl e ↦ elim (rw e at h) [
          | inl k ↦ inl (range-Covers ns lo hi d args z seg inside e t.0.0, k)
          | inr k ↦ inr (rows_at-Covers rows t.1 k)
        ]
        | inr e ↦ inr (rows_at-Covers rows t.1 (rw e at h))
      ]
  rows_at-Covers ((wild, r) ∷ rows) t (inl h) = inl (tt, h)
  rows_at-Covers ((wild, r) ∷ rows) t (inr h) = inr (rows_at-Covers rows t.1 h)
  rows_at-Covers ((ctor c args, r) ∷ rows) t h = absurd t.0.0.0
  rows_at-Covers ((_, r) ∷ rows) t h = absurd t.0.0
