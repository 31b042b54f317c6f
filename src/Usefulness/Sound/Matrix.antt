-- ===== src/Usefulness/Sound/Matrix.antt =====
-- The matrices that `useful` recurs on: what they cover, the matrix covers.
use mathlib.Core.Option.{some_inj}
use thrax.Prelude.{
  ℕ, zero, suc, ◌≡◌, sym, ◌∙◌, subst, true, inl, inr, none, some, List, [], ◌∷◌, ◌++◌, All, Any,
  length, replicate, Bool-cases, Option-cases, arith,
}
use thrax.Prelude.Names.{StrId}
use thrax.Usefulness.Datum.{Val}
use thrax.Usefulness.Pattern.{Ctor, DPat, DPats, wild, ctor, nil, cons, to_list, arity, same}
use thrax.Usefulness.Column.{Row, specialize}
use thrax.Usefulness.Search.{Matrix, split_rows}
use thrax.Usefulness.Value.{opened, SeesAll, SeesRow, TypedAll, TypedRow}
use thrax.Usefulness.Sound.Ctors.{OfNames, same-opened}
use thrax.Usefulness.Sound.Normal.Fixed.{Normal}
use thrax.Usefulness.Sound.Normal.Whole.{TypedAt, NormalAt, CoversAt}

abbrev pub TypedMatrix : Matrix → List Val → Type 0
TypedMatrix rows vs = All (λ r. TypedRow r vs) rows

abbrev pub CoveredBy : Matrix → List Val → Type 0
CoveredBy rows vs = Any (λ r. SeesRow ⊥ r vs) rows

-- ## Rows split into head and rest

pub split_rows-Typed :
    (rows : Matrix) (rs : List Row) (v : Val) (vs : List Val)
    → split_rows rows ≡ some rs
    → TypedMatrix rows (v ∷ vs)
    → All (TypedAt v vs) rs
unfolding split_rows
split_rows-Typed [] rs v vs e t = rw (← some_inj.0 e) tt
split_rows-Typed ([] ∷ rows) rs v vs e t = cc
split_rows-Typed ((p ∷ r) ∷ rows) rs v vs e t = elim (Option-cases (split_rows rows)) [
  | inl q ↦ absurd (none-ne-some (rw q at e))
  | inr (rest, q) ↦
      subst (All (TypedAt v vs)) (some_inj.0 (rw q at e))
        (t.0, split_rows-Typed rows rest v vs q t.1)
]
  where
    none-ne-some : {rs' : List Row} → none ≡ some rs' → ⊥
    none-ne-some k = cc

pub split_rows-Covers :
    (rows : Matrix) (rs : List Row) (v : Val) (vs : List Val)
    → split_rows rows ≡ some rs
    → Any (CoversAt v vs) rs
    → CoveredBy rows (v ∷ vs)
unfolding split_rows
split_rows-Covers [] rs v vs e h = rw (← some_inj.0 e) at h
split_rows-Covers ([] ∷ rows) rs v vs e h = cc
split_rows-Covers ((p ∷ r) ∷ rows) rs v vs e h = elim (Option-cases (split_rows rows)) [
  | inl q ↦ absurd (none-ne-some (rw q at e))
  | inr (rest, q) ↦ elim (subst (Any (CoversAt v vs)) (sym (some_inj.0 (rw q at e))) h) [
    | inl c ↦ inl c
    | inr c ↦ inr (split_rows-Covers rows rest v vs q c)
  ]
]
  where
    none-ne-some : {rs' : List Row} → none ≡ some rs' → ⊥
    none-ne-some k = cc

-- ## Specialized rows

pub TypedAll-append :
    (args : DPats) (r : List DPat) (ws vs : List Val)
    → TypedAll args ws
    → TypedRow r vs
    → TypedRow (to_list args ++ r) (ws ++ vs)
TypedAll-append nil r [] vs t h = h
TypedAll-append nil r (_ ∷ _) vs t h = absurd t
TypedAll-append (cons p ps) r [] vs t h = absurd t
TypedAll-append (cons p ps) r (w ∷ ws) vs t h = (t.0, TypedAll-append ps r ws vs t.1 h)

pub SeesAll-append :
    (O : Type 0) (args : DPats) (r : List DPat) (ws vs : List Val)
    → SeesAll O args ws
    → SeesRow O r vs
    → SeesRow O (to_list args ++ r) (ws ++ vs)
SeesAll-append O nil r [] vs t h = h
SeesAll-append O nil r (_ ∷ _) vs t h = absurd t
SeesAll-append O (cons p ps) r [] vs t h = absurd t
SeesAll-append O (cons p ps) r (w ∷ ws) vs t h = (t.0, SeesAll-append O ps r ws vs t.1 h)

SeesRow-split :
    (O : Type 0) (args : DPats) (r : List DPat) (ws vs : List Val)
    → TypedAll args ws
    → SeesRow O (to_list args ++ r) (ws ++ vs)
    → SeesAll O args ws × SeesRow O r vs
SeesRow-split O nil r [] vs t h = (tt, h)
SeesRow-split O nil r (_ ∷ _) vs t h = absurd t
SeesRow-split O (cons p ps) r [] vs t h = absurd t
SeesRow-split O (cons p ps) r (w ∷ ws) vs t h =
    let (a, b) = SeesRow-split O ps r ws vs t.1 h.1 in ((h.0, a), b)

pub wilds-Typed :
    (n : ℕ) (r : List DPat) (ws vs : List Val)
    → length ws ≡ n
    → TypedRow r vs
    → TypedRow (replicate n wild ++ r) (ws ++ vs)
wilds-Typed zero r [] vs e h = h
wilds-Typed zero r (w ∷ ws) vs e h = absurd (omega arith)
wilds-Typed (suc n) r [] vs e h = absurd (omega arith)
wilds-Typed (suc n) r (w ∷ ws) vs e h = (tt, wilds-Typed n r ws vs (omega arith) h)

pub wilds-Sees :
    (O : Type 0) (n : ℕ) (r : List DPat) (ws vs : List Val)
    → length ws ≡ n
    → SeesRow O r vs
    → SeesRow O (replicate n wild ++ r) (ws ++ vs)
wilds-Sees O zero r [] vs e h = h
wilds-Sees O zero r (w ∷ ws) vs e h = absurd (omega arith)
wilds-Sees O (suc n) r [] vs e h = absurd (omega arith)
wilds-Sees O (suc n) r (w ∷ ws) vs e h = (tt, wilds-Sees O n r ws vs (omega arith) h)

wilds-split :
    (O : Type 0) (n : ℕ) (r : List DPat) (ws vs : List Val)
    → length ws ≡ n
    → SeesRow O (replicate n wild ++ r) (ws ++ vs)
    → SeesRow O r vs
wilds-split O zero r [] vs e h = h
wilds-split O zero r (w ∷ ws) vs e h = absurd (omega arith)
wilds-split O (suc n) r [] vs e h = absurd (omega arith)
wilds-split O (suc n) r (w ∷ ws) vs e h = wilds-split O n r ws vs (omega arith) h.1

module _ (ns : List StrId) (c : Ctor) (v : Val) (ws vs : List Val) (oc : OfNames ns c)
    (open_c : opened c v ≡ some ws) (fits : length ws ≡ arity c) where
  same_args :
      (d : Ctor) (args : DPats)
      → same d c ≡ true
      → Normal ns (ctor d args) v
      → (opened d v ≡ some ws) × TypedAll args ws
  same_args d args e n = let q = same-opened ns c d v oc n.1 e ∙ open_c in (q, rw q at n.2)

  pub specialize-Typed :
      (rows : List Row) → All (NormalAt ns v vs) rows → TypedMatrix (specialize rows c) (ws ++ vs)
  unfolding specialize
  specialize-Typed [] t = tt
  specialize-Typed ((ctor d args, r) ∷ rows) t = elim (Bool-cases (same d c)) [
    | inl e ↦
        rw e (
          TypedAll-append args r ws vs (same_args d args e t.0.0).1 t.0.1,
          specialize-Typed rows t.1,
        )
    | inr e ↦ rw e (specialize-Typed rows t.1)
  ]
  specialize-Typed ((wild, r) ∷ rows) t =
      (wilds-Typed (arity c) r ws vs fits t.0.1, specialize-Typed rows t.1)
  specialize-Typed ((_, r) ∷ rows) t = absurd t.0.0

  pub specialize-Covers :
      (rows : List Row)
      → All (NormalAt ns v vs) rows
      → CoveredBy (specialize rows c) (ws ++ vs)
      → Any (CoversAt v vs) rows
  unfolding specialize
  specialize-Covers [] t h = h
  specialize-Covers ((ctor d args, r) ∷ rows) t h = elim (Bool-cases (same d c)) [
    | inl e ↦ elim (rw e at h) [
      | inl k ↦
          let (q, ta) = same_args d args e t.0.0 in
          let (a, b) = SeesRow-split ⊥ args r ws vs ta k in inl (rw q a, b)
      | inr k ↦ inr (specialize-Covers rows t.1 k)
    ]
    | inr e ↦ inr (specialize-Covers rows t.1 (rw e at h))
  ]
  specialize-Covers ((wild, r) ∷ rows) t (inl k) = inl (tt, wilds-split ⊥ (arity c) r ws vs fits k)
  specialize-Covers ((wild, r) ∷ rows) t (inr k) = inr (specialize-Covers rows t.1 k)
  specialize-Covers ((_, r) ∷ rows) t h = absurd t.0.0
