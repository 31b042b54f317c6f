-- ===== src/Usefulness/Sound/Normal/Fixed.antt =====
-- A fixed pattern matches what the pattern matched.
use thrax.Prelude.{
  ℕ, ◌≡◌, refl, true, inl, inr, ◌⊎◌, Option, none, some, List, [], ◌∷◌, All, Option-cases, length,
}
use thrax.Prelude.Names.{StrId}
use thrax.Usefulness.Datum.{Val, VFields}
use thrax.Usefulness.Pattern.{
  Siblings, Ctor, variant, seq_empty, seq_more, product, DPat, DPats, wild, opaque, ctor, to_list,
}
use thrax.Usefulness.Column.{Scan, position, fix_seq, fix}
use thrax.Usefulness.Value.{
  get, get_all, opened, Allows, Covers, MayMatch, Inhabits, is_tag, Typed, TypedAll,
}
use thrax.Usefulness.Sound.Ctors.{OfNames}
use thrax.Usefulness.Sound.Normal.Fields.{from_find-TypedAll, from_find-SeesAll, SeesAll-SeesFields}
use thrax.Usefulness.Sound.Normal.Steps.{position-is_tag, Nil-opened, Cons-opened}
use thrax.Usefulness.Sound.Normal.Scanned.{Present, ListOk, ScanOk, Knows}

-- The head of a row of a normalized column whose products have the fields `ns`.
abbrev pub Normal : List StrId → DPat → Val → Type 0
Normal ns wild v = Unit
Normal ns (ctor c args) v = Inhabits c v × OfNames ns c × Allows (opened c v) (TypedAll args)
Normal ns _ v = ⊥

Inhabits-index :
    (i j : ℕ) (u : StrId) (ss : Siblings) (v : Val)
    → Inhabits (variant u i ss) v
    → Inhabits (variant u j ss) v
Inhabits-index i j u ss (Val.variant w k ts vs) h = h
Inhabits-index i j u ss _ h = h

-- ## Sequence steps

module _ (c : Ctor) (tag : StrId) (v : Val)
    (opens : (ss : Siblings) (i : ℕ)
      → Inhabits (variant "List" i ss) v
      → is_tag ss i tag ≡ true
      → opened (variant "List" i ss) v ≡ opened c v)
    (args : DPats) where
  same_opened :
      (ss : Siblings) (i : ℕ)
      → Inhabits (variant "List" 0 ss) v
      → position ss tag (length (to_list args)) ≡ some i
      → opened (variant "List" i ss) v ≡ opened c v
  same_opened ss i h e =
      opens ss i (Inhabits-index 0 i "List" ss v h)
        (position-is_tag ss tag (length (to_list args)) i e)

  fix_seq-Normal :
      (ns : List StrId) (l : Option Siblings)
      → ListOk v l
      → Inhabits c v
      → OfNames ns c
      → Allows (opened c v) (TypedAll args)
      → (fix_seq l tag c args ≡ opaque) ⊎ Normal ns (fix_seq l tag c args) v
  unfolding fix_seq
  fix_seq-Normal ns none ok h o t = inr (h, o, t)
  fix_seq-Normal ns (some ss) ok h o t =
      elim (Option-cases (position ss tag (length (to_list args)))) [
        | inl e ↦ inl (rw e)
        | inr (i, e) ↦
            inr (rw e (Inhabits-index 0 i "List" ss v ok, tt, rw (same_opened ss i ok e) t))
      ]

  fix_seq-Covers :
      (l : Option Siblings) → ListOk v l → Covers (fix_seq l tag c args) v → Covers (ctor c args) v
  unfolding fix_seq
  fix_seq-Covers none ok h = h
  fix_seq-Covers (some ss) ok h = elim (Option-cases (position ss tag (length (to_list args)))) [
    | inl e ↦ absurd (rw e at h)
    | inr (i, e) ↦ rw (← same_opened ss i ok e) (rw e at h)
  ]

  fix_seq-MayMatch :
      (l : Option Siblings)
      → ListOk v l
      → MayMatch (ctor c args) v
      → MayMatch (fix_seq l tag c args) v
  unfolding fix_seq
  fix_seq-MayMatch none ok h = h
  fix_seq-MayMatch (some ss) ok h = elim (Option-cases (position ss tag (length (to_list args)))) [
    | inl e ↦ rw e tt
    | inr (i, e) ↦ rw (e, same_opened ss i ok e) h
  ]

-- ## Products

Present-get_all :
    (vf : VFields) (ns : List StrId)
    → All (Present (Val.product vf)) ns
    → (ws : List Val) × (get_all vf ns ≡ some ws)
Present-get_all vf [] h = ([], refl)
Present-get_all vf (n ∷ ns) h =
    let (ws, q) = Present-get_all vf ns h.1 in
    elim (Option-cases (get vf n)) [
      | inl e ↦ absurd (rw e at h.0)
      | inr (w, e) ↦ (w ∷ ws, rw (e, q))
    ]

-- ## Every pattern

pub fix-Normal :
    (s : Scan) (p : DPat) (v : Val)
    → ScanOk v s
    → Typed p v
    → (fix s p ≡ opaque) ⊎ Normal s.names (fix s p) v
unfolding fix opened
fix-Normal s (product k fs) (Val.product vf) ok t =
    let (ws, e) = Present-get_all vf s.names ok.0 in
    inr ((ws, e), refl, rw e (from_find-TypedAll fs vf s.names ws t.1 e))
fix-Normal s (product k fs) _ ok t = absurd t.0
fix-Normal s (ctor seq_empty args) v ok t =
    fix_seq-Normal seq_empty "Nil" v (λ ss i. Nil-opened ss i v) args s.names s.list ok.1 t.0 tt t.2
fix-Normal s (ctor seq_more args) v ok t =
    fix_seq-Normal seq_more "Cons" v (λ ss i. Cons-opened ss i v) args s.names s.list ok.1 t.0 tt
      t.2
fix-Normal s (ctor (product k fs) args) v ok t = absurd t.1
fix-Normal s (ctor c args) v ok t = inr (t.0, tt, t.2)
fix-Normal s opaque v ok t = inl refl
fix-Normal s wild v ok t = inr tt

pub fix-Covers :
    (s : Scan) (p : DPat) (v : Val)
    → ScanOk v s
    → Knows s.names p
    → Typed p v
    → Covers (fix s p) v
    → Covers p v
unfolding fix opened
fix-Covers s (product k fs) (Val.product vf) ok kn t h =
    let (ws, e) = Present-get_all vf s.names ok.0 in
    SeesAll-SeesFields ⊥ fs vf s.names ws kn t.1 e (rw e at h)
fix-Covers s (product k fs) _ ok kn t h = absurd t.0
fix-Covers s (ctor seq_empty args) v ok kn t h =
    fix_seq-Covers seq_empty "Nil" v (λ ss i. Nil-opened ss i v) args s.list ok.1 h
fix-Covers s (ctor seq_more args) v ok kn t h =
    fix_seq-Covers seq_more "Cons" v (λ ss i. Cons-opened ss i v) args s.list ok.1 h
fix-Covers s _ v ok kn t h = h

pub fix-MayMatch :
    (s : Scan) (p : DPat) (v : Val) → ScanOk v s → Typed p v → MayMatch p v → MayMatch (fix s p) v
unfolding fix opened
fix-MayMatch s (product k fs) (Val.product vf) ok t h =
    let (ws, e) = Present-get_all vf s.names ok.0 in
    rw e (from_find-SeesAll (Unit {0}) fs vf s.names ws h e)
fix-MayMatch s (product k fs) _ ok t h = absurd t.0
fix-MayMatch s (ctor seq_empty args) v ok t h =
    fix_seq-MayMatch seq_empty "Nil" v (λ ss i. Nil-opened ss i v) args s.list ok.1 h
fix-MayMatch s (ctor seq_more args) v ok t h =
    fix_seq-MayMatch seq_more "Cons" v (λ ss i. Cons-opened ss i v) args s.list ok.1 h
fix-MayMatch s _ v ok t h = h
