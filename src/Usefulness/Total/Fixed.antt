-- ===== src/Usefulness/Total/Fixed.antt =====
-- A fixed pattern is fit for its column and adds no constructor.
use mathlib.Core.Option.{some_inj}
use thrax.Prelude.{
  ℕ, suc, ◌≤◌, ◌<◌, ◌≡◌, refl, sym, ap, subst, inl, inr, ◌&&◌, ◌==◌, Option, none, some, List, [],
  ◌∷◌, All, length, arith, Bool-cases, Option-cases, ◌∙◌, ==_iff, &&-eq-true,
}
use thrax.Prelude.Names.{StrId, eq_str, eq_str→eq}
use thrax.Usefulness.Pattern.{
  Siblings, Ctor, variant, seq_empty, seq_more, product, DPat, DPats, DFields, ctor, end, field,
  to_list, arity, arity_at,
}
use thrax.Usefulness.Column.{Scan, or_insert, scan, scan_all, find_field, position, fix_seq, fix}
use thrax.Usefulness.Fuel.{weight}
use thrax.Usefulness.Total.WellFormed.{
  Unions, WellFormed, WellFormedArgs, WellFormedFields, NormalCtor, NormalOk,
}
use thrax.Usefulness.Total.Fields.{NoDup, add_names-NoDup, found, found-le}

abbrev pub ListFrom : Unions → Option Siblings → Type 0
ListFrom env none = Unit
ListFrom env (some ss) = ss ≡ env "List"

abbrev pub Scanned : Unions → Scan → Type 0
Scanned env s = NoDup s.names × ListFrom env s.list

or_insert-ListFrom :
    (env : Unions) (o : Option Siblings) (ss : Siblings)
    → ListFrom env o
    → ss ≡ env "List"
    → ListFrom env (or_insert o ss)
or_insert-ListFrom env none ss h k = k
or_insert-ListFrom env (some ts) ss h k = h

scan-Scanned :
    (env : Unions) (s : Scan) (p : DPat) → Scanned env s → WellFormed env p → Scanned env (scan s p)
unfolding scan
scan-Scanned env s (product k fs) h w = (add_names-NoDup s.names fs h.0, h.1)
scan-Scanned env s (ctor (variant u i ss) args) h w = elim (Bool-cases (eq_str u "List")) [
  | inl e ↦ rw e (h.0, or_insert-ListFrom env s.list ss h.1 (w.0.0 ∙ ap env (eq_str→eq u "List" e)))
  | inr e ↦ rw e h
]
scan-Scanned env s _ h w = h

pub scan_all-Scanned :
    (env : Unions) (s : Scan) (ps : List DPat)
    → Scanned env s
    → All (WellFormed env) ps
    → Scanned env (scan_all s ps)
unfolding scan_all
scan_all-Scanned env s [] h w = h
scan_all-Scanned env s (p ∷ ps) h w =
    scan_all-Scanned env (scan s p) ps (scan-Scanned env s p h w.0) w.1

-- ## Fixed patterns

position-arity :
    (ss : Siblings) (t : StrId) (n i : ℕ)
    → position ss t n ≡ some i
    → (i < length ss) × (arity_at ss i ≡ n)
unfolding position
position-arity [] t n i e = cc
position-arity ((tag, k) ∷ ss) t n i e = elim (Bool-cases (eq_str tag t && k == n)) [
  | inl q ↦
      subst (λ j. (j < suc (length ss)) × (arity_at ((tag, k) ∷ ss) j ≡ n)) (some_inj.0 (rw q at e))
        (omega arith, (==_iff k n).0 (&&-eq-true (eq_str tag t) (k == n) q).1)
  | inr q ↦ elim (Option-cases (position ss t n)) [
    | inl p ↦ absurd (none-ne-some (rw (q, p) at e))
    | inr (i', p) ↦
        let (a, b) = position-arity ss t n i' p in
        subst (λ j. (j < suc (length ss)) × (arity_at ((tag, k) ∷ ss) j ≡ n))
          (some_inj.0 (rw (q, p) at e)) (omega arith, b)
  ]
]
  where
    none-ne-some : none ≡ some i → ⊥
    none-ne-some k' = cc

-- A fixed pattern is fit for its column and weighs no more.
abbrev pub Fixed : Unions → List StrId → DPat → DPat → Type 0
Fixed env ns p q = NormalOk env ns q × (weight q ≤ weight p)

find_field-WellFormed :
    (env : Unions) (fs : DFields) (n : StrId)
    → WellFormedFields env fs
    → WellFormed env (find_field fs n)
unfolding find_field
find_field-WellFormed env end n h = tt
find_field-WellFormed env (field m p fs) n h = elim (Bool-cases (eq_str m n)) [
  | inl e ↦ rw e h.0
  | inr e ↦ rw e (find_field-WellFormed env fs n h.1)
]

found-WellFormed :
    (env : Unions) (fs : DFields) (ns : List StrId)
    → WellFormedFields env fs
    → WellFormedArgs env (found fs ns)
found-WellFormed env fs [] h = tt
found-WellFormed env fs (n ∷ ns) h =
    (find_field-WellFormed env fs n h, found-WellFormed env fs ns h)

length-found : (fs : DFields) (ns : List StrId) → length (to_list (found fs ns)) ≡ length ns
length-found fs [] = refl
length-found fs (n ∷ ns) = ap suc (length-found fs ns)

fix_seq-Fixed :
    (env : Unions) (ns : List StrId) (l : Option Siblings) (tag : StrId) (c : Ctor) (args : DPats)
    → ListFrom env l
    → NormalCtor env ns c
    → length (to_list args) ≡ arity c
    → WellFormedArgs env args
    → Fixed env ns (ctor c args) (fix_seq l tag c args)
unfolding fix_seq arity weight
fix_seq-Fixed env ns none tag c args lf nc len w = ((nc, len, w), omega arith)
fix_seq-Fixed env ns (some ss) tag c args lf nc len w =
    elim (Option-cases (position ss tag (length (to_list args)))) [
      | inl e ↦ rw e (tt, omega arith)
      | inr (i, e) ↦
          let (a, b) = position-arity ss tag (length (to_list args)) i e in
          rw e (((lf, a), sym b, w), omega arith)
    ]

pub fix-Fixed :
    (env : Unions) (s : Scan) (p : DPat)
    → Scanned env s
    → WellFormed env p
    → Fixed env s.names p (fix s p)
unfolding fix arity weight
fix-Fixed env s (product k fs) h w = (
  (refl, length-found fs s.names, found-WellFormed env fs s.names w),
  omega (arith, found-le fs s.names h.0),
)
fix-Fixed env s (ctor seq_empty args) h w =
    fix_seq-Fixed env s.names s.list "Nil" seq_empty args h.1 tt w.1 w.2
fix-Fixed env s (ctor seq_more args) h w =
    fix_seq-Fixed env s.names s.list "Cons" seq_more args h.1 tt w.1 w.2
fix-Fixed env s (ctor (product k fs) args) h w = absurd w.0
fix-Fixed env s (ctor (variant u i ss) args) h w = ((w.0, w.1, w.2), omega arith)
fix-Fixed env s (ctor c args) h w = ((tt, w.1, w.2), omega arith)
fix-Fixed env s _ h w = (tt, omega arith)
