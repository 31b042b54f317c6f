-- ===== src/Usefulness/Total/WellFormed.antt =====
-- Patterns as the type checker makes them: a union has one list of variants, a constructor has as
-- many arguments as its arity, and a product is named by field.
use thrax.Prelude.{
  ℕ, zero, suc, ◌<◌, ◌≡◌, refl, sym, ap, true, List, replicate, All, length, ◌==◌, ◌∙◌, ==_iff,
  &&-eq-true,
}
use thrax.Prelude.Names.{StrId, eq_str, eq_str→eq}
use thrax.Usefulness.Pattern.{
  Siblings, Ctor, variant, bool, seq_empty, seq_more, lit, int, product, DPat, DPats, DFields, wild,
  opaque, ctor, nil, cons, end, field, to_list, arity, arity_at, same,
}
use thrax.Usefulness.Search.{Matrix}

-- The variants of each union.
abbrev pub Unions : Type 0
Unions = StrId → Siblings

abbrev pub CtorOk : Unions → Ctor → Type 0
CtorOk env (variant u i ss) = (ss ≡ env u) × (i < length ss)
CtorOk env (product k fs) = ⊥
CtorOk env _ = Unit

abbrev mutual
  pub WellFormed : Unions → DPat → Type 0
  WellFormed env wild = Unit
  WellFormed env opaque = Unit
  WellFormed env (ctor c args) =
      CtorOk env c × (length (to_list args) ≡ arity c) × WellFormedArgs env args
  WellFormed env (product k fs) = WellFormedFields env fs

  pub WellFormedArgs : Unions → DPats → Type 0
  WellFormedArgs env nil = Unit
  WellFormedArgs env (cons p ps) = WellFormed env p × WellFormedArgs env ps

  pub WellFormedFields : Unions → DFields → Type 0
  WellFormedFields env end = Unit
  WellFormedFields env (field n p fs) = WellFormed env p × WellFormedFields env fs

-- A row of `n` well-formed patterns, and a matrix of such.
abbrev pub RowOk : Unions → ℕ → List DPat → Type 0
RowOk env n r = All (WellFormed env) r × (length r ≡ n)

abbrev pub MatrixOk : Unions → ℕ → Matrix → Type 0
MatrixOk env n rows = All (RowOk env n) rows

-- A constructor of a normalized column whose products have the fields `ns`.
abbrev pub NormalCtor : Unions → List StrId → Ctor → Type 0
NormalCtor env ns (variant u i ss) = (ss ≡ env u) × (i < length ss)
NormalCtor env ns (product k fs) = fs ≡ ns
NormalCtor env ns _ = Unit

abbrev pub NormalOk : Unions → List StrId → DPat → Type 0
NormalOk env ns wild = Unit
NormalOk env ns opaque = Unit
NormalOk env ns (ctor c args) =
    NormalCtor env ns c × (length (to_list args) ≡ arity c) × WellFormedArgs env args
NormalOk env ns (product k fs) = ⊥

-- In one column, constructors that are the same have the same arity.
pub same-arity :
    (env : Unions) (ns : List StrId) (c d : Ctor)
    → NormalCtor env ns c
    → NormalCtor env ns d
    → same d c ≡ true
    → arity d ≡ arity c
unfolding same arity
same-arity env ns (variant u i ss) (variant v j ts) p q h =
    let (eu, ei) = &&-eq-true (eq_str v u) (j == i) h in
    (λ k. arity_at (q.0 k) j)
    ∙ (λ k. arity_at (env (eq_str→eq v u eu k)) j)
    ∙ (λ k. arity_at (sym p.0 k) j)
    ∙ ap (arity_at ss) ((==_iff j i).0 ei)
same-arity env ns (bool a) (bool b) p q h = refl
same-arity env ns seq_empty seq_empty p q h = refl
same-arity env ns seq_more seq_more p q h = refl
same-arity env ns (lit a) (lit b) p q h = refl
same-arity env ns (int a b d) (int a' b' d') p q h = refl
same-arity env ns (product k fs) (product k' fs') p q h = ap length (q ∙ sym p)
same-arity env ns _ _ p q h = cc

pub WellFormedArgs-All :
    (env : Unions) (args : DPats) → WellFormedArgs env args → All (WellFormed env) (to_list args)
WellFormedArgs-All env nil h = tt
WellFormedArgs-All env (cons p ps) h = (h.0, WellFormedArgs-All env ps h.1)

pub wilds-All : (env : Unions) (n : ℕ) → All (WellFormed env) (replicate n wild)
wilds-All env zero = tt
wilds-All env (suc n) = (tt, wilds-All env n)
