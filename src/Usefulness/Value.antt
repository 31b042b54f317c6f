-- ===== src/Usefulness/Value.antt =====
-- Values, and when a pattern matches one: what the patterns of `Pattern` stand for. The source has
-- no such definitions; they are the specification against which `useful` is proved sound.
use thrax.Prelude.{
  ℕ, zero, suc, ◌<◌, ◌≡◌, Bool, true, false, ◌&&◌, ◌==◌, eq_bool, Option, none, some, List, [], ◌∷◌,
  length, ◌⊎◌, if◌then◌else◌,
}
use thrax.Prelude.Int.{◌≤ℤ◌, leb_ℤ}
use thrax.Prelude.Names.{StrId, eq_str}
use thrax.Usefulness.Datum.{Val, Vals, VFields}
use thrax.Usefulness.Pattern.{
  Siblings, Ctor, variant, bool, seq_empty, seq_more, lit, int, product, DPat, DPats, DFields, wild,
  opaque, ctor, nil, cons, end, field, arity_at,
}

abbrev pub vals : Vals → List Val
vals Vals.nil = []
vals (Vals.cons v vs) = v ∷ vals vs

abbrev pub get : VFields → StrId → Option Val
get VFields.end n = none
get (VFields.field m v fs) n = if eq_str m n then some v else get fs n

abbrev pub get_field : Val → StrId → Option Val
get_field (Val.product fs) n = get fs n
get_field _ n = none

abbrev pub gather : Option Val → Option (List Val) → Option (List Val)
gather (some v) (some vs) = some (v ∷ vs)
gather _ _ = none

abbrev pub get_all : VFields → List StrId → Option (List Val)
get_all fs [] = some []
get_all fs (n ∷ ns) = gather (get fs n) (get_all fs ns)

-- Variant `i` is tagged `t`.
abbrev pub is_tag : Siblings → ℕ → StrId → Bool
is_tag [] i t = false
is_tag ((tag, n) ∷ ss) zero t = eq_str tag t
is_tag ((tag, n) ∷ ss) (suc i) t = is_tag ss i t

abbrev pub when {ℓ} : {A : Type ℓ} → Bool → A → Option A
when b a = if b then some a else none

-- The arguments of a value built with this constructor. A value of the union `List` is viewed as a
-- sequence by its tag, as CORE's `impl_ISeqView_for_List` does.
unfoldable pub opened : Ctor → Val → Option (List Val)
opened (variant u i ss) (Val.variant u' j ss' vs) = when (eq_str u u' && i == j) (vals vs)
opened (bool a) (Val.bool b) = when (eq_bool a b) []
opened (lit a) (Val.lit b) = when (eq_str a b) []
opened (int lo hi dom) (Val.int z) = when (leb_ℤ lo z && leb_ℤ z hi) []
opened seq_empty Val.seq_empty = some []
opened seq_empty (Val.variant u j ss vs) = when (eq_str u "List" && is_tag ss j "Nil") (vals vs)
opened seq_more (Val.seq_more h t) = some (h ∷ t ∷ [])
opened seq_more (Val.variant u j ss vs) = when (eq_str u "List" && is_tag ss j "Cons") (vals vs)
opened (product k ns) (Val.product fs) = get_all fs ns
opened _ _ = none

-- `P` of the arguments, which there are; and `P` of them if there are any.
abbrev pub Holds {ℓ} : {A : Type ℓ} → Option A → (A → Type 0) → Type 0
Holds none P = ⊥
Holds (some a) P = P a

abbrev pub Allows {ℓ} : {A : Type ℓ} → Option A → (A → Type 0) → Type 0
Allows none P = Unit
Allows (some a) P = P a

-- A pattern matches a value, where `O` says what an opaque pattern does: `⊥` for nothing and `Unit`
-- for everything.
abbrev mutual
  pub Sees : Type 0 → DPat → Val → Type 0
  Sees O wild v = Unit
  Sees O opaque v = O
  Sees O (ctor c args) v = Holds (opened c v) (SeesAll O args)
  Sees O (product k fs) v = SeesFields O fs v

  pub SeesAll : Type 0 → DPats → List Val → Type 0
  SeesAll O nil [] = Unit
  SeesAll O nil (_ ∷ _) = ⊥
  SeesAll O (cons p ps) [] = ⊥
  SeesAll O (cons p ps) (v ∷ vs) = Sees O p v × SeesAll O ps vs

  pub SeesFields : Type 0 → DFields → Val → Type 0
  SeesFields O end v = Unit
  SeesFields O (field n p fs) v = Holds (get_field v n) (Sees O p) × SeesFields O fs v

abbrev pub SeesRow : Type 0 → List DPat → List Val → Type 0
SeesRow O [] [] = Unit
SeesRow O [] (_ ∷ _) = ⊥
SeesRow O (p ∷ ps) [] = ⊥
SeesRow O (p ∷ ps) (v ∷ vs) = Sees O p v × SeesRow O ps vs

-- A row covers a value if it matches for certain; a vector may match one if no part rules it out.
abbrev pub Covers : DPat → Val → Type 0
Covers = Sees ⊥

abbrev pub MayMatch : DPat → Val → Type 0
MayMatch = Sees Unit

abbrev pub Distinct : Siblings → Type 0
Distinct ss = (i j : ℕ) (t : StrId) → is_tag ss i t ≡ true → is_tag ss j t ≡ true → ◌≡◌ {A = ℕ} i j

-- The value can be viewed as a sequence.
abbrev pub HasView : Val → Type 0
HasView Val.seq_empty = Unit
HasView (Val.seq_more h t) = Unit
HasView (Val.variant u j ss vs) =
    (u ≡ "List")
    × ((is_tag ss j "Nil" ≡ true) × (length (vals vs) ≡ 0)
        ⊎ (is_tag ss j "Cons" ≡ true) × (length (vals vs) ≡ 2))
HasView _ = ⊥

-- The value is of the type that the constructor builds.
abbrev pub Inhabits : Ctor → Val → Type 0
Inhabits (variant u i ss) (Val.variant u' j ss' vs) =
    (u ≡ u') × (ss ≡ ss') × (j < length ss) × (length (vals vs) ≡ arity_at ss j) × Distinct ss
Inhabits (bool b) (Val.bool b') = Unit
Inhabits (lit a) (Val.lit b) = Unit
Inhabits (int lo hi dom) (Val.int z) = (dom.0 ≤ℤ z) × (z ≤ℤ dom.1)
Inhabits seq_empty v = HasView v
Inhabits seq_more v = HasView v
Inhabits (product k ns) (Val.product fs) = (ws : List Val) × (get_all fs ns ≡ some ws)
Inhabits _ _ = ⊥

abbrev pub IsPositional : Ctor → Type 0
IsPositional (product k ns) = ⊥
IsPositional _ = Unit

abbrev pub IsProduct : Val → Type 0
IsProduct (Val.product fs) = Unit
IsProduct _ = ⊥

abbrev pub NoField : StrId → DFields → Type 0
NoField n end = Unit
NoField n (field m p fs) = (eq_str m n ≡ false) × NoField n fs

-- The pattern is one for the type of the value: its constructors build that type, its products are
-- still named by field, with no field twice, and the parts are so in turn.
abbrev mutual
  pub Typed : DPat → Val → Type 0
  Typed wild v = Unit
  Typed opaque v = Unit
  Typed (ctor c args) v = Inhabits c v × IsPositional c × Allows (opened c v) (TypedAll args)
  Typed (product k fs) v = IsProduct v × TypedFields fs v

  pub TypedAll : DPats → List Val → Type 0
  TypedAll nil [] = Unit
  TypedAll nil (_ ∷ _) = ⊥
  TypedAll (cons p ps) [] = ⊥
  TypedAll (cons p ps) (v ∷ vs) = Typed p v × TypedAll ps vs

  pub TypedFields : DFields → Val → Type 0
  TypedFields end v = Unit
  TypedFields (field n p fs) v = NoField n fs × Holds (get_field v n) (Typed p) × TypedFields fs v

abbrev pub TypedRow : List DPat → List Val → Type 0
TypedRow [] [] = Unit
TypedRow [] (_ ∷ _) = ⊥
TypedRow (p ∷ ps) [] = ⊥
TypedRow (p ∷ ps) (v ∷ vs) = Typed p v × TypedRow ps vs
