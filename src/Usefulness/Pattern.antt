-- ===== src/Usefulness/Pattern.antt =====
-- Pattern constructors and patterns: `Ctor`, `ProductKind` and `DPat`.
use Prim.Native.String.{String}
use thrax.Prelude.{
  ℕ, zero, suc, Bool, true, false, ◌&&◌, ◌==◌, eq_bool, Option, none, some, List, [], ◌∷◌, map,
  length,
}
use thrax.Prelude.Int.{ℤ, eq_ℤ}
use thrax.Prelude.Names.{StrId, eq_str}

pub data ProductKind : Type 0 where
  struct : StrId → ProductKind
  tuple anonymous : ProductKind
  tensor : ℕ → ProductKind

-- A union's variants, as `(tag, payload arity)`.
abbrev pub Siblings : Type 0
Siblings = List (StrId × ℕ)

-- In `int lo hi dom` the domain is `dom.0 ..= dom.1`. An `i128` is an integer: the domains are those
-- of types of at most 64 bits, so no sum here leaves its range.
pub data Ctor : Type 0 where
  variant : (union : StrId) (index : ℕ) (siblings : Siblings) → Ctor
  bool : Bool → Ctor
  seq_empty seq_more : Ctor
  lit : String → Ctor
  int : (lo hi : ℤ) (dom : ℤ × ℤ) → Ctor
  product : ProductKind → (fields : List StrId) → Ctor

-- `DPats` and `DFields` are the vectors inside a pattern.
mutual
  pub data DPat : Type 0 where
    wild opaque : DPat
    ctor : Ctor → DPats → DPat
    product : ProductKind → DFields → DPat

  pub data DPats : Type 0 where
    nil : DPats
    cons : DPat → DPats → DPats

  pub data DFields : Type 0 where
    end : DFields
    field : StrId → DPat → DFields → DFields

abbrev pub to_list : DPats → List DPat
to_list nil = []
to_list (cons p ps) = p ∷ to_list ps

abbrev pub from_list : List DPat → DPats
from_list [] = nil
from_list (p ∷ ps) = cons p (from_list ps)

-- `siblings[index].1`; an index out of range panics in the source, and does not arise: see
-- `Inhabits`.
abbrev pub arity_at : Siblings → ℕ → ℕ
arity_at [] i = 0
arity_at ((tag, n) ∷ ss) zero = n
arity_at ((tag, n) ∷ ss) (suc i) = arity_at ss i

unfoldable pub arity : Ctor → ℕ
arity (variant u i ss) = arity_at ss i
arity seq_more = 2
arity (product k fields) = length fields
arity _ = 0

unfoldable pub same : Ctor → Ctor → Bool
same (variant u i ss) (variant v j ts) = eq_str u v && i == j
same (bool a) (bool b) = eq_bool a b
same seq_empty seq_empty = true
same seq_more seq_more = true
same (lit a) (lit b) = eq_str a b
same (int a b d) (int a' b' d') = eq_ℤ a a' && eq_ℤ b b'
same (product k fs) (product k' fs') = true
same _ _ = false

unfoldable pub same_family : Ctor → Ctor → Bool
same_family (variant u i ss) (variant v j ts) = eq_str u v
same_family (bool a) (bool b) = true
same_family (lit a) (lit b) = true
same_family (int a b d) (int a' b' d') = true
same_family seq_empty seq_empty = true
same_family seq_empty seq_more = true
same_family seq_more seq_empty = true
same_family seq_more seq_more = true
same_family (product k fs) (product k' fs') = true
same_family _ _ = false

-- `start .. start + n`
abbrev pub range_from : ℕ → ℕ → List ℕ
range_from start zero = []
range_from start (suc n) = start ∷ range_from (suc start) n

unfoldable pub signature : Ctor → Option (List Ctor)
signature (variant u i ss) = some (map (λ j. variant u j ss) (range_from 0 (length ss)))
signature (bool b) = some (bool true ∷ bool false ∷ [])
signature seq_empty = some (seq_empty ∷ seq_more ∷ [])
signature seq_more = some (seq_empty ∷ seq_more ∷ [])
signature (product k fs) = some (product k fs ∷ [])
signature (lit a) = none
signature (int lo hi dom) = none
