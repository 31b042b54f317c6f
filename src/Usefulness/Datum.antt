-- ===== src/Usefulness/Datum.antt =====
-- The values that patterns are matched against.
use Prim.Native.String.{String}
use thrax.Prelude.{ℕ, Bool}
use thrax.Prelude.Int.{ℤ}
use thrax.Prelude.Names.{StrId}
use thrax.Usefulness.Pattern.{Siblings}

-- A union value holds the variants of its union; `seq_empty` and `seq_more` are the two views of a
-- value of a sequence type of the user's own.
mutual
  pub data Val : Type 0 where
    variant : (union : StrId) (index : ℕ) (siblings : Siblings) → Vals → Val
    bool : Bool → Val
    lit : String → Val
    int : ℤ → Val
    seq_empty : Val
    seq_more : Val → Val → Val
    product : VFields → Val

  pub data Vals : Type 0 where
    nil : Vals
    cons : Val → Vals → Vals

  pub data VFields : Type 0 where
    end : VFields
    field : StrId → Val → VFields → VFields
