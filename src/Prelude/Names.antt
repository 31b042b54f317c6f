-- ===== src/Prelude/Names.antt =====
-- crates/utilities/src/handle.rs: an interned name. Equal text has an equal `StrId`, so a name is
-- modelled by its text, and the test of two handles by the test of two texts.
use Prim.Native.String.{String}
use mathlib.Core.Path.{◌≡◌, refl}
use mathlib.Core.Logic.{inl, inr}
use mathlib.Core.Bool.{Bool, true, false, ◌||◌}
use mathlib.Core.List.{List, [], ◌∷◌}
use text.Mathlib.Text.{◌==◌}
use text.Mathlib.TextEquality.{eq_iff}
use thrax.Prelude.Lists.{Any}
use thrax.Prelude.Tests.{Bool-cases}

abbrev pub StrId : Type 0
StrId = String

abbrev pub eq_str : StrId → StrId → Bool
eq_str s t = s == t

pub eq_str→eq : (s t : StrId) → eq_str s t ≡ true → s ≡ t
eq_str→eq s t h = (eq_iff s t).0 h

pub eq→eq_str : (s t : StrId) → s ≡ t → eq_str s t ≡ true
eq→eq_str s t h = (eq_iff s t).1 h

pub eq_str_refl : (s : StrId) → eq_str s s ≡ true
eq_str_refl s = (eq_iff s s).1 refl

-- `names.contains(n)`
abbrev pub contains : List StrId → StrId → Bool
contains [] n = false
contains (m ∷ ms) n = eq_str m n || contains ms n

pub contains→Any : (ms : List StrId) (n : StrId) → contains ms n ≡ true → Any (λ m. m ≡ n) ms
contains→Any [] n h = cc
contains→Any (m ∷ ms) n h = elim (Bool-cases (eq_str m n)) [
  | inl e ↦ inl (eq_str→eq m n e)
  | inr e ↦ inr (contains→Any ms n (rw e at h))
]
