-- ===== src/Usefulness/Tests.antt =====
-- The theorems on matches at concrete patterns and values, and matches checked by evaluation.
use thrax.Prelude.{
  zero, suc, sym, ◌∙◌, ◌≡◌, refl, inl, none, some, [], ◌∷◌, List, Bool, true, false, All, Any,
  arith,
}
use thrax.Prelude.Int.{pos, ◌+ℤ◌, ◌-ℤ◌}
use thrax.Prelude.Names.{StrId, eq_str, eq_str→eq, eq→eq_str}
use thrax.Usefulness.Pattern.{
  tuple, arity, DPat, Siblings, variant, bool, int, wild, ctor, product, nil, cons, end, field,
}
use thrax.Usefulness.Datum.{Val, Vals, VFields}
use thrax.Usefulness.Value.{Distinct, opened, Covers, Typed}
use thrax.Usefulness.Column.{Row, normalize_column}
use thrax.Usefulness.Fuel.{weight}
use thrax.Usefulness.Segments.{segments}
use thrax.Usefulness.Search.{Matrix, useful}
use thrax.Usefulness.Check.{Arm, arm, alt, check}
use thrax.Usefulness.Sound.Ints.{In, segments-In}
use thrax.Usefulness.Sound.Matrix.{CoveredBy}
use thrax.Usefulness.Sound.Normal.Whole.{Normalizes, normalize_column-Normalizes}
use thrax.Usefulness.Sound.Useful.{useful_sound}
use thrax.Usefulness.Sound.Check.{check-exhaustive, check-dead}
use thrax.Usefulness.Total.WellFormed.{Unions, WellFormed}
use thrax.Usefulness.Total.Normalized.{Normalized, normalize_column-Normalized}
use thrax.Usefulness.Total.Outcomes.{Returns}
use thrax.Usefulness.Total.Useful.{useful-Returns}

abbrev maybe : Siblings
maybe = ("Just", 1) ∷ ("None", 0) ∷ []

abbrev unions : Unions
unions u = maybe

abbrev just : DPat → DPat
just p = ctor (variant "Maybe" 0 maybe) (cons p nil)

abbrev a_bool : Bool → DPat
a_bool b = ctor (bool b) nil

abbrev nothing : DPat
nothing = ctor (variant "Maybe" 1 maybe) nil

-- Just true => ..; None => ..; None => ..
abbrev partial_match : List Arm
partial_match =
    (just (a_bool true) ∷ [], false) ∷ (nothing ∷ [], false) ∷ (nothing ∷ [], false) ∷ []

check-partial_match :
    check partial_match
    ≡ record { missing = some (just (a_bool false)); mixed = none; unreachable = arm 2 ∷ [] }
unfolding check
check-partial_match = refl

-- Just true | None => ..; Just false | Just _ => ..
abbrev full_match : List Arm
full_match =
    (just (a_bool true) ∷ nothing ∷ [], false) ∷ (just (a_bool false) ∷ just wild ∷ [], false) ∷ []

check-full_match :
    check full_match ≡ record { missing = none; mixed = none; unreachable = alt 1 1 ∷ [] }
unfolding check
check-full_match = refl

-- 1 ... 5 => ..; 0 => ..; 7 ... 255 => ..   on a `u8`
check-gap :
    (check (
      (ctor (int (pos 1) (pos 5) (pos 0, pos 255)) nil ∷ [], false)
      ∷ (ctor (int (pos 0) (pos 0) (pos 0, pos 255)) nil ∷ [], false)
      ∷ (ctor (int (pos 7) (pos 255) (pos 0, pos 255)) nil ∷ [], false)
      ∷ [])).missing
    ≡ some (ctor (int (pos 6) (pos 6) (pos 0, pos 255)) nil)
unfolding check ◌+ℤ◌ ◌-ℤ◌
check-gap = refl

abbrev just_false : Val
just_false = Val.variant "Maybe" 0 maybe (Vals.cons (Val.bool false) Vals.nil)

not_both : (t : StrId) → eq_str "Just" t ≡ true → eq_str "None" t ≡ true → ⊥
not_both t a b =
    true-ne-false (eq→eq_str "Just" "None" (eq_str→eq "Just" t a ∙ sym (eq_str→eq "None" t b)))
  where
    true-ne-false : false ≡ true → ⊥
    true-ne-false q = cc

maybe-Distinct : Distinct maybe
maybe-Distinct zero zero t a b = refl
maybe-Distinct (suc zero) (suc zero) t a b = refl
maybe-Distinct zero (suc zero) t a b = absurd (not_both t a b)
maybe-Distinct (suc zero) zero t a b = absurd (not_both t b a)
maybe-Distinct (suc (suc i)) j t a b = cc
maybe-Distinct zero (suc (suc j)) t a b = cc
maybe-Distinct (suc zero) (suc (suc j)) t a b = cc

true_has_type : Typed (just (a_bool true)) just_false
unfolding opened
true_has_type = ((refl, refl, omega arith, refl, maybe-Distinct), tt, ((tt, tt, tt), tt))

wild_has_type : Typed (just wild) just_false
unfolding opened
wild_has_type = ((refl, refl, omega arith, refl, maybe-Distinct), tt, (tt, tt))

false_has_type : Typed (just (a_bool false)) just_false
unfolding opened
false_has_type = ((refl, refl, omega arith, refl, maybe-Distinct), tt, ((tt, tt, tt), tt))

nothing_has_type : Typed nothing just_false
unfolding opened
nothing_has_type = ((refl, refl, omega arith, refl, maybe-Distinct), tt, tt)

full_match-Typed : All (λ a. All (λ p. Typed p just_false) a.0) full_match
full_match-Typed =
    ((true_has_type, (nothing_has_type, tt)), ((false_has_type, (wild_has_type, tt)), tt))

bool-WellFormed : (b : Bool) → WellFormed unions (a_bool b)
unfolding arity
bool-WellFormed b = (tt, refl, tt)

just-WellFormed : (p : DPat) → WellFormed unions p → WellFormed unions (just p)
unfolding arity
just-WellFormed p h = ((refl, omega arith), refl, (h, tt))

nothing-WellFormed : WellFormed unions nothing
unfolding arity
nothing-WellFormed = ((refl, omega arith), refl, tt)

full_match-WellFormed : All (λ a. All (WellFormed unions) a.0) full_match
full_match-WellFormed = (
  (just-WellFormed (a_bool true) (bool-WellFormed true), (nothing-WellFormed, tt)),
  ((just-WellFormed (a_bool false) (bool-WellFormed false), (just-WellFormed wild tt, tt)), tt),
)

check-exhaustive_example :
    Any
      (λ p. Covers p just_false)
      (just (a_bool true) ∷ nothing ∷ just (a_bool false) ∷ just wild ∷ [])
unfolding check
check-exhaustive_example =
    check-exhaustive unions full_match just_false full_match-WellFormed full_match-Typed refl

check-dead_example :
    Any (λ p. Covers p just_false) (just (a_bool true) ∷ nothing ∷ just (a_bool false) ∷ [])
unfolding check opened
check-dead_example =
    check-dead full_match just_false 1 1 (just (a_bool false) ∷ just wild ∷ [], false) (just wild)
      full_match-Typed (inl (refl, refl)) refl refl (tt, tt)

abbrev full_rows : Matrix
full_rows = (just (a_bool true) ∷ []) ∷ (nothing ∷ []) ∷ (just wild ∷ []) ∷ []

useful_sound_example : CoveredBy full_rows (just_false ∷ [])
unfolding useful
useful_sound_example =
    useful_sound 5 full_rows (wild ∷ []) none (just_false ∷ [])
      ((true_has_type, tt), ((nothing_has_type, tt), ((wild_has_type, tt), tt))) (tt, tt) (tt, tt)
      refl

useful-Returns_example : Returns 1 (useful 5 full_rows (wild ∷ []) none).outcome
unfolding weight
useful-Returns_example =
    useful-Returns unions 5 full_rows (wild ∷ []) none
      (
        ((just-WellFormed (a_bool true) (bool-WellFormed true), tt), refl),
        (((nothing-WellFormed, tt), refl), (((just-WellFormed wild tt, tt), refl), tt)),
      )
      (tt, tt) (omega arith)

segments-In_example :
    Any (In (pos 6)) (segments (pos 0, pos 255) ((pos 1, pos 5) ∷ (pos 7, pos 255) ∷ []))
segments-In_example =
    segments-In (pos 6) (pos 0, pos 255) ((pos 1, pos 5) ∷ (pos 7, pos 255) ∷ [])
      (omega arith, omega arith)

-- The pair patterns `{ .0 = true }` and `{ .1 = false }`, and the pair of two `true`.
abbrev first_true : DPat
first_true = product tuple (field "0" (a_bool true) end)

abbrev second_false : DPat
second_false = product tuple (field "1" (a_bool false) end)

abbrev two_true : Val
two_true =
    Val.product (VFields.field "0" (Val.bool true) (VFields.field "1" (Val.bool true) VFields.end))

abbrev pair_rows : List Row
pair_rows = (first_true, []) ∷ (second_false, []) ∷ []

normalize_column-Normalizes_example :
    Normalizes pair_rows wild two_true [] (normalize_column pair_rows wild none)
unfolding opened
normalize_column-Normalizes_example =
    normalize_column-Normalizes pair_rows wild none two_true []
      (((tt, (tt, (tt, tt, tt), tt)), tt), (((tt, (tt, (tt, tt, tt), tt)), tt), tt)) tt

normalize_column-Normalized_example :
    Normalized unions 0 pair_rows wild (normalize_column pair_rows wild none)
normalize_column-Normalized_example =
    normalize_column-Normalized unions 0 pair_rows wild none
      (((bool-WellFormed true, tt), (tt, refl)), (((bool-WellFormed false, tt), (tt, refl)), tt)) tt
