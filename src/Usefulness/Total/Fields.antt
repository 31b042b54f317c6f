-- ===== src/Usefulness/Total/Fields.antt =====
-- The field names of a column are distinct, so a positional product weighs no more than a named one.
use mathlib.Core.Bool.{false≢true}
use thrax.Prelude.{
  ◌+◌, ◌≤◌, ◌≡◌, refl, sym, ap, subst, false, inl, inr, List, [], ◌∷◌, ◌++◌, map, arith, Bool-cases,
  ◌∙◌, if◌then◌else◌,
}
use thrax.Prelude.Names.{StrId, eq_str, eq_str→eq, eq→eq_str, contains}
use thrax.Usefulness.Pattern.{DPat, DPats, DFields, end, field, from_list}
use thrax.Usefulness.Column.{add_names, find_field}
use thrax.Usefulness.Fuel.{weight, weight_args, weight_fields}

-- ## The field names are distinct

abbrev pub NoDup : List StrId → Type 0
NoDup [] = Unit
NoDup (n ∷ ns) = (contains ns n ≡ false) × NoDup ns

eq_str_sym_false : (a b : StrId) → eq_str a b ≡ false → eq_str b a ≡ false
eq_str_sym_false a b h = elim (Bool-cases (eq_str b a)) [
  | inl e ↦ absurd (false≢true (sym h ∙ eq→eq_str a b (sym (eq_str→eq b a e))))
  | inr e ↦ e
]

contains-snoc_false :
    (ns : List StrId) (m n : StrId)
    → contains ns n ≡ false
    → eq_str m n ≡ false
    → contains (ns ++ m ∷ []) n ≡ false
contains-snoc_false [] m n h e = rw e
contains-snoc_false (k ∷ ns) m n h e = elim (Bool-cases (eq_str k n)) [
  | inl q ↦ absurd (false≢true (sym (rw q at h)))
  | inr q ↦ rw q (contains-snoc_false ns m n (rw q at h) e)
]

snoc-NoDup : (ns : List StrId) (n : StrId) → NoDup ns → contains ns n ≡ false → NoDup (ns ++ n ∷ [])
snoc-NoDup [] n d h = (refl, tt)
snoc-NoDup (k ∷ ns) n d h = elim (Bool-cases (eq_str k n)) [
  | inl q ↦ absurd (false≢true (sym (rw q at h)))
  | inr q ↦
      (contains-snoc_false ns n k d.0 (eq_str_sym_false k n q), snoc-NoDup ns n d.1 (rw q at h))
]

pub add_names-NoDup : (ns : List StrId) (fs : DFields) → NoDup ns → NoDup (add_names ns fs)
unfolding add_names
add_names-NoDup ns end d = d
add_names-NoDup ns (field m p fs) d =
    add_names-NoDup (if contains ns m then ns else ns ++ m ∷ []) fs
      (elim (Bool-cases (contains ns m)) [ inl e ↦ rw e d | inr e ↦ rw e (snoc-NoDup ns m d e) ])

-- ## Weights of products

abbrev pub found : DFields → List StrId → DPats
found fs ns = from_list (map (find_field fs) ns)

found-end : (ns : List StrId) → weight_args (found end ns) ≡ 0
unfolding weight find_field
found-end [] = refl
found-end (n ∷ ns) = omega (arith, found-end ns)

found-skip :
    (m : StrId) (p : DPat) (fs : DFields) (ns : List StrId)
    → contains ns m ≡ false
    → weight_args (found (field m p fs) ns) ≡ weight_args (found fs ns)
unfolding weight find_field
found-skip m p fs [] h = refl
found-skip m p fs (n ∷ ns) h = elim (Bool-cases (eq_str n m)) [
  | inl q ↦ absurd (false≢true (sym (rw q at h)))
  | inr q ↦
      rw (eq_str_sym_false n m q)
        (ap (λ t. weight (find_field fs n) + t) (found-skip m p fs ns (rw q at h)))
]

found-field :
    (m : StrId) (p : DPat) (fs : DFields) (ns : List StrId)
    → NoDup ns
    → weight_args (found (field m p fs) ns) ≤ weight p + weight_args (found fs ns)
unfolding weight find_field
found-field m p fs [] d = omega arith
found-field m p fs (n ∷ ns) d = elim (Bool-cases (eq_str m n)) [
  | inl q ↦ rw q (
      omega (
        arith,
        found-skip m p fs ns (subst (λ k. contains ns k ≡ false) (sym (eq_str→eq m n q)) d.0),
      ))
  | inr q ↦ rw q (omega (arith, found-field m p fs ns d.1))
]

pub found-le :
    (fs : DFields) (ns : List StrId) → NoDup ns → weight_args (found fs ns) ≤ weight_fields fs
unfolding weight
found-le end ns d = omega (arith, found-end ns)
found-le (field m p fs) ns d = omega (arith, found-field m p fs ns d, found-le fs ns d)
