-- ===== src/Json/Members.antt =====
-- `get` after `set`.
use Prim.Native.Char.{code}
use thrax.Prelude.{
  ◌≡◌, ◌==◌, refl, sym, ◌∙◌, true, false, inl, inr, Bool-cases, ==_refl, ==_iff, &&-eq-true, [],
  ◌∷◌,
}
use thrax.Json.Value.{
  Text, eq_text, Json, Pairs, obj, no_pairs, pair, find_pair, get, set_pair, set,
}

eq_text_refl : (s : Text) → eq_text s s ≡ true
unfolding eq_text
eq_text_refl [] = refl
eq_text_refl (c ∷ s) = rw (==_refl (code c)) (eq_text_refl s)

-- Two keys that a third equals are equal to each other.
eq_text_trans : (s t u : Text) → eq_text s t ≡ true → eq_text s u ≡ true → eq_text t u ≡ true
unfolding eq_text
eq_text_trans [] [] u h k = k
eq_text_trans [] (d ∷ t) u h k = cc
eq_text_trans (c ∷ s) [] u h k = cc
eq_text_trans (c ∷ s) (d ∷ t) [] h k = cc
eq_text_trans (c ∷ s) (d ∷ t) (e ∷ u) h k =
    let (a, b) = &&-eq-true (code c == code d) (eq_text s t) h in
    let (a', b') = &&-eq-true (code c == code e) (eq_text s u) k in
    rw
      ((==_iff (code d) (code e)).1
        (sym ((==_iff (code c) (code d)).0 a) ∙ (==_iff (code c) (code e)).0 a'))
      (eq_text_trans s t u b b')

find_pair-set_pair :
    (ps : Pairs) (key : Text) (value : Json) → find_pair (set_pair ps key value) key ≡ value
unfolding find_pair set_pair
find_pair-set_pair no_pairs key value = rw (eq_text_refl key) refl
find_pair-set_pair (pair k v ps) key value = elim (Bool-cases (eq_text k key)) [
  | inl e ↦ rw e (rw e refl)
  | inr e ↦ rw e (rw e (find_pair-set_pair ps key value))
]

find_pair-set_pair_other :
    (ps : Pairs) (key other : Text) (value : Json)
    → eq_text key other ≡ false
    → find_pair (set_pair ps key value) other ≡ find_pair ps other
unfolding find_pair set_pair
find_pair-set_pair_other no_pairs key other value d = rw d refl
find_pair-set_pair_other (pair k v ps) key other value d = elim (Bool-cases (eq_text k key)) [
  | inl e ↦ elim (Bool-cases (eq_text k other)) [
    | inl e' ↦ absurd (true-ne-false (sym (eq_text_trans k key other e e') ∙ d))
    | inr e' ↦ rw e (rw e' refl)
  ]
  | inr e ↦ elim (Bool-cases (eq_text k other)) [
    | inl e' ↦ rw e (rw e' refl)
    | inr e' ↦ rw e (rw e' (find_pair-set_pair_other ps key other value d))
  ]
]
  where
    true-ne-false : true ≡ false → ⊥
    true-ne-false q = cc

-- After a member of an object is set, it has the value, and every other key has what it had.
pub get-set :
    (ps : Pairs) (key : Text) (value : Json)
    → (get (set (obj ps) key value) key ≡ value)
      × ((other : Text)
          → eq_text key other ≡ false
          → get (set (obj ps) key value) other ≡ get (obj ps) other)
unfolding get set
get-set ps key value =
    (find_pair-set_pair ps key value, λ other. find_pair-set_pair_other ps key other value)
