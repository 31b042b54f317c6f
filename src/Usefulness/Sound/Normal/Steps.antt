-- ===== src/Usefulness/Sound/Normal/Steps.antt =====
-- A sequence step turned into a variant of `List` opens the same values.
use mathlib.Core.Bool.{false≢true}
use mathlib.Core.Option.{some_inj}
use thrax.Prelude.{
  ℕ, ◌≡◌, sym, ◌∙◌, subst, true, ◌&&◌, ◌==◌, inl, inr, none, some, [], ◌∷◌, Bool-cases,
  Option-cases, ==_iff, ==_refl, &&-eq-true,
}
use thrax.Prelude.Names.{StrId, eq_str, eq→eq_str}
use thrax.Usefulness.Datum.{Val}
use thrax.Usefulness.Pattern.{Siblings, variant, seq_empty, seq_more}
use thrax.Usefulness.Column.{position}
use thrax.Usefulness.Value.{is_tag, opened, Inhabits, Distinct}

none-ne-some {ℓ} : {A : Type ℓ} {a : A} → none ≡ some a → ⊥
none-ne-some e = cc

pub position-is_tag :
    (ss : Siblings) (t : StrId) (n i : ℕ) → position ss t n ≡ some i → is_tag ss i t ≡ true
unfolding position
position-is_tag [] t n i e = cc
position-is_tag ((tag, k) ∷ ss) t n i e = elim (Bool-cases (eq_str tag t && k == n)) [
  | inl q ↦
      subst (λ j. is_tag ((tag, k) ∷ ss) j t ≡ true) (some_inj.0 (rw q at e))
        (&&-eq-true (eq_str tag t) (k == n) q).0
  | inr q ↦ elim (Option-cases (position ss t n)) [
    | inl p ↦ absurd (none-ne-some (rw (q, p) at e))
    | inr (i', p) ↦
        subst (λ j. is_tag ((tag, k) ∷ ss) j t ≡ true) (some_inj.0 (rw (q, p) at e))
          (position-is_tag ss t n i' p)
  ]
]

same_test :
    (ss : Siblings) (i j : ℕ) (t : StrId)
    → Distinct ss
    → is_tag ss i t ≡ true
    → (i == j) ≡ is_tag ss j t
same_test ss i j t d h = elim (Bool-cases (is_tag ss j t)) [
  | inl e ↦ rw (e, d i j t h e, ==_refl j)
  | inr e ↦ elim (Bool-cases (i == j)) [
    | inl q ↦ absurd (false≢true (sym e ∙ subst (λ k. is_tag ss k t ≡ true) ((==_iff i j).0 q) h))
    | inr q ↦ rw (e, q)
  ]
]

pub Nil-opened :
    (ss : Siblings) (i : ℕ) (v : Val)
    → Inhabits (variant "List" i ss) v
    → is_tag ss i "Nil" ≡ true
    → opened (variant "List" i ss) v ≡ opened seq_empty v
unfolding opened
Nil-opened ss i (Val.variant u j ss' vs) h e =
    rw (eq→eq_str "List" u h.0, eq→eq_str u "List" (sym h.0), ← h.1, same_test ss i j "Nil" h.4 e)
Nil-opened ss i _ h e = absurd h

pub Cons-opened :
    (ss : Siblings) (i : ℕ) (v : Val)
    → Inhabits (variant "List" i ss) v
    → is_tag ss i "Cons" ≡ true
    → opened (variant "List" i ss) v ≡ opened seq_more v
unfolding opened
Cons-opened ss i (Val.variant u j ss' vs) h e =
    rw (eq→eq_str "List" u h.0, eq→eq_str u "List" (sym h.0), ← h.1, same_test ss i j "Cons" h.4 e)
Cons-opened ss i _ h e = absurd h
