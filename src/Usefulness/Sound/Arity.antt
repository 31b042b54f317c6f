-- ===== src/Usefulness/Sound/Arity.antt =====
-- A value opens into as many arguments as its constructor has.
use thrax.Prelude.{
  ℕ, zero, suc, ◌≡◌, refl, sym, ◌∙◌, ap, Bool, true, false, ◌&&◌, ◌==◌, inl, inr, some, List, [],
  ◌∷◌, length, ==_iff, &&-eq-true, eq_bool,
}
use thrax.Prelude.Int.{leb_ℤ}
use mathlib.Core.Option.{some_inj}
use thrax.Prelude.Names.{StrId, eq_str, eq_str→eq, eq→eq_str}
use thrax.Usefulness.Datum.{Val}
use thrax.Usefulness.Pattern.{
  Siblings, Ctor, variant, bool, seq_empty, seq_more, lit, int, product, arity, arity_at,
}
use thrax.Usefulness.Value.{vals, when, is_tag, opened, Inhabits}
use thrax.Usefulness.Sound.Ctors.{length-get_all}

is_tag_unique :
    (ss : Siblings) (i : ℕ) (a b : StrId) → is_tag ss i a ≡ true → is_tag ss i b ≡ true → a ≡ b
is_tag_unique [] i a b p q = cc
is_tag_unique ((tag, n) ∷ ss) zero a b p q = sym (eq_str→eq tag a p) ∙ eq_str→eq tag b q
is_tag_unique ((tag, n) ∷ ss) (suc i) a b p q = is_tag_unique ss i a b p q

Nil-ne-Cons : (ss : Siblings) (i : ℕ) → is_tag ss i "Nil" ≡ true → is_tag ss i "Cons" ≡ true → ⊥
Nil-ne-Cons ss i p q = clash (eq→eq_str "Nil" "Cons" (is_tag_unique ss i "Nil" "Cons" p q))
  where
    clash : eq_str "Nil" "Cons" ≡ true → ⊥
    clash e = cc

when-eq-some : {A : Type 0} (b : Bool) (a x : A) → when b a ≡ some x → (b ≡ true) × (a ≡ x)
when-eq-some true a x e = (refl, some_inj.0 e)
when-eq-some false a x e = cc

pub opened-arity :
    (c : Ctor) (v : Val) (ws : List Val) → Inhabits c v → opened c v ≡ some ws → length ws ≡ arity c
unfolding opened arity
opened-arity (variant u i ss) (Val.variant w j ts vs) ws h e =
    let (t, q) = when-eq-some (eq_str u w && i == j) (vals vs) ws e in
    ap length (sym q)
    ∙ h.3
    ∙ ap (arity_at ss) (sym ((==_iff i j).0 (&&-eq-true (eq_str u w) (i == j) t).1))
opened-arity (bool a) (Val.bool b) ws h e = ap length (sym (when-eq-some (eq_bool a b) [] ws e).1)
opened-arity (lit a) (Val.lit b) ws h e = ap length (sym (when-eq-some (eq_str a b) [] ws e).1)
opened-arity (int lo hi d) (Val.int z) ws h e =
    ap length (sym (when-eq-some (leb_ℤ lo z && leb_ℤ z hi) [] ws e).1)
opened-arity seq_empty Val.seq_empty ws h e = ap length (sym (some_inj.0 e))
opened-arity seq_empty (Val.seq_more a b) ws h e = cc
opened-arity seq_empty (Val.variant u j ss vs) ws h e =
    let (t, q) = when-eq-some (eq_str u "List" && is_tag ss j "Nil") (vals vs) ws e in
    let nil_tag = (&&-eq-true (eq_str u "List") (is_tag ss j "Nil") t).1 in
    ap length (sym q) ∙ elim h.1 [ inl k ↦ k.1 | inr k ↦ absurd (Nil-ne-Cons ss j nil_tag k.0) ]
opened-arity seq_more Val.seq_empty ws h e = cc
opened-arity seq_more (Val.seq_more a b) ws h e = ap length (sym (some_inj.0 e))
opened-arity seq_more (Val.variant u j ss vs) ws h e =
    let (t, q) = when-eq-some (eq_str u "List" && is_tag ss j "Cons") (vals vs) ws e in
    let cons_tag = (&&-eq-true (eq_str u "List") (is_tag ss j "Cons") t).1 in
    ap length (sym q) ∙ elim h.1 [ inl k ↦ absurd (Nil-ne-Cons ss j k.0 cons_tag) | inr k ↦ k.1 ]
opened-arity (product k fs) (Val.product vf) ws h e = length-get_all vf fs ws e
opened-arity _ _ ws h e = absurd h
