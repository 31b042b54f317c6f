-- ===== src/Usefulness/Sound/Ctors.antt =====
-- What `same` and `signature` say of the values that a constructor builds.
use mathlib.Core.Option.{some_inj}
use thrax.Prelude.{
  ℕ, zero, suc, ◌+◌, ◌≤◌, ◌<◌, ◌≡◌, refl, ap, sym, ◌∙◌, true, false, ◌==◌, inl, inr, none, some,
  List, [], ◌∷◌, map, length, Any, arith, ==_iff, ==_refl, &&-eq-true, eq_bool→eq, subst,
  Bool-cases, Option-cases,
}
use thrax.Prelude.Int.{ℤ, eq_ℤ, eq_ℤ→eq}
use thrax.Prelude.Names.{StrId, eq_str, eq_str→eq, eq_str_refl}
use thrax.Usefulness.Datum.{Val, VFields}
use thrax.Usefulness.Pattern.{
  ProductKind, Siblings, Ctor, variant, bool, seq_empty, seq_more, lit, int, product, arity, same,
  signature, range_from,
}
use thrax.Usefulness.Value.{vals, get, get_all, opened, Allows, Inhabits}

-- A product constructor of a normalized column has the column's field names.
abbrev pub OfNames : List StrId → Ctor → Type 0
OfNames ns (product k fs) = fs ≡ ns
OfNames ns _ = Unit

variant-opened :
    (u u' : StrId) (i i' : ℕ) (ss ss' : Siblings) (v : Val)
    → u' ≡ u
    → i' ≡ i
    → opened (variant u' i' ss') v ≡ opened (variant u i ss) v
unfolding opened
variant-opened u u' i i' ss ss' (Val.variant w j ts vs) p q = rw (p, q)
variant-opened u u' i i' ss ss' _ p q = refl

int-opened :
    (a a' b b' : ℤ) (dom dom' : ℤ × ℤ) (v : Val)
    → a' ≡ a
    → b' ≡ b
    → opened (int a' b' dom') v ≡ opened (int a b dom) v
unfolding opened
int-opened a a' b b' dom dom' (Val.int z) p q = rw (p, q)
int-opened a a' b b' dom dom' _ p q = refl

product-opened :
    (k k' : ProductKind) (fs fs' : List StrId) (v : Val)
    → fs' ≡ fs
    → opened (product k' fs') v ≡ opened (product k fs) v
unfolding opened
product-opened k k' fs fs' (Val.product vf) p = rw p
product-opened k k' fs fs' _ p = refl

-- Constructors that are the same open a value alike.
pub same-opened :
    (ns : List StrId) (c d : Ctor) (v : Val)
    → OfNames ns c
    → OfNames ns d
    → same d c ≡ true
    → opened d v ≡ opened c v
unfolding same
same-opened ns (variant u i ss) (variant u' i' ss') v oc od h =
    let both = &&-eq-true (eq_str u' u) (i' == i) h in
    variant-opened u u' i i' ss ss' v (eq_str→eq u' u both.0) ((==_iff i' i).0 both.1)
same-opened ns (bool a) (bool b) v oc od h = ap (λ t. opened (bool t) v) (eq_bool→eq b a h)
same-opened ns seq_empty seq_empty v oc od h = refl
same-opened ns seq_more seq_more v oc od h = refl
same-opened ns (lit a) (lit b) v oc od h = ap (λ t. opened (lit t) v) (eq_str→eq b a h)
same-opened ns (int a b dom) (int a' b' dom') v oc od h =
    let both = &&-eq-true (eq_ℤ a' a) (eq_ℤ b' b) h in
    int-opened a a' b b' dom dom' v (eq_ℤ→eq a' a both.0) (eq_ℤ→eq b' b both.1)
same-opened ns (product k fs) (product k' fs') v oc od h =
    product-opened k k' fs fs' v (od ∙ sym oc)
same-opened ns _ _ v oc od h = cc

-- A constructor of a finite type is one of its signature.
abbrev pub Built : List StrId → Val → Ctor → Type 0
Built ns v c =
    Inhabits c v × OfNames ns c × (ws : List Val) × (opened c v ≡ some ws) × (length ws ≡ arity c)

Any-variant :
    (P : Ctor → Type 0) (u : StrId) (ss : Siblings) (start n j : ℕ)
    → start ≤ j
    → j < start + n
    → P (variant u j ss)
    → Any P (map (λ i. variant u i ss) (range_from start n))
Any-variant P u ss start zero j lo hi p = absurd (omega arith)
Any-variant P u ss start (suc n) j lo hi p = elim (Bool-cases (start == j)) [
  | inl e ↦ inl (subst (λ k. P (variant u k ss)) (sym ((==_iff start j).0 e)) p)
  | inr e ↦ inr (Any-variant P u ss (suc start) n j (ground arith) (omega arith) p)
]

-- A value viewed as a sequence is empty or not.
view-Built :
    (ns : List StrId) (v : Val)
    → Inhabits seq_empty v
    → Any (Built ns v) (seq_empty ∷ seq_more ∷ [])
unfolding arity opened
view-Built ns Val.seq_empty h = inl (tt, tt, [], refl, refl)
view-Built ns (Val.seq_more a b) h = inr (inl (tt, tt, a ∷ b ∷ [], refl, refl))
view-Built ns (Val.variant u j ss vs) (l, inl (t, n)) =
    inl ((l, inl (t, n)), tt, vals vs, rw (l, t), n)
view-Built ns (Val.variant u j ss vs) (l, inr (t, n)) =
    inr (inl ((l, inr (t, n)), tt, vals vs, rw (l, t), n))
view-Built ns (Val.bool b) h = absurd h
view-Built ns (Val.lit b) h = absurd h
view-Built ns (Val.int b) h = absurd h
view-Built ns (Val.product b) h = absurd h

none-ne {ℓ} : {A : Type ℓ} {a : A} → none ≡ some a → ⊥
none-ne e = cc

pub length-get_all :
    (vf : VFields) (ns : List StrId) (ws : List Val)
    → get_all vf ns ≡ some ws
    → length ws ≡ length ns
length-get_all vf [] ws e = ap length (sym (some_inj.0 e))
length-get_all vf (n ∷ ns) ws e = elim (Option-cases (get vf n)) [
  | inl p ↦ absurd (none-ne (rw p at e))
  | inr (x, p) ↦ elim (Option-cases (get_all vf ns)) [
    | inl q ↦ absurd (none-ne (rw (p, q) at e))
    | inr (xs, q) ↦
        ap length (sym (some_inj.0 (rw (p, q) at e))) ∙ ap suc (length-get_all vf ns xs q)
  ]
]

pub signature-Built :
    (ns : List StrId) (c : Ctor) (v : Val)
    → Inhabits c v
    → OfNames ns c
    → Allows (signature c) (Any (Built ns v))
unfolding signature arity opened
signature-Built ns (lit a) v h o = tt
signature-Built ns (int a b dom) v h o = tt
signature-Built ns (variant u i ss) (Val.variant u' j ss' vs) h o =
    Any-variant (Built ns (Val.variant u' j ss' vs)) u ss 0 (length ss) j (omega arith)
      (omega arith) (h, tt, vals vs, rw (h.0, eq_str_refl u', ==_refl j), h.3)
signature-Built ns (bool b) (Val.bool true) h o = inl (tt, tt, [], refl, refl)
signature-Built ns (bool b) (Val.bool false) h o = inr (inl (tt, tt, [], refl, refl))
signature-Built ns seq_empty v h o = view-Built ns v h
signature-Built ns seq_more v h o = view-Built ns v h
signature-Built ns (product k fs) (Val.product vf) (ws, e) o =
    inl ((ws, e), o, ws, e, length-get_all vf fs ws e)
signature-Built ns _ _ h o = absurd h
