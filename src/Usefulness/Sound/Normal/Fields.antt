-- ===== src/Usefulness/Sound/Normal/Fields.antt =====
-- A product turned positional matches what it matched by field name.
use mathlib.Core.Option.{some_inj}
use thrax.Prelude.{
  ◌≡◌, refl, sym, subst, true, inl, inr, Option, none, some, List, [], ◌∷◌, map, Bool-cases,
}
use thrax.Prelude.Names.{StrId, eq_str, eq_str→eq, eq_str_refl, contains}
use thrax.Usefulness.Datum.{Val, VFields}
use thrax.Usefulness.Pattern.{DFields, wild, end, field, from_list}
use thrax.Usefulness.Column.{find_field}
use thrax.Usefulness.Value.{
  get, get_field, get_all, gather, Holds, Sees, SeesAll, SeesFields, NoField, Typed, TypedAll,
  TypedFields,
}

pub Holds-some : {A : Type 0} (o : Option A) (P : A → Type 0) (a : A) → o ≡ some a → Holds o P → P a
Holds-some o P a e h = rw e at h

pub Holds-intro :
    {A : Type 0} (o : Option A) (P : A → Type 0) (a : A) → o ≡ some a → P a → Holds o P
Holds-intro o P a e h = rw e h

pub Holds-map :
    {A : Type 0} (o : Option A) (P Q : A → Type 0) → Holds o P → ((a : A) → P a → Q a) → Holds o Q
Holds-map none P Q h f = h
Holds-map (some a) P Q h f = f a h

find-Typed :
    (fs : DFields) (v w : Val) (n : StrId)
    → TypedFields fs v
    → get_field v n ≡ some w
    → Typed (find_field fs n) w
unfolding find_field
find-Typed end v w n h e = tt
find-Typed (field m p fs) v w n h e = elim (Bool-cases (eq_str m n)) [
  | inl q ↦ rw q (
      Holds-some (get_field v n) (Typed p) w e
        (subst (λ k. Holds (get_field v k) (Typed p)) (eq_str→eq m n q) h.1))
  | inr q ↦ rw q (find-Typed fs v w n h.2 e)
]

find-Sees :
    (O : Type 0) (fs : DFields) (v w : Val) (n : StrId)
    → SeesFields O fs v
    → get_field v n ≡ some w
    → Sees O (find_field fs n) w
unfolding find_field
find-Sees O end v w n h e = tt
find-Sees O (field m p fs) v w n h e = elim (Bool-cases (eq_str m n)) [
  | inl q ↦ rw q (
      Holds-some (get_field v n) (Sees O p) w e
        (subst (λ k. Holds (get_field v k) (Sees O p)) (eq_str→eq m n q) h.0))
  | inr q ↦ rw q (find-Sees O fs v w n h.1 e)
]

-- The values of the names, one by one.
gather-eq-some :
    (o : Option Val) (os : Option (List Val)) (ws : List Val)
    → gather o os ≡ some ws
    → (w : Val) × (rest : List Val) × (o ≡ some w) × (os ≡ some rest) × (ws ≡ w ∷ rest)
gather-eq-some (some w) (some rest) ws e = (w, rest, refl, refl, sym (some_inj.0 e))
gather-eq-some (some w) none ws e = cc
gather-eq-some none os ws e = cc

get_all-cons :
    (vf : VFields) (n : StrId) (ns : List StrId) (ws : List Val)
    → get_all vf (n ∷ ns) ≡ some ws
    → (w : Val) × (rest : List Val) × (get vf n ≡ some w)
      × (get_all vf ns ≡ some rest)
      × (ws ≡ w ∷ rest)
get_all-cons vf n ns ws e = gather-eq-some (get vf n) (get_all vf ns) ws e

pub from_find-TypedAll :
    (fs : DFields) (vf : VFields) (ns : List StrId) (ws : List Val)
    → TypedFields fs (Val.product vf)
    → get_all vf ns ≡ some ws
    → TypedAll (from_list (map (find_field fs) ns)) ws
from_find-TypedAll fs vf [] ws h e = rw (← some_inj.0 e) tt
from_find-TypedAll fs vf (n ∷ ns) ws h e =
    let (w, rest, p, q, r) = get_all-cons vf n ns ws e in
    rw r (find-Typed fs (Val.product vf) w n h p, from_find-TypedAll fs vf ns rest h q)

pub from_find-SeesAll :
    (O : Type 0) (fs : DFields) (vf : VFields) (ns : List StrId) (ws : List Val)
    → SeesFields O fs (Val.product vf)
    → get_all vf ns ≡ some ws
    → SeesAll O (from_list (map (find_field fs) ns)) ws
from_find-SeesAll O fs vf [] ws h e = rw (← some_inj.0 e) tt
from_find-SeesAll O fs vf (n ∷ ns) ws h e =
    let (w, rest, p, q, r) = get_all-cons vf n ns ws e in
    rw r (find-Sees O fs (Val.product vf) w n h p, from_find-SeesAll O fs vf ns rest h q)

-- Back: what each name's pattern sees, and so what each field sees.
SeesAll-find :
    (O : Type 0) (fs : DFields) (vf : VFields) (ns : List StrId) (ws : List Val) (n : StrId)
    → get_all vf ns ≡ some ws
    → SeesAll O (from_list (map (find_field fs) ns)) ws
    → contains ns n ≡ true
    → Holds (get vf n) (Sees O (find_field fs n))
SeesAll-find O fs vf [] ws n e h c = cc
SeesAll-find O fs vf (m ∷ ns) ws n e h c =
    let (w, rest, p, q, r) = get_all-cons vf m ns ws e in
    let k = rw r at h in
    elim (Bool-cases (eq_str m n)) [
      | inl same ↦
          subst (λ t. Holds (get vf t) (Sees O (find_field fs t))) (eq_str→eq m n same)
            (Holds-intro (get vf m) (Sees O (find_field fs m)) w p k.0)
      | inr other ↦ SeesAll-find O fs vf ns rest n q k.1 (rw other at c)
    ]

abbrev pub Known : List StrId → DFields → Type 0
Known ns end = Unit
Known ns (field m p fs) = (contains ns m ≡ true) × Known ns fs

find_field-absent : (fs : DFields) (n : StrId) → NoField n fs → find_field fs n ≡ wild
unfolding find_field
find_field-absent end n h = refl
find_field-absent (field m p fs) n h = rw h.0 (find_field-absent fs n h.1)

SeesFields-find :
    (O : Type 0) (ns : List StrId) (fs : DFields) (v : Val)
    → Known ns fs
    → TypedFields fs v
    → ((n : StrId) → contains ns n ≡ true → Holds (get_field v n) (Sees O (find_field fs n)))
    → SeesFields O fs v
unfolding find_field
SeesFields-find O ns end v k t h = tt
SeesFields-find O ns (field m p fs) v k t h =
    (rw (eq_str_refl m) at (h m k.0), SeesFields-find O ns fs v k.1 t.2 tail)
  where
    tail : (n : StrId) → contains ns n ≡ true → Holds (get_field v n) (Sees O (find_field fs n))
    tail n c = elim (Bool-cases (eq_str m n)) [
      | inl same ↦
          subst (λ k. Holds (get_field v k) (Sees O (find_field fs k))) (eq_str→eq m n same)
            (rw (find_field-absent fs m t.0)
              (Holds-map (get_field v m) (Typed p) (Sees O wild) t.1 (λ _ _. tt)))
      | inr other ↦ rw other at (h n c)
    ]

pub SeesAll-SeesFields :
    (O : Type 0) (fs : DFields) (vf : VFields) (ns : List StrId) (ws : List Val)
    → Known ns fs
    → TypedFields fs (Val.product vf)
    → get_all vf ns ≡ some ws
    → SeesAll O (from_list (map (find_field fs) ns)) ws
    → SeesFields O fs (Val.product vf)
SeesAll-SeesFields O fs vf ns ws k t e h =
    SeesFields-find O ns fs (Val.product vf) k t (λ n c. SeesAll-find O fs vf ns ws n e h c)
