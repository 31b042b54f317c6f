-- ===== src/Sizes/Poly.antt =====
-- Sizes, their polynomials over the integers modulo 2 ^ 64, and their unification. A size is a type whose
-- bound variables have been followed, as `head` does.
use thrax.Prelude.{
  ℕ, ◌+◌, ◌*◌, ◌%◌, Bool, true, false, ◌&&◌, ◌||◌, ◌==◌, ltb, Option, none, some, List, [], ◌∷◌,
  ◌++◌, if◌then◌else◌,
}

-- `other` is any node that is no size.
pub data Size : Type 0 where
  nat : (k : ℕ) → Size
  var : (id : ℕ) → Size
  nat_add nat_mul : Size → Size → Size
  other : Size

abbrev pub Monomial : Type 0
Monomial = List ℕ

abbrev pub Poly : Type 0
Poly = List (ℕ × Monomial)

-- 2 ^ 64, which a `u64` wraps at
abbrev pub word : ℕ
word = 18446744073709551616

-- ## Canonical form

unfoldable pub insert_id : ℕ → Monomial → Monomial
insert_id v [] = v ∷ []
insert_id v (w ∷ ws) = let rest = insert_id v ws in if ltb w v then w ∷ rest else v ∷ w ∷ ws

-- `m.sort_unstable()`
unfoldable pub sort_ids : Monomial → Monomial
unfolding insert_id
sort_ids [] = []
sort_ids (v ∷ vs) = insert_id v (sort_ids vs)

-- `m.cmp(&n)` is less.
abbrev pub less : Monomial → Monomial → Bool
less m [] = false
less [] (w ∷ ws) = true
less (v ∷ vs) (w ∷ ws) = ltb v w || (v == w && less vs ws)

abbrev pub eq_ids : Monomial → Monomial → Bool
eq_ids [] [] = true
eq_ids [] (w ∷ ws) = false
eq_ids (v ∷ vs) [] = false
eq_ids (v ∷ vs) (w ∷ ws) = v == w && eq_ids vs ws

unfoldable pub insert_term : ℕ × Monomial → Poly → Poly
insert_term t [] = t ∷ []
insert_term t (u ∷ us) =
    let rest = insert_term t us in if less u.1 t.1 then u ∷ rest else t ∷ u ∷ us

-- Each monomial sorted, and the terms sorted by them
unfoldable pub sort_terms : Poly → Poly
unfolding insert_term sort_ids
sort_terms [] = []
sort_terms ((c, m) ∷ ts) = insert_term (c, sort_ids m) (sort_terms ts)

-- The loop of `canon`, where `last` is the last term of `out`
unfoldable pub combine : ℕ × Monomial → Poly → Poly
combine last [] = last ∷ []
combine last ((c, m) ∷ ts) =
    let added = combine ((last.0 + c) % word, last.1) ts in
    let pushed = combine (c, m) ts in if eq_ids last.1 m then added else last ∷ pushed

abbrev pub combine_all : Poly → Poly
combine_all [] = []
combine_all (t ∷ ts) = combine t ts

unfoldable pub retain : Poly → Poly
retain [] = []
retain ((c, m) ∷ ts) = let rest = retain ts in if c == 0 then rest else (c, m) ∷ rest

unfoldable pub canon : Poly → Poly
unfolding sort_terms combine retain
canon terms = retain (combine_all (sort_terms terms))

-- ## Sizes

abbrev pub times : ℕ × Monomial → Poly → Poly
times t [] = []
times t ((c, m) ∷ us) = ((t.0 * c) % word, t.1 ++ m) ∷ times t us

abbrev pub products : Poly → Poly → Poly
products [] b = []
products (t ∷ a) b = times t b ++ products a b

unfoldable pub poly_mul : Poly → Poly → Poly
unfolding canon
poly_mul a b = canon (products a b)

unfoldable pub normalize_size : Size → Poly
unfolding canon poly_mul
normalize_size (nat k) = canon ((k, []) ∷ [])
normalize_size (var id) = (1, id ∷ []) ∷ []
normalize_size (nat_add a b) = canon (normalize_size a ++ normalize_size b)
normalize_size (nat_mul a b) = poly_mul (normalize_size a) (normalize_size b)
normalize_size other = []

abbrev pub is_size : Size → Bool
is_size (nat k) = true
is_size (nat_add a b) = true
is_size (nat_mul a b) = true
is_size _ = false

abbrev pub constant : Poly → Option ℕ
constant [] = some 0
constant ((k, []) ∷ []) = some k
constant _ = none

unfoldable pub nat_value : Size → Option ℕ
unfolding normalize_size
nat_value ty = if is_size ty then constant (normalize_size ty) else none

-- ## Unification

abbrev pub lone_var : Poly → Option ℕ
lone_var ((c, v ∷ []) ∷ []) = if c == 1 then some v else none
lone_var _ = none

abbrev pub contains : ℕ → Monomial → Bool
contains v [] = false
contains v (w ∷ ws) = w == v || contains v ws

abbrev pub poly_has_var : Poly → ℕ → Bool
poly_has_var [] v = false
poly_has_var ((c, m) ∷ ts) v = contains v m || poly_has_var ts v

abbrev pub eq_poly : Poly → Poly → Bool
eq_poly [] [] = true
eq_poly [] (u ∷ us) = false
eq_poly (t ∷ ts) [] = false
eq_poly ((c, m) ∷ ts) ((d, n) ∷ us) = (c == d && eq_ids m n) && eq_poly ts us

-- What `unify_size` does: nothing, a call of `bind`, or an error
pub data Unified : Type 0 where
  unified size_mismatch : Unified
  bind : (v : ℕ) (ty : Size) → Unified

-- The variable of one side, if the other side has it not, is bound to the other side; else the next is tried.
abbrev pub bind_lone : Option ℕ → Poly → Size → Unified → Unified
bind_lone none p ty next = next
bind_lone (some v) p ty next = if poly_has_var p v then next else bind v ty

unfoldable pub unify_size : Size → Size → Unified
unfolding normalize_size
unify_size a b =
    let pa = normalize_size a in
    let pb = normalize_size b in
    if eq_poly pa pb
    then unified
    else bind_lone (lone_var pa) pb b (bind_lone (lone_var pb) pa a size_mismatch)
