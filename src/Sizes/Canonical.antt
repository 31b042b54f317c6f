-- ===== src/Sizes/Canonical.antt =====
-- The normal form of a size is canonical: its terms are in strict order, its coefficients are numbers of
-- 64 bits that are not zero, and its monomials are sorted.
use thrax.Prelude.{ℕ, ◌+◌, ◌%◌, ◌≤◌, ◌<◌, ◌≡◌, true, false, ltb, if_cases, All, [], ◌∷◌, arith}
use native.Mathlib.Nat.{mod-lt}
use thrax.Sizes.Poly.{
  Size, nat, nat_add, nat_mul, Monomial, Poly, word, insert_id, sort_ids, less, eq_ids, insert_term,
  sort_terms, combine,
}
use thrax.Sizes.Order.{less_asym, less_unequal, not_less_trans, less_then}

abbrev pub Rising : Monomial → Type 0
Rising [] = Unit
Rising (v ∷ vs) = All (λ w. v ≤ w) vs × Rising vs

-- Each term's monomial is before those of the later terms.
abbrev pub Ordered : Poly → Type 0
Ordered [] = Unit
Ordered (t ∷ ts) = All (λ (u : ℕ × Monomial). less t.1 u.1 ≡ true) ts × Ordered ts

abbrev pub IsTerm : ℕ × Monomial → Type 0
IsTerm t = (0 < t.0) × (t.0 < word) × Rising t.1

abbrev pub IsCanonical : Poly → Type 0
IsCanonical p = Ordered p × All IsTerm p

-- A size whose numbers are of 64 bits
abbrev pub Fits : Size → Type 0
Fits (nat k) = k < word
Fits (nat_add a b) = Fits a × Fits b
Fits (nat_mul a b) = Fits a × Fits b
Fits _ = Unit

-- ## Sorted monomials

All-insert_id : (P : ℕ → Type 0) (v : ℕ) (m : Monomial) → P v → All P m → All P (insert_id v m)
unfolding insert_id
All-insert_id P v [] p q = (p, tt)
All-insert_id P v (w ∷ ws) p (q, r) =
    if_cases (All P) (ltb w v) (w ∷ insert_id v ws) (v ∷ w ∷ ws)
      (λ e. (q, All-insert_id P v ws p r)) (λ e. (p, (q, r)))

above_all : (v w : ℕ) (ws : Monomial) → v ≤ w → All (λ x. w ≤ x) ws → All (λ x. v ≤ x) ws
above_all v w [] l h = tt
above_all v w (x ∷ xs) l (k, h) = (omega (arith, l, k), above_all v w xs l h)

insert_id-Rising : (v : ℕ) (m : Monomial) → Rising m → Rising (insert_id v m)
unfolding insert_id
insert_id-Rising v [] h = (tt, tt)
insert_id-Rising v (w ∷ ws) (a, r) =
    if_cases Rising (ltb w v) (w ∷ insert_id v ws) (v ∷ w ∷ ws)
      (λ e. (All-insert_id (λ x. w ≤ x) v ws (ground (arith, e)) a, insert_id-Rising v ws r))
      (λ e. let l : v ≤ w = ground (arith, e) in ((l, above_all v w ws l a), (a, r)))

sort_ids-Rising : (m : Monomial) → Rising (sort_ids m)
unfolding sort_ids
sort_ids-Rising [] = tt
sort_ids-Rising (v ∷ vs) = insert_id-Rising v (sort_ids vs) (sort_ids-Rising vs)

-- ## Sorted terms

-- No later term's monomial is before a term's.
abbrev pub Sorted : Poly → Type 0
Sorted [] = Unit
Sorted (t ∷ ts) = All (λ (u : ℕ × Monomial). less u.1 t.1 ≡ false) ts × Sorted ts

All-insert_term :
    (P : ℕ × Monomial → Type 0) (t : ℕ × Monomial) (p : Poly)
    → P t
    → All P p
    → All P (insert_term t p)
unfolding insert_term
All-insert_term P t [] h k = (h, tt)
All-insert_term P t (u ∷ us) h (k, r) =
    if_cases (All P) (less u.1 t.1) (u ∷ insert_term t us) (t ∷ u ∷ us)
      (λ e. (k, All-insert_term P t us h r)) (λ e. (h, (k, r)))

none_before :
    (m n : Monomial) (p : Poly)
    → less n m ≡ false
    → All (λ (u : ℕ × Monomial). less u.1 n ≡ false) p
    → All (λ (u : ℕ × Monomial). less u.1 m ≡ false) p
none_before m n [] l h = tt
none_before m n (u ∷ us) l (k, h) = (not_less_trans m n u.1 l k, none_before m n us l h)

insert_term-Sorted : (t : ℕ × Monomial) (p : Poly) → Sorted p → Sorted (insert_term t p)
unfolding insert_term
insert_term-Sorted t [] h = (tt, tt)
insert_term-Sorted t (u ∷ us) (a, r) =
    if_cases Sorted (less u.1 t.1) (u ∷ insert_term t us) (t ∷ u ∷ us)
      (λ e. (
        All-insert_term (λ (x : ℕ × Monomial). less x.1 u.1 ≡ false) t us (less_asym u.1 t.1 e) a,
        insert_term-Sorted t us r,
      ))
      (λ e. ((e, none_before t.1 u.1 us e a), (a, r)))

pub sort_terms-Sorted : (p : Poly) → Sorted (sort_terms p)
unfolding sort_terms
sort_terms-Sorted [] = tt
sort_terms-Sorted ((c, m) ∷ ts) =
    insert_term-Sorted (c, sort_ids m) (sort_terms ts) (sort_terms-Sorted ts)

-- A coefficient of 64 bits and a sorted monomial
abbrev pub Small : ℕ × Monomial → Type 0
Small t = (t.0 < word) × Rising t.1

abbrev pub Word : ℕ × Monomial → Type 0
Word t = t.0 < word

pub sort_terms-Small : (p : Poly) → All Word p → All Small (sort_terms p)
unfolding sort_terms
sort_terms-Small [] h = tt
sort_terms-Small ((c, m) ∷ ts) (l, h) =
    All-insert_term Small (c, sort_ids m) (sort_terms ts) (l, sort_ids-Rising m)
      (sort_terms-Small ts h)

-- ## Combined terms

All-combine :
    (P : Monomial → Type 0) (t : ℕ × Monomial) (p : Poly)
    → P t.1
    → All (λ (u : ℕ × Monomial). P u.1) p
    → All (λ (u : ℕ × Monomial). P u.1) (combine t p)
unfolding combine
All-combine P t [] h k = (h, tt)
All-combine P t ((c, m) ∷ ts) h (k, r) =
    if_cases (All (λ (u : ℕ × Monomial). P u.1)) (eq_ids t.1 m) (combine ((t.0 + c) % word, t.1) ts)
      (t ∷ combine (c, m) ts) (λ e. All-combine P ((t.0 + c) % word, t.1) ts h r)
      (λ e. (h, All-combine P (c, m) ts k r))

all_after :
    (m n : Monomial) (p : Poly)
    → less m n ≡ true
    → All (λ (u : ℕ × Monomial). less u.1 n ≡ false) p
    → All (λ (u : ℕ × Monomial). less m u.1 ≡ true) p
all_after m n [] l h = tt
all_after m n (u ∷ us) l (k, h) = (less_then m n u.1 l k, all_after m n us l h)

pub combine-Ordered : (t : ℕ × Monomial) (p : Poly) → Sorted (t ∷ p) → Ordered (combine t p)
unfolding combine
combine-Ordered t [] h = (tt, tt)
combine-Ordered t ((c, m) ∷ ts) ((l, a), (b, r)) =
    if_cases Ordered (eq_ids t.1 m) (combine ((t.0 + c) % word, t.1) ts) (t ∷ combine (c, m) ts)
      (λ e. combine-Ordered ((t.0 + c) % word, t.1) ts (a, r))
      (λ e.
        let before = less_unequal t.1 m l e in
        (
          All-combine (λ n. less t.1 n ≡ true) (c, m) ts before (all_after t.1 m ts before b),
          combine-Ordered (c, m) ts (b, r),
        ))

pub combine-Small : (t : ℕ × Monomial) (p : Poly) → Small t → All Small p → All Small (combine t p)
unfolding combine
combine-Small t [] h k = (h, tt)
combine-Small t ((c, m) ∷ ts) (l, h) (k, r) =
    if_cases (All Small) (eq_ids t.1 m) (combine ((t.0 + c) % word, t.1) ts) (t ∷ combine (c, m) ts)
      (λ e. combine-Small ((t.0 + c) % word, t.1) ts (mod-lt (t.0 + c) (omega arith), h) r)
      (λ e. ((l, h), combine-Small (c, m) ts k r))
