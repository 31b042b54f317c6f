-- ===== src/Usefulness/Sound/Dead.antt =====
-- What `check` reports as dead, and the rows it ends with.
use thrax.Prelude.{
  ℕ, zero, Bool, suc, ◌+◌, ◌≤◌, ◌≡◌, refl, sym, ap, ◌∙◌, true, false, ◌==◌, ==_iff, inl, inr, none,
  some, List, [], ◌∷◌, ◌++◌, map, All, Any, Any-map, length, get_elem?, take, if◌then◌else◌,
  Any-append, arith, Bool-cases,
}
use mathlib.Core.Option.{some_inj}
use mathlib.Core.List.{append_assoc, append-nil}
use thrax.Usefulness.Pattern.{DPat}
use thrax.Usefulness.Search.{Outcome, covered, Matrix}
use thrax.Usefulness.Check.{
  Arm, Dead, arm, alt, run_useful, is_covered, dead_alts, rows_of, dead_in, check_arms,
}

-- The alternatives of the arms without a guard.
abbrev pub unguarded : List Arm → List DPat
unguarded [] = []
unguarded ((alts, true) ∷ arms) = unguarded arms
unguarded ((alts, false) ∷ arms) = alts ++ unguarded arms

-- The entry says that alternative `j` of arm `i` is dead.
abbrev pub Kills : ℕ → ℕ → Dead → Type 0
Kills i j (arm i') = i' ≡ i
Kills i j (alt i' j') = (i' ≡ i) × (j' ≡ j)

-- `useful` finds no value for `p` after these rows.
abbrev pub IsDead : Matrix → DPat → Type 0
IsDead seen p = (run_useful seen (p ∷ []) none).outcome ≡ covered

is_covered→eq : (o : Outcome) → is_covered o ≡ true → o ≡ covered
is_covered→eq covered h = refl
is_covered→eq Outcome.panicked h = cc
is_covered→eq Outcome.out_of_fuel h = cc
is_covered→eq (Outcome.witness w) h = cc

rows_of-append : (ps qs : List DPat) → rows_of (ps ++ qs) ≡ rows_of ps ++ rows_of qs
rows_of-append [] qs = refl
rows_of-append (p ∷ ps) qs = ap (λ r. (p ∷ []) ∷ r) (rows_of-append ps qs)

dead_alts-le :
    (seen : Matrix) (k : ℕ) (alts : List DPat) → length (dead_alts seen k alts) ≤ length alts
unfolding dead_alts
dead_alts-le seen k [] = omega arith
dead_alts-le seen k (p ∷ alts) =
    elim (Bool-cases (is_covered (run_useful seen (p ∷ []) none).outcome)) [
      | inl e ↦ rw e (omega (arith, dead_alts-le (seen ++ (p ∷ []) ∷ []) (suc k) alts))
      | inr e ↦ rw e (omega (arith, dead_alts-le (seen ++ (p ∷ []) ∷ []) (suc k) alts))
    ]

dead_alts-ge : (seen : Matrix) (k : ℕ) (alts : List DPat) → All (λ j. k ≤ j) (dead_alts seen k alts)
unfolding dead_alts
dead_alts-ge seen k [] = tt
dead_alts-ge seen k (p ∷ alts) =
    let rest =
      weaken (dead_alts (seen ++ (p ∷ []) ∷ []) (suc k) alts)
        (dead_alts-ge (seen ++ (p ∷ []) ∷ []) (suc k) alts) in
    elim (Bool-cases (is_covered (run_useful seen (p ∷ []) none).outcome)) [
      | inl e ↦ rw e (omega arith, rest)
      | inr e ↦ rw e rest
    ]
  where
    weaken : (js : List ℕ) → All (λ j. suc k ≤ j) js → All (λ j. k ≤ j) js
    weaken [] h = tt
    weaken (j ∷ js) h = (omega (arith, h.0), weaken js h.1)

not_below : (k : ℕ) (js : List ℕ) → All (λ j. suc k ≤ j) js → Any (λ j. j ≡ k) js → ⊥
not_below k [] a h = h
not_below k (j ∷ js) a (inl h) = omega (arith, h, a.0)
not_below k (j ∷ js) a (inr h) = not_below k js a.1 h

seen_next :
    (seen : Matrix) (q : DPat) (ps : List DPat)
    → seen ++ (q ∷ []) ∷ [] ++ rows_of ps ≡ seen ++ rows_of (q ∷ ps)
seen_next seen q ps = append_assoc seen ((q ∷ []) ∷ []) (rows_of ps)

-- A listed index is that of a dead alternative.
dead_alts-IsDead :
    (seen : Matrix) (k j : ℕ) (alts : List DPat) (p : DPat)
    → get_elem? alts j ≡ some p
    → Any (λ x. x ≡ k + j) (dead_alts seen k alts)
    → IsDead (seen ++ rows_of (take j alts)) p
unfolding dead_alts
dead_alts-IsDead seen k j [] p e h = cc
dead_alts-IsDead seen k zero (q ∷ alts) p e h =
    elim (Bool-cases (is_covered (run_useful seen (q ∷ []) none).outcome)) [
      | inl c ↦ here c
      | inr c ↦ absurd (
          not_below k (dead_alts (seen ++ (q ∷ []) ∷ []) (suc k) alts)
            (dead_alts-ge (seen ++ (q ∷ []) ∷ []) (suc k) alts)
            (Any-map (λ x. x ≡ k + 0) (dead_alts (seen ++ (q ∷ []) ∷ []) (suc k) alts)
              (λ x g. omega (arith, g)) (rw c at h)))
    ]
  where
    here : is_covered (run_useful seen (q ∷ []) none).outcome ≡ true → IsDead (seen ++ []) p
    here c =
        rw (append-nil seen, ← some_inj.0 e)
          (is_covered→eq (run_useful seen (q ∷ []) none).outcome c)
dead_alts-IsDead seen k (suc j) (q ∷ alts) p e h = rw (← seen_next seen q (take j alts)) (
    dead_alts-IsDead (seen ++ (q ∷ []) ∷ []) (suc k) j alts p e
      (elim (Bool-cases (is_covered (run_useful seen (q ∷ []) none).outcome)) [
        | inl c ↦ tail (rw c at h)
        | inr c ↦ later (rw c at h)
      ]))
  where
    rest : List ℕ
    rest = dead_alts (seen ++ (q ∷ []) ∷ []) (suc k) alts

    later : Any (λ x. x ≡ k + suc j) rest → Any (λ x. x ≡ suc k + j) rest
    later g = Any-map (λ x. x ≡ k + suc j) rest (λ x e'. omega (arith, e')) g

    tail : Any (λ x. x ≡ k + suc j) (k ∷ rest) → Any (λ x. x ≡ suc k + j) rest
    tail (inl g) = absurd (omega (arith, g))
    tail (inr g) = later g

-- If as many alternatives are dead as there are, each one is.
all_dead :
    (seen : Matrix) (k j : ℕ) (alts : List DPat) (p : DPat)
    → get_elem? alts j ≡ some p
    → length (dead_alts seen k alts) ≡ length alts
    → Any (λ x. x ≡ k + j) (dead_alts seen k alts)
unfolding dead_alts
all_dead seen k j [] p e h = cc
all_dead seen k j (q ∷ alts) p e h =
    elim (Bool-cases (is_covered (run_useful seen (q ∷ []) none).outcome)) [
      | inl c ↦ rw c (
          member j e (λ j' e'.
            all_dead (seen ++ (q ∷ []) ∷ []) (suc k) j' alts p e' (omega (arith, rw c at h))))
      | inr c ↦ absurd (too_few (rw c at h))
    ]
  where
    rest : List ℕ
    rest = dead_alts (seen ++ (q ∷ []) ∷ []) (suc k) alts

    too_few : length rest ≡ suc (length alts) → ⊥
    too_few g = omega (arith, g, dead_alts-le (seen ++ (q ∷ []) ∷ []) (suc k) alts)

    member :
        (j : ℕ)
        → get_elem? (q ∷ alts) j ≡ some p
        → ((j' : ℕ) → get_elem? alts j' ≡ some p → Any (λ x. x ≡ suc k + j') rest)
        → Any (λ x. x ≡ k + j) (k ∷ rest)
    member zero e' later = inl (omega arith)
    member (suc j') e' later =
        inr (Any-map (λ x. x ≡ suc k + j') rest (λ x e''. omega (arith, e'')) (later j' e'))

Any-alt :
    (i i' j : ℕ) (js : List ℕ) → Any (Kills i j) (map (alt i') js) → (i' ≡ i) × Any (λ x. x ≡ j) js
Any-alt i i' j [] h = absurd h
Any-alt i i' j (x ∷ js) (inl h) = (h.0, inl h.1)
Any-alt i i' j (x ∷ js) (inr h) = let (a, b) = Any-alt i i' j js h in (a, inr b)

-- What arm `i'` adds is about arm `i'`, and about dead alternatives.
dead_in-IsDead :
    (rows : Matrix) (i i' j : ℕ) (alts : List DPat)
    → Any (Kills i j) (dead_in rows i' alts)
    → (i' ≡ i) × ((p : DPat) → get_elem? alts j ≡ some p → IsDead (rows ++ rows_of (take j alts)) p)
unfolding dead_in
dead_in-IsDead rows i i' j alts h =
    elim (Bool-cases (length (dead_alts rows 0 alts) == length alts)) [
      | inl c ↦ whole ((==_iff (length (dead_alts rows 0 alts)) (length alts)).0 c) (rw c at h)
      | inr c ↦ part (Any-alt i i' j (dead_alts rows 0 alts) (rw c at h))
    ]
  where
    whole :
        length (dead_alts rows 0 alts) ≡ length alts
        → Any (Kills i j) (arm i' ∷ [])
        → (i' ≡ i)
          × ((p : DPat) → get_elem? alts j ≡ some p → IsDead (rows ++ rows_of (take j alts)) p)
    whole l (inl g) = (g, λ p e. dead_alts-IsDead rows 0 j alts p e (all_dead rows 0 j alts p e l))
    whole l (inr g) = absurd g

    part :
        (i' ≡ i) × Any (λ x. x ≡ j) (dead_alts rows 0 alts)
        → (i' ≡ i)
          × ((p : DPat) → get_elem? alts j ≡ some p → IsDead (rows ++ rows_of (take j alts)) p)
    part (a, b) = (
      a,
      λ p e.
          dead_alts-IsDead rows 0 j alts p e
            (Any-map (λ x. x ≡ j) (dead_alts rows 0 alts) (λ x g. omega (arith, g)) b),
    )

-- The rows after the arms.
pub check_arms-rows :
    (rows : Matrix) (i : ℕ) (arms : List Arm)
    → (check_arms rows i arms).1 ≡ rows ++ rows_of (unguarded arms)
unfolding check_arms
check_arms-rows rows i [] = sym (append-nil rows)
check_arms-rows rows i ((alts, true) ∷ arms) = check_arms-rows rows (suc i) arms
check_arms-rows rows i ((alts, false) ∷ arms) =
    check_arms-rows (rows ++ rows_of alts) (suc i) arms
    ∙ append_assoc rows (rows_of alts) (rows_of (unguarded arms))
    ∙ ap (λ r. rows ++ r) (sym (rows_of-append alts (unguarded arms)))

check_arms-ge :
    (rows : Matrix) (i i' j : ℕ) (arms : List Arm)
    → Any (Kills i j) (check_arms rows i' arms).0
    → i' ≤ i
unfolding check_arms
check_arms-ge rows i i' j [] h = absurd h
check_arms-ge rows i i' j ((alts, g) ∷ arms) h =
    elim (Any-append (Kills i j) (dead_in rows i' alts)
      (check_arms (if g then rows else rows ++ rows_of alts) (suc i') arms).0 h) [
        | inl a ↦ omega (arith, (dead_in-IsDead rows i i' j alts a).0)
        | inr b ↦
            omega
              (arith, check_arms-ge (if g then rows else rows ++ rows_of alts) i (suc i') j arms b)
      ]

rows_after :
    (rows : Matrix) (alts : List DPat) (g : Bool) (arms : List Arm) (ps : List DPat)
    → (if g then rows else rows ++ rows_of alts) ++ rows_of (unguarded arms ++ ps)
      ≡ rows ++ rows_of (unguarded ((alts, g) ∷ arms) ++ ps)
rows_after rows alts true arms ps = refl
rows_after rows alts false arms ps =
    append_assoc rows (rows_of alts) (rows_of (unguarded arms ++ ps))
    ∙ ap (λ r. rows ++ r)
        (sym (rows_of-append alts (unguarded arms ++ ps))
          ∙ ap rows_of (sym (append_assoc alts (unguarded arms) ps)))

-- A reported alternative is dead after the unguarded ones of the arms before it and the
-- alternatives before it in its own arm.
pub check_arms-IsDead :
    (rows : Matrix) (k i n j : ℕ) (arms : List Arm) (a : Arm) (p : DPat)
    → n ≡ k + i
    → Any (Kills n j) (check_arms rows k arms).0
    → get_elem? arms i ≡ some a
    → get_elem? a.0 j ≡ some p
    → IsDead (rows ++ rows_of (unguarded (take i arms) ++ take j a.0)) p
unfolding check_arms
check_arms-IsDead rows k i n j [] a p q h e e' = cc
check_arms-IsDead rows k zero n j ((alts, g) ∷ arms) a p q h e e' =
    elim (Any-append (Kills n j) (dead_in rows k alts)
      (check_arms (if g then rows else rows ++ rows_of alts) (suc k) arms).0 h) [
        | inl d ↦
            rw (← some_inj.0 e) ((dead_in-IsDead rows n k j alts d).1 p (rw (← some_inj.0 e) at e'))
        | inr d ↦ absurd (
            omega
              (arith, check_arms-ge (if g then rows else rows ++ rows_of alts) n (suc k) j arms d))
      ]
check_arms-IsDead rows k (suc i) n j ((alts, g) ∷ arms) a p q h e e' =
    elim (Any-append (Kills n j) (dead_in rows k alts)
      (check_arms (if g then rows else rows ++ rows_of alts) (suc k) arms).0 h) [
        | inl d ↦ absurd (omega (arith, (dead_in-IsDead rows n k j alts d).0))
        | inr d ↦ rw (rows_after rows alts g (take i arms) (take j a.0)) at (
            check_arms-IsDead (if g then rows else rows ++ rows_of alts) (suc k) i n j arms a p
              (omega (arith, q)) d e e')
      ]
