-- ===== src/Usefulness/Sound/Check.antt =====
-- `check`: what a match misses, and what it reports as unreachable.
use thrax.Prelude.{
  ℕ, zero, suc, ◌+◌, ◌≡◌, refl, true, false, inl, inr, none, some, List, [], ◌∷◌, ◌++◌, All, Any,
  All-append, get_elem?, take, arith,
}
use mathlib.Core.Option.{some_inj}
use thrax.Usefulness.Pattern.{DPat, wild}
use thrax.Usefulness.Search.{Outcome, covered, panicked, out_of_fuel, witness, useful}
use thrax.Usefulness.Fuel.{weight_all, weight_rows}
use thrax.Usefulness.Check.{Arm, run_useful, rows_of, first_of_witness, check}
use thrax.Usefulness.Datum.{Val}
use thrax.Usefulness.Value.{Covers, MayMatch, Typed}
use thrax.Usefulness.Sound.Matrix.{TypedMatrix, CoveredBy}
use thrax.Usefulness.Sound.Useful.{useful_sound}
use thrax.Usefulness.Sound.Dead.{unguarded, Kills, check_arms-rows, check_arms-IsDead}
use thrax.Usefulness.Total.WellFormed.{Unions, WellFormed, MatrixOk}
use thrax.Usefulness.Total.Outcomes.{Returns}
use thrax.Usefulness.Total.Useful.{useful-Returns}

-- A match of which `P` holds of every alternative.
abbrev pub Each : (DPat → Type 0) → List Arm → Type 0
Each P arms = All (λ a. All P a.0) arms

unguarded-All : (P : DPat → Type 0) (arms : List Arm) → Each P arms → All P (unguarded arms)
unguarded-All P [] h = tt
unguarded-All P ((alts, true) ∷ arms) h = unguarded-All P arms h.1
unguarded-All P ((alts, false) ∷ arms) h =
    All-append P alts (unguarded arms) h.0 (unguarded-All P arms h.1)

module _ {A : Type 0} (P : A → Type 0) where
  All-take : (n : ℕ) (xs : List A) → All P xs → All P (take n xs)
  All-take zero xs h = tt
  All-take (suc n) [] h = tt
  All-take (suc n) (x ∷ xs) h = (h.0, All-take n xs h.1)

  All-get_elem? : (xs : List A) (i : ℕ) (x : A) → get_elem? xs i ≡ some x → All P xs → P x
  All-get_elem? [] i x e h = cc
  All-get_elem? (y ∷ xs) zero x e h = rw (some_inj.0 e) at h.0
  All-get_elem? (y ∷ xs) (suc i) x e h = All-get_elem? xs i x e h.1

rows_of-Typed :
    (v : Val) (ps : List DPat) → All (λ p. Typed p v) ps → TypedMatrix (rows_of ps) (v ∷ [])
rows_of-Typed v [] h = tt
rows_of-Typed v (p ∷ ps) h = ((h.0, tt), rows_of-Typed v ps h.1)

rows_of-MatrixOk :
    (env : Unions) (ps : List DPat) → All (WellFormed env) ps → MatrixOk env 1 (rows_of ps)
rows_of-MatrixOk env [] h = tt
rows_of-MatrixOk env (p ∷ ps) h = (((h.0, tt), refl), rows_of-MatrixOk env ps h.1)

rows_of-Covers :
    (v : Val) (ps : List DPat) → CoveredBy (rows_of ps) (v ∷ []) → Any (λ p. Covers p v) ps
rows_of-Covers v [] h = h
rows_of-Covers v (p ∷ ps) (inl h) = inl h.0
rows_of-Covers v (p ∷ ps) (inr h) = inr (rows_of-Covers v ps h)

-- An outcome that returns and has no first pattern is `covered`.
none-covered : (o : Outcome) → Returns 1 o → first_of_witness o ≡ none → o ≡ covered
none-covered covered r e = refl
none-covered panicked r e = absurd r
none-covered out_of_fuel r e = absurd r
none-covered (witness []) r e = absurd (omega (arith, r))
none-covered (witness (p ∷ w)) r e = cc

-- If the patterns of a match are as the type checker makes them, and `check` reports no missing
-- value, then every value at which they are typed is covered by an alternative of an unguarded arm.
pub check-exhaustive :
    (env : Unions) (arms : List Arm) (v : Val)
    → Each (WellFormed env) arms
    → Each (λ p. Typed p v) arms
    → (check arms).missing ≡ none
    → Any (λ p. Covers p v) (unguarded arms)
unfolding check run_useful
check-exhaustive env arms v ok t h =
    let rows = rows_of (unguarded arms) in
    let fuel = weight_rows rows + weight_all (wild ∷ []) in
    let last = (useful fuel rows (wild ∷ []) none).outcome in
    rows_of-Covers v (unguarded arms) (
      useful_sound fuel rows (wild ∷ []) none (v ∷ [])
        (rows_of-Typed v (unguarded arms) (unguarded-All (λ p. Typed p v) arms t)) (tt, tt) (tt, tt)
        (none-covered last
          (useful-Returns env fuel rows (wild ∷ []) none
            (rows_of-MatrixOk env (unguarded arms) (unguarded-All (WellFormed env) arms ok))
            (tt, tt) (omega arith))
          (rw (check_arms-rows [] 0 arms) at h)))

-- If `check` reports alternative `j` of arm `i` as dead, by itself or with its arm, then every value
-- that the alternative may match, and at which the patterns of the match are typed, is covered by an
-- alternative of an unguarded arm before it or an alternative before it in its own arm.
pub check-dead :
    (arms : List Arm) (v : Val) (i j : ℕ) (a : Arm) (p : DPat)
    → Each (λ q. Typed q v) arms
    → Any (Kills i j) (check arms).unreachable
    → get_elem? arms i ≡ some a
    → get_elem? a.0 j ≡ some p
    → MayMatch p v
    → Any (λ q. Covers q v) (unguarded (take i arms) ++ take j a.0)
unfolding check run_useful
check-dead arms v i j a p t h e e' may =
    let before : List DPat = unguarded (take i arms) ++ take j a.0 in
    let alts = All-get_elem? (λ b. All (λ q. Typed q v) b.0) arms i a e t in
    rows_of-Covers v before (
      useful_sound (weight_rows (rows_of before) + weight_all (p ∷ [])) (rows_of before) (p ∷ [])
        none (v ∷ [])
        (rows_of-Typed v before (
          All-append (λ q. Typed q v) (unguarded (take i arms)) (take j a.0)
            (unguarded-All (λ q. Typed q v) (take i arms)
              (All-take (λ b. All (λ q. Typed q v) b.0) i arms t))
            (All-take (λ q. Typed q v) j a.0 alts)))
        (All-get_elem? (λ q. Typed q v) a.0 j p e' alts, tt) (may, tt)
        (check_arms-IsDead [] 0 i i j arms a p (omega arith) h e e'))
