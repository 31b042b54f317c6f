-- ===== src/Usefulness/Check.antt =====
-- `check`: the value a match misses, and the arms and alternatives that no value reaches.
use thrax.Prelude.{
  ℕ, suc, ◌+◌, Bool, true, false, ◌==◌, Option, none, some, List, [], ◌∷◌, ◌++◌, map, length,
  if◌then◌else◌,
}
use thrax.Prelude.Names.{StrId}
use thrax.Usefulness.Pattern.{DPat, wild}
use thrax.Usefulness.Search.{Outcome, covered, witness, Run, Matrix, useful}
use thrax.Usefulness.Fuel.{weight, weight_all, weight_rows}

-- An arm: its alternatives, and whether it is guarded.
abbrev pub Arm : Type 0
Arm = List DPat × Bool

pub data Dead : Type 0 where
  arm : ℕ → Dead
  alt : ℕ → ℕ → Dead

pub record Report : Type 0 where
  pub missing : Option DPat
  pub mixed : Option StrId
  pub unreachable : List Dead

-- `useful` with the fuel that it needs.
unfoldable pub run_useful : Matrix → List DPat → Option StrId → Run
unfolding useful weight
run_useful rows v mixed = useful (weight_rows rows + weight_all v) rows v mixed

abbrev pub is_covered : Outcome → Bool
is_covered covered = true
is_covered o = false

-- The alternatives of an arm that are dead, and the rows after it: `j` is the next one's index.
unfoldable pub dead_alts : Matrix → ℕ → List DPat → List ℕ
unfolding run_useful
dead_alts seen j [] = []
dead_alts seen j (p ∷ alts) =
    let rest = dead_alts (seen ++ (p ∷ []) ∷ []) (suc j) alts in
    if is_covered (run_useful seen (p ∷ []) none).outcome then j ∷ rest else rest

abbrev pub rows_of : List DPat → Matrix
rows_of [] = []
rows_of (p ∷ alts) = (p ∷ []) ∷ rows_of alts

-- What arm `i` adds to the report.
unfoldable pub dead_in : Matrix → ℕ → List DPat → List Dead
unfolding dead_alts
dead_in rows i alts =
    let dead = dead_alts rows 0 alts in
    if length dead == length alts then arm i ∷ [] else map (alt i) dead

-- The loop over the arms: the dead parts found, and the rows at the end.
unfoldable pub check_arms : Matrix → ℕ → List Arm → List Dead × Matrix
unfolding dead_in
check_arms rows i [] = ([], rows)
check_arms rows i ((alts, guarded) ∷ arms) =
    let rows' = if guarded then rows else rows ++ rows_of alts in
    let rest = check_arms rows' (suc i) arms in (dead_in rows i alts ++ rest.0, rest.1)

-- `useful(..).map(|w| w.remove(0))`
abbrev pub first_of_witness : Outcome → Option DPat
first_of_witness (witness (p ∷ w)) = some p
first_of_witness o = none

unfoldable pub check : List Arm → Report
unfolding check_arms run_useful
check arms =
    let walked = check_arms [] 0 arms in
    let last = run_useful walked.1 (wild ∷ []) none in
    record { missing = first_of_witness last.outcome; mixed = last.mixed; unreachable = walked.0 }
