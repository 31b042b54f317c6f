-- ===== src/Usefulness/Total/Outcomes.antt =====
-- Outcomes that are answers, and the constructors that a wildcard is tried with.
use thrax.Prelude.{
  ℕ, zero, suc, ◌+◌, ◌≤◌, ◌≡◌, subst, true, inl, inr, Option, some, List, [], ◌∷◌, map, All, length,
  drop, arith, Bool-cases,
}
use mathlib.Core.Option.{some_inj}
use mathlib.Core.List.{cons≢nil}
use thrax.Prelude.Names.{StrId}
use thrax.Usefulness.Pattern.{
  Siblings, Ctor, variant, bool, seq_empty, seq_more, lit, int, DPat, ctor, arity, range_from,
  signature,
}
use thrax.Usefulness.Column.{Row, rebuild}
use thrax.Usefulness.Search.{
  Outcome, covered, panicked, out_of_fuel, witness, Run, map_outcome, next_or, ctors, any_same,
  missing_from, signature_of,
}
use thrax.Usefulness.Total.WellFormed.{Unions, NormalCtor}
use thrax.Usefulness.Total.Normalized.{NormalPair}

-- The vector is covered, or there is a witness of length `n`.
abbrev pub Returns : ℕ → Outcome → Type 0
Returns n covered = Unit
Returns n (witness w) = length w ≡ n
Returns n panicked = ⊥
Returns n out_of_fuel = ⊥

length-drop : (k n : ℕ) (w : List DPat) → length w ≡ k + n → length (drop k w) ≡ n
length-drop zero n w h = omega (arith, h)
length-drop (suc k) n [] h = absurd (omega (arith, h))
length-drop (suc k) n (x ∷ w) h = length-drop k n w (omega (arith, h))

pub length-rebuild :
    (c : Ctor) (n : ℕ) (w : List DPat) → length w ≡ arity c + n → length (rebuild c w) ≡ suc n
unfolding rebuild
length-rebuild c n w h = omega (arith, length-drop (arity c) n w h)

pub map_outcome-Returns :
    (k n : ℕ) (g : List DPat → List DPat) (o : Outcome)
    → Returns k o
    → ((w : List DPat) → length w ≡ k → length (g w) ≡ n)
    → Returns n (map_outcome g o)
map_outcome-Returns k n g covered h l = tt
map_outcome-Returns k n g (witness w) h l = l w h
map_outcome-Returns k n g panicked h l = absurd h
map_outcome-Returns k n g out_of_fuel h l = absurd h

pub next_or-Returns :
    (k n : ℕ) (o : Outcome) (m : Option StrId) (next : Option StrId → Run)
    (g : List DPat → List DPat)
    → Returns k o
    → ((w : List DPat) → length w ≡ k → length (g w) ≡ n)
    → ((m' : Option StrId) → Returns n (next m').outcome)
    → Returns n (next_or o m next g).outcome
next_or-Returns k n covered m next g h l r = r m
next_or-Returns k n (witness w) m next g h l r = l w h
next_or-Returns k n panicked m next g h l r = absurd h
next_or-Returns k n out_of_fuel m next g h l r = absurd h

pub missing_from-none :
    (hs cs : List Ctor) → missing_from hs cs ≡ [] → All (λ c. any_same hs c ≡ true) cs
unfolding missing_from
missing_from-none hs [] h = tt
missing_from-none hs (c ∷ cs) h = elim (Bool-cases (any_same hs c)) [
  | inl e ↦ (e, missing_from-none hs cs (rw e at h))
  | inr e ↦ absurd (cons≢nil (rw e at h))
]

variants-Normal :
    (env : Unions) (ns : List StrId) (u : StrId) (ss : Siblings) (start n : ℕ)
    → ss ≡ env u
    → start + n ≤ length ss
    → All (NormalCtor env ns) (map (λ j. variant u j ss) (range_from start n))
variants-Normal env ns u ss start zero e h = tt
variants-Normal env ns u ss start (suc n) e h =
    ((e, omega (arith, h)), variants-Normal env ns u ss (suc start) n e (omega (arith, h)))

signature-Normal :
    (env : Unions) (ns : List StrId) (c : Ctor) (cs : List Ctor)
    → NormalCtor env ns c
    → signature c ≡ some cs
    → All (NormalCtor env ns) cs
unfolding signature
signature-Normal env ns (variant u i ss) cs h e =
    rw (some_inj.0 e) at (variants-Normal env ns u ss 0 (length ss) h.0 (omega arith))
signature-Normal env ns (bool b) cs h e =
    subst (All (NormalCtor env ns)) (some_inj.0 e) (tt, (tt, tt))
signature-Normal env ns seq_empty cs h e =
    subst (All (NormalCtor env ns)) (some_inj.0 e) (tt, (tt, tt))
signature-Normal env ns seq_more cs h e =
    subst (All (NormalCtor env ns)) (some_inj.0 e) (tt, (tt, tt))
signature-Normal env ns (Ctor.product k fs) cs h e =
    subst (All (NormalCtor env ns)) (some_inj.0 e) (h, tt)
signature-Normal env ns (lit a) cs h e = cc
signature-Normal env ns (int lo hi dom) cs h e = cc

pub signature_of-Normal :
    (env : Unions) (ns : List StrId) (n : ℕ) (rows : List Row) (cs : List Ctor)
    → All (NormalPair env ns n) rows
    → signature_of (ctors rows) ≡ some cs
    → All (NormalCtor env ns) cs
unfolding ctors signature_of
signature_of-Normal env ns n [] cs t e = cc
signature_of-Normal env ns n ((ctor c args, r) ∷ rows) cs t e =
    signature-Normal env ns c cs t.0.0.0 e
signature_of-Normal env ns n ((_, r) ∷ rows) cs t e = signature_of-Normal env ns n rows cs t.1 e
