-- ===== src/Usefulness/Sound/Useful.antt =====
-- `useful` answers `covered` only where some row covers every value that the vector may match.
use thrax.Prelude.{
  ℕ, zero, suc, ◌≡◌, refl, inl, inr, Option, none, some, List, [], ◌∷◌, ◌++◌, All, Any, All-append,
  Option-cases,
}
use thrax.Prelude.Names.{StrId}
use thrax.Usefulness.Datum.{Val}
use thrax.Usefulness.Pattern.{Ctor, DPat, wild, opaque, ctor, product, to_list}
use thrax.Usefulness.Segments.{Range}
use thrax.Usefulness.Column.{Row, heads, Column, normalize_column, specialize, rebuild}
use thrax.Usefulness.Search.{
  covered, out_of_fuel, run, Matrix, Deeper, Across, split_rows, int_domain, ctors, missing_from,
  signature_of, by_missing, by_signature, by_head, by_domain, in_column, with_rows, step, useful,
}
use thrax.Usefulness.Value.{opened, SeesRow, MayMatch, Typed, TypedRow}
use thrax.Usefulness.Sound.Ctors.{Built, signature-Built}
use thrax.Usefulness.Sound.Arity.{opened-arity}
use thrax.Usefulness.Sound.Normal.Fixed.{Normal}
use thrax.Usefulness.Sound.Normal.Whole.{NormalAt, CoversAt, normalize_column-Normalizes}
use thrax.Usefulness.Sound.Matrix.{
  TypedMatrix, CoveredBy, split_rows-Typed, split_rows-Covers, TypedAll-append, SeesAll-append,
  specialize-Typed, specialize-Covers,
}
use thrax.Usefulness.Sound.Rest.{int_domain-In}
use thrax.Usefulness.Sound.Loops.{
  IsCovered, map_outcome-covered, DeeperOk, AcrossOk, useful_ints_sound, by_default_sound,
  try_ctors_sound,
}

signature_of-Built :
    (ns : List StrId) (v : Val) (vs : List Val) (rows : List Row) (cs : List Ctor)
    → All (NormalAt ns v vs) rows
    → signature_of (ctors rows) ≡ some cs
    → Any (Built ns v) cs
unfolding ctors signature_of
signature_of-Built ns v vs [] cs t e = cc
signature_of-Built ns v vs ((ctor c args, r) ∷ rows) cs t e =
    rw e at (signature-Built ns c v t.0.0.0 t.0.0.1)
signature_of-Built ns v vs ((_, r) ∷ rows) cs t e = signature_of-Built ns v vs rows cs t.1 e

heads-Normal :
    (ns : List StrId) (v : Val) (vs : List Val) (rows : List Row)
    → All (NormalAt ns v vs) rows
    → All (λ p. Normal ns p v) (heads rows)
heads-Normal ns v vs [] t = tt
heads-Normal ns v vs ((p, r) ∷ rows) t = (t.0.0, heads-Normal ns v vs rows t.1)

module _ (ns : List StrId) (v : Val) (vs : List Val) (rest : List DPat)
    (rest_typed : TypedRow rest vs) (rest_may : SeesRow (Unit {0}) rest vs) (deeper : Deeper)
    (across : Across) (deeper_ok : DeeperOk deeper) (across_ok : AcrossOk across vs) where
  by_missing_sound :
      (rows : List Row) (cs missing : List Ctor) (m : Option StrId)
      → All (NormalAt ns v vs) rows
      → Any (Built ns v) cs
      → IsCovered (by_missing deeper across rows rest cs missing m)
      → Any (CoversAt v vs) rows
  unfolding by_missing
  by_missing_sound rows cs [] m t b h =
      try_ctors_sound ns v vs rest rest_typed rest_may deeper rows cs m deeper_ok t b h
  by_missing_sound rows cs (c ∷ missing) m t b h =
      by_default_sound ns v vs rest rest_typed rest_may across rows (c ∷ missing) m across_ok t h

  by_signature_sound :
      (rows : List Row) (o : Option (List Ctor)) (m : Option StrId)
      → All (NormalAt ns v vs) rows
      → signature_of (ctors rows) ≡ o
      → IsCovered (by_signature deeper across rows rest o m)
      → Any (CoversAt v vs) rows
  unfolding by_signature
  by_signature_sound rows none m t e h =
      by_default_sound ns v vs rest rest_typed rest_may across rows [] m across_ok t h
  by_signature_sound rows (some cs) m t e h =
      by_missing_sound rows cs (missing_from (ctors rows) cs) m t
        (signature_of-Built ns v vs rows cs t e) h

  by_head_sound :
      (rows : List Row) (head : DPat) (m : Option StrId)
      → All (NormalAt ns v vs) rows
      → Normal ns head v
      → MayMatch head v
      → IsCovered (by_head deeper across rows head rest m)
      → Any (CoversAt v vs) rows
  unfolding by_head
  by_head_sound rows (ctor c args) m t n may h = elim (Option-cases (opened c v)) [
    | inl e ↦ absurd (rw e at may)
    | inr (ws, e) ↦
        let l = opened-arity c v ws n.0 e in
        specialize-Covers ns c v ws vs n.1 e l rows t (
          deeper_ok (specialize rows c) (to_list args ++ rest) m (ws ++ vs)
            (specialize-Typed ns c v ws vs n.1 e l rows t)
            (TypedAll-append args rest ws vs (rw e at n.2) rest_typed)
            (SeesAll-append (Unit {0}) args rest ws vs (rw e at may) rest_may)
            (map_outcome-covered (rebuild c)
              (deeper (specialize rows c) (to_list args ++ rest) m).outcome h))
  ]
  by_head_sound rows (product k fs) m t n may h = absurd n
  by_head_sound rows opaque m t n may h = absurd n
  by_head_sound rows wild m t n may h =
      by_signature_sound rows (signature_of (ctors rows)) m t refl h

  by_domain_sound :
      (col : Column) (o : Option Range)
      → All (NormalAt ns v vs) col.rows
      → Normal ns col.head v
      → MayMatch col.head v
      → int_domain (heads col.rows ++ col.head ∷ []) ≡ o
      → IsCovered (by_domain deeper across col rest o)
      → Any (CoversAt v vs) col.rows
  unfolding by_domain
  by_domain_sound col (some dom) t n may e h =
      useful_ints_sound ns v vs rest rest_typed rest_may across col.rows col.head dom col.mixed
        across_ok t n may
        (int_domain-In ns v dom (heads col.rows ++ col.head ∷ [])
          (All-append (λ p. Normal ns p v) (heads col.rows) (col.head ∷ [])
            (heads-Normal ns v vs col.rows t) (n, tt))
          e)
        h
  by_domain_sound col none t n may e h = by_head_sound col.rows col.head col.mixed t n may h

module _ (v : Val) (vs : List Val) (rest : List DPat) (rest_typed : TypedRow rest vs)
    (rest_may : SeesRow (Unit {0}) rest vs) (deeper : Deeper) (across : Across)
    (deeper_ok : DeeperOk deeper) (across_ok : AcrossOk across vs) where
  with_rows_sound :
      (rows : Matrix) (o : Option (List Row)) (head : DPat) (m : Option StrId)
      → split_rows rows ≡ o
      → TypedMatrix rows (v ∷ vs)
      → Typed head v
      → MayMatch head v
      → IsCovered (with_rows deeper across o head rest m)
      → CoveredBy rows (v ∷ vs)
  unfolding with_rows in_column
  with_rows_sound rows none head m e t th may h = cc
  with_rows_sound rows (some rs) head m e t th may h =
      let typed = split_rows-Typed rows rs v vs e t in
      let col = normalize_column rs head m in
      let ok = normalize_column-Normalizes rs head m v vs typed th in
      split_rows-Covers rows rs v vs e (
        ok.covers (
          by_domain_sound ok.names v vs rest rest_typed rest_may deeper across deeper_ok across_ok
            col (int_domain (heads col.rows ++ col.head ∷ [])) ok.normal ok.normal_head
            (ok.may_match may) refl h))

-- If `useful` answers `covered`, then every value at which the rows and the vector are typed and
-- that the vector may match is covered by a row.
pub useful_sound :
    (f : ℕ) (rows : Matrix) (ps : List DPat) (m : Option StrId) (vs : List Val)
    → TypedMatrix rows vs
    → TypedRow ps vs
    → SeesRow (Unit {0}) ps vs
    → (useful f rows ps m).outcome ≡ covered
    → CoveredBy rows vs
unfolding useful step
useful_sound f rows [] m (v ∷ vs) t tp may h = absurd tp
useful_sound f [] [] m [] t tp may h = cc
useful_sound f ([] ∷ rows) [] m [] t tp may h = inl tt
useful_sound f ((p ∷ r) ∷ rows) [] m [] t tp may h = absurd t.0
useful_sound f rows (head ∷ rest) m [] t tp may h = absurd tp
useful_sound zero rows (head ∷ rest) m (v ∷ vs) t tp may h =
    with_rows_sound v vs rest tp.1 may.1 (λ rows' ps m'. run out_of_fuel m')
      (λ rows' m'. useful zero rows' rest m') (λ rows' ps m' vs' a b c d. cc)
      (λ rows' m' t' h'. useful_sound zero rows' rest m' vs t' tp.1 may.1 h') rows (split_rows rows)
      head m refl t tp.0 may.0 h
useful_sound (suc f) rows (head ∷ rest) m (v ∷ vs) t tp may h =
    with_rows_sound v vs rest tp.1 may.1 (λ rows' ps m'. useful f rows' ps m')
      (λ rows' m'. useful (suc f) rows' rest m') (λ rows' ps m' vs'. useful_sound f rows' ps m' vs')
      (λ rows' m' t' h'. useful_sound (suc f) rows' rest m' vs t' tp.1 may.1 h') rows
      (split_rows rows) head m refl t tp.0 may.0 h
