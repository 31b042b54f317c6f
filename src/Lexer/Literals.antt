-- ===== src/Lexer/Literals.antt =====
-- What the decoding of a whole string literal returns.
use thrax.Prelude.{
  ℕ, zero, suc, ◌+◌, ◌-◌, ◌≤◌, ◌<◌, ◌≡◌, refl, sym, ap, ◌∙◌, subst, false, ◌==◌, ltb, All, none,
  some, [], ◌∷◌, ◌++◌, get_or, drop, take, length, length-append, arith, Bool-cases, inl, inr,
}
use thrax.Lexer.Cursor.{Bytes}
use thrax.Lexer.Consumes.{length-take}
use thrax.Lexer.Stream.{Result, done, failed, panicked, out_of_fuel}
use thrax.Lexer.Decode.{
  bad_escape, decode_from, inner, decode_string, Offsets, decode_string_offsets,
}
use thrax.Lexer.Offsets.{Rises, Both, length-drop, get_or-drop, decode_from-offsets_from}

-- Both functions give the same bytes, with an offset for each and one more: the offsets rise, and the last
-- is the closing quote's. Or both fail, with the error of an escape whose backslash is inside; or
-- the literal has no two quotes, where the one panics and the other returns none.
abbrev pub IsDecoded : Bytes → ℕ → ℕ → Result Bytes → Offsets → Type 0
IsDecoded raw start line (done out) (some (some (out', ats))) =
    (out ≡ out') × (length ats ≡ suc (length out)) × Rises 1 ats (length raw - 1)
IsDecoded raw start line (failed e) (some none) =
    (k : ℕ) × (0 < k)
    × (k + 1 < length raw)
    × (get_or raw k 0 ≡ b'\\')
    × (e ≡ bad_escape (start + k) line)
IsDecoded raw start line panicked (some none) = length raw < 2
IsDecoded raw start line _ _ = ⊥

get_or-take : (n : ℕ) (bs : Bytes) (i : ℕ) → i < n → get_or (take n bs) i 0 ≡ get_or bs i 0
get_or-take zero bs i l = absurd (omega arith)
get_or-take (suc n) [] i l = refl
get_or-take (suc n) (b ∷ bs) zero l = refl
get_or-take (suc n) (b ∷ bs) (suc i) l = get_or-take n bs i (omega arith)

length-inner : (raw : Bytes) → 2 ≤ length raw → length (inner raw) ≡ length raw - 2
length-inner raw l = length-take (length raw - 2) (drop 1 raw) (omega (arith, l, length-drop 1 raw))

get_or-inner :
    (raw : Bytes) (k : ℕ) → k < length raw - 2 → get_or (inner raw) k 0 ≡ get_or raw (1 + k) 0
get_or-inner raw k l = get_or-take (length raw - 2) (drop 1 raw) k l ∙ get_or-drop 1 raw k

module _ (raw : Bytes) (start line : ℕ) (l : 2 ≤ length raw) where
  whole-IsDecoded :
      (r : Result Bytes) (o : Offsets)
      → Both (start + 1) line 1 (inner raw) r o
      → IsDecoded raw start line r o
  whole-IsDecoded (done out) (some (some (out', ats))) (e, n, h) =
      (e, n, subst (Rises 1 ats) (omega (arith, l, length-inner raw l)) h)
  whole-IsDecoded (failed e) (some none) (k, n, g, q) =
      let inside : k < length raw - 2 = omega (arith, l, n, length-inner raw l) in
      let place : start + 1 + k ≡ start + (1 + k) = omega arith in
      (
        1 + k,
        omega arith,
        omega (arith, inside),
        sym (get_or-inner raw k inside) ∙ g,
        q ∙ ap (λ n. bad_escape n line) place,
      )
  whole-IsDecoded (done out) (some none) h = absurd h
  whole-IsDecoded (done out) none h = absurd h
  whole-IsDecoded (failed e) (some (some p)) h = absurd h
  whole-IsDecoded (failed e) none h = absurd h
  whole-IsDecoded panicked o h = absurd h
  whole-IsDecoded out_of_fuel o h = absurd h

-- `decode_string` and `decode_string_offsets` agree on every literal: see `IsDecoded`.
pub decode_string-decode_string_offsets :
    (raw : Bytes) (start line : ℕ)
    → IsDecoded raw start line (decode_string raw start line) (decode_string_offsets raw)
unfolding decode_string decode_string_offsets
decode_string-decode_string_offsets raw start line = elim (Bool-cases (ltb (length raw) 2)) [
  | inl e ↦ rw e (ground (arith, e))
  | inr e ↦ rw e (
      whole-IsDecoded raw start line (ground (arith, e)) _ _ (
        decode_from-offsets_from (suc (length (inner raw))) (start + 1) line 1 (inner raw)
          (omega arith)))
]

-- ## Text without escapes

decode_from_plain :
    (f at line : ℕ) (bs : Bytes)
    → length bs < f
    → All (λ b. (b == b'\\') ≡ false) bs
    → decode_from f at line bs ≡ done bs
unfolding decode_from
decode_from_plain zero at line bs l p = absurd (omega arith)
decode_from_plain (suc f) at line [] l p = refl
decode_from_plain (suc f) at line (c ∷ cs) l (e, p) =
    rw e (rw (decode_from_plain f (at + 1) line cs (omega (arith, l)) p) refl)

take-append : (bs cs : Bytes) → take (length bs) (bs ++ cs) ≡ bs
take-append [] cs = refl
take-append (b ∷ bs) cs = ap (λ r. b ∷ r) (take-append bs cs)

inner-append : (a z : ℕ) (bs : Bytes) → inner (a ∷ (bs ++ z ∷ [])) ≡ bs
inner-append a z bs = ap (λ n. take n (bs ++ z ∷ [])) body ∙ take-append bs (z ∷ [])
  where
    body : suc (length (bs ++ z ∷ [])) - 2 ≡ length bs
    body = omega (arith, length-append bs (z ∷ []))

-- a literal that has no backslash between its quotes decodes to what stands between them.
pub decode_string_plain :
    (bs : Bytes) (start line : ℕ)
    → All (λ b. (b == b'\\') ≡ false) bs
    → decode_string (b'"' ∷ (bs ++ b'"' ∷ [])) start line ≡ done bs
unfolding decode_string
decode_string_plain bs start line p =
    let two : ltb (suc (length (bs ++ b'"' ∷ []))) 2 ≡ false =
      ground (arith, length-append bs (b'"' ∷ [])) in
    rw two (
      rw (inner-append b'"' b'"' bs)
        (decode_from_plain (suc (length bs)) (start + 1) line bs (omega arith) p))
