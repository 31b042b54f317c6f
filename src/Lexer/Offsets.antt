-- ===== src/Lexer/Offsets.antt =====
-- `decode_string_offsets` against `decode_string`.
use thrax.Prelude.{
  ℕ, zero, suc, ◌+◌, ◌-◌, ◌≤◌, ◌<◌, ◌≡◌, refl, sym, ap, ◌∙◌, subst, ◌==◌, none, some, List, [], ◌∷◌,
  ◌++◌, get_or, drop, replicate, length, length-append, length-replicate, arith, Bool-cases, inl,
  inr,
}
use thrax.Lexer.Cursor.{Bytes}
use thrax.Lexer.Stream.{Result, done, failed, panicked, out_of_fuel}
use thrax.Lexer.Decode.{
  Escape, escape, bad, bad_escape, decode_escape, pushed_bytes, escaped_bytes, decode_from, Offsets,
  pushed_at, escaped_at, offsets_from,
}
use thrax.Lexer.Escapes.{Alike, decode_escape-Alike}

-- The numbers rise from `lo`, and the last is `hi`.
abbrev pub Rises : ℕ → List ℕ → ℕ → Type 0
Rises lo [] hi = lo ≡ hi
Rises lo (a ∷ ks) hi = (lo ≤ a) × Rises a ks hi

lowered :
    (lo' lo hi : ℕ) (ks : List ℕ) → lo' ≤ lo → 0 < length ks → Rises lo ks hi → Rises lo' ks hi
lowered lo' lo hi [] l n h = absurd (omega arith)
lowered lo' lo hi (a ∷ ks) l n (k, h) = (omega (arith, l, k), h)

Rises-replicate : (at hi n : ℕ) (ks : List ℕ) → Rises at ks hi → Rises at (replicate n at ++ ks) hi
Rises-replicate at hi zero ks h = h
Rises-replicate at hi (suc n) ks h = (omega arith, Rises-replicate at hi n ks h)

pub get_or-drop : (n : ℕ) (bs : Bytes) (i : ℕ) → get_or (drop n bs) i 0 ≡ get_or bs (n + i) 0
get_or-drop zero bs i = ap (λ k. get_or bs k 0) (omega arith)
get_or-drop (suc n) [] i = refl
get_or-drop (suc n) (b ∷ bs) i = get_or-drop n bs i ∙ ap (λ k. get_or (b ∷ bs) k 0) next
  where
    next : suc (n + i) ≡ suc n + i
    next = omega arith

pub length-drop : (n : ℕ) (bs : Bytes) → length (drop n bs) ≡ length bs - n
length-drop zero bs = omega arith
length-drop (suc n) [] = omega arith
length-drop (suc n) (b ∷ bs) = omega (arith, length-drop n bs)

-- What the two loops return, from the place `at` in the literal and `abs` in the source: the same bytes,
-- with an offset for each and one more, or the error of an escape.
abbrev pub Both : ℕ → ℕ → ℕ → Bytes → Result Bytes → Offsets → Type 0
Both abs line at bs (done out) (some (some (out', ats))) =
    (out ≡ out') × (length ats ≡ suc (length out)) × Rises at ats (at + length bs)
Both abs line at bs (failed e) (some none) =
    (k : ℕ) × (k < length bs) × (get_or bs k 0 ≡ b'\\') × (e ≡ bad_escape (abs + k) line)
Both abs line at bs _ _ = ⊥

module _ (abs line at : ℕ) (bs out : Bytes) (used : ℕ) (fits : used ≤ length bs) where
  pushed_same :
      (r : Result Bytes) (o : Offsets)
      → Both (abs + used) line (at + used) (drop used bs) r o
      → Both abs line at bs (pushed_bytes out r) (pushed_at out at o)
  pushed_same (done rs) (some (some (rs', ats))) (e, l, h) =
      let hi : at + used + length (drop used bs) ≡ at + length bs =
        omega (arith, fits, length-drop used bs) in
      (
        ap (λ r. out ++ r) e,
        omega (
          arith,
          l,
          length-append (replicate (length out) at) ats,
          length-replicate (length out) at,
          length-append out rs,
        ),
        Rises-replicate at (at + length bs) (length out) ats (
            lowered at (at + used) (at + length bs) ats (omega arith) (omega (arith, l))
              (subst (Rises (at + used) ats) hi h)),
      )
  pushed_same (failed e) (some none) (k, l, g, q) =
      let place : abs + used + k ≡ abs + (used + k) = omega arith in
      (
        used + k,
        omega (arith, fits, l, length-drop used bs),
        sym (get_or-drop used bs k) ∙ g,
        q ∙ ap (λ n. bad_escape n line) place,
      )
  pushed_same (done rs) (some none) h = absurd h
  pushed_same (done rs) none h = absurd h
  pushed_same (failed e) (some (some p)) h = absurd h
  pushed_same (failed e) none h = absurd h
  pushed_same panicked o h = absurd h
  pushed_same out_of_fuel o h = absurd h

module _ (abs line at c : ℕ) (cs : Bytes) (slash : c ≡ b'\\') where
  escaped-Alike :
      (x y : Escape) (next : ℕ → Result Bytes) (next_at : ℕ → Offsets)
      → Alike abs line (length cs) x y
      → ((used : ℕ)
          → 2 ≤ used
          → used ≤ suc (length cs)
          → Both (abs + used) line (at + used) (drop used (c ∷ cs)) (next used) (next_at used))
      → Both abs line at (c ∷ cs) (escaped_bytes x next) (escaped_at at y next_at)
  escaped-Alike (escape out used) (escape out' used') next next_at (e, u, two, fits) f = rw (← e) (
      rw (← u) (
        pushed_same abs line at (c ∷ cs) out used fits (next used) (next_at used)
          (f used two fits)))
  escaped-Alike (bad e) (bad e') next next_at q f =
      (0, omega arith, slash, q ∙ ap (λ n. bad_escape n line) (omega arith))
  escaped-Alike (escape out used) (bad e) next next_at h f = absurd h
  escaped-Alike (bad e) (escape out used) next next_at h f = absurd h

pub decode_from-offsets_from :
    (f abs line at : ℕ) (bs : Bytes)
    → length bs < f
    → Both abs line at bs (decode_from f abs line bs) (offsets_from f at bs)
unfolding decode_from offsets_from
decode_from-offsets_from zero abs line at bs l = absurd (omega arith)
decode_from-offsets_from (suc f) abs line at [] l = (refl, refl, (omega arith, omega arith))
decode_from-offsets_from (suc f) abs line at (c ∷ cs) l = elim (Bool-cases (c == b'\\')) [
  | inl e ↦ rw e (
      escaped-Alike abs line at c cs (ground (arith, e)) (decode_escape abs line cs)
        (decode_escape at 0 cs) _ _ (decode_escape-Alike abs line at 0 cs)
        (λ used two fits.
          decode_from-offsets_from f (abs + used) line (at + used) (drop used (c ∷ cs))
            (omega (arith, l, two, fits, length-drop used (c ∷ cs)))))
  | inr e ↦ rw e (
      pushed_same abs line at (c ∷ cs) (c ∷ []) 1 (omega arith) _ _
        (decode_from-offsets_from f (abs + 1) line (at + 1) cs (omega (arith, l))))
]
