-- ===== src/Document/Bounds.antt =====
-- `position` slices at characters' boundaries only, so it does not panic.
use Prim.Native.Char.{Char, code, len_utf8}
use thrax.Prelude.{
  ℕ, zero, suc, ◌+◌, ◌-◌, ◌≤◌, ◌≡◌, min, refl, sym, ◌∙◌, subst, true, false, ◌==◌, ==_iff, leb,
  leb→le, le→leb, Bool-cases, &&-eq-true, inl, inr, some, List, [], ◌∷◌, All, get_elem?, arith,
}
use mathlib.Core.Option.{some_inj}
use thrax.Document.Text.{
  Encoding, Position, Document, byte_len, starts_after, line_starts_of, drop_bytes, take_bytes,
  slice, line_of, is_char_boundary, floor, sum_units, position,
}
use thrax.Document.Lines.{IsCurrent, line_of_holds, len_newline}

abbrev IsBoundary : List Char → ℕ → Type 0
IsBoundary s n = is_char_boundary s n ≡ true

zero-IsBoundary : (s : List Char) → IsBoundary s 0
unfolding is_char_boundary
zero-IsBoundary s = refl

-- The boundaries of what follows a character
past :
    (c : Char) (s : List Char) (n : ℕ)
    → len_utf8 c ≤ n
    → IsBoundary s (n - len_utf8 c)
    → IsBoundary (c ∷ s) n
unfolding is_char_boundary
past c s zero l h = refl
past c s (suc n) l h = rw (le→leb (len_utf8 c) (suc n) l) h

inside :
    (c : Char) (s : List Char) (n : ℕ)
    → IsBoundary (c ∷ s) (suc n)
    → (len_utf8 c ≤ suc n) × IsBoundary s (suc n - len_utf8 c)
unfolding is_char_boundary
inside c s n h =
    let (a, b) =
      &&-eq-true (leb (len_utf8 c) (suc n)) (is_char_boundary s (suc n - len_utf8 c)) h in
    (leb→le (len_utf8 c) (suc n) a, b)

-- Dropping up to a boundary leaves a text whose boundaries are those after it.
drop_bytes-IsBoundary :
    (s : List Char) (n : ℕ)
    → IsBoundary s n
    → (t : List Char) × (drop_bytes n s ≡ some t)
      × ((m : ℕ) → n ≤ m → IsBoundary s m → IsBoundary t (m - n))
unfolding drop_bytes is_char_boundary
drop_bytes-IsBoundary s zero h = (s, refl, λ m l b. subst (IsBoundary s) (omega arith) b)
drop_bytes-IsBoundary [] (suc n) h = cc
drop_bytes-IsBoundary (c ∷ s) (suc n) h =
    let (l, b) = inside c s n h in
    let (t, e, after) = drop_bytes-IsBoundary s (suc n - len_utf8 c) b in
    (t, rw (le→leb (len_utf8 c) (suc n) l) e, λ m. later t after l m)
  where
    later :
        (t : List Char)
        → ((m : ℕ)
            → suc n - len_utf8 c ≤ m
            → IsBoundary s m
            → IsBoundary t (m - (suc n - len_utf8 c)))
        → len_utf8 c ≤ suc n
        → (m : ℕ) → suc n ≤ m
        → IsBoundary (c ∷ s) m
        → IsBoundary t (m - suc n)
    later t after l zero p b = absurd (omega (arith, p))
    later t after l (suc m) p b =
        let (l', b') = inside c s m b in
        subst (IsBoundary t) (omega arith) (after (suc m - len_utf8 c) (omega arith) b')

take_bytes-IsBoundary :
    (s : List Char) (n : ℕ) → IsBoundary s n → (t : List Char) × (take_bytes n s ≡ some t)
unfolding take_bytes is_char_boundary
take_bytes-IsBoundary s zero h = ([], refl)
take_bytes-IsBoundary [] (suc n) h = cc
take_bytes-IsBoundary (c ∷ s) (suc n) h =
    let (l, b) = inside c s n h in
    let (t, e) = take_bytes-IsBoundary s (suc n - len_utf8 c) b in
    (c ∷ t, rw (le→leb (len_utf8 c) (suc n) l) (rw e refl))

-- A line starts at a boundary.
starts_after-IsBoundary :
    (at : ℕ) (s : List Char) → All (λ n. (at ≤ n) × IsBoundary s (n - at)) (starts_after at s)
unfolding starts_after
starts_after-IsBoundary at [] = tt
starts_after-IsBoundary at (c ∷ s) =
    let rest =
      shift (starts_after (at + len_utf8 c) s) (starts_after-IsBoundary (at + len_utf8 c) s) in
    elim (Bool-cases (code c == 10)) [
      | inl e ↦ rw e ((omega arith, newline (len_newline c ((==_iff (code c) 10).0 e))), rest)
      | inr e ↦ rw e rest
    ]
  where
    newline : len_utf8 c ≡ 1 → IsBoundary (c ∷ s) (at + 1 - at)
    newline e =
        let q : ◌≡◌ {A = ℕ} 0 (at + 1 - at - len_utf8 c) = omega (arith, e) in
        past c s (at + 1 - at) (omega (arith, e)) (subst (IsBoundary s) q (zero-IsBoundary s))

    shift :
        (ns : List ℕ)
        → All (λ n. (at + len_utf8 c ≤ n) × IsBoundary s (n - (at + len_utf8 c))) ns
        → All (λ n. (at ≤ n) × IsBoundary (c ∷ s) (n - at)) ns
    shift [] h = tt
    shift (n ∷ ns) h = (
      (
        omega (arith, h.0.0),
        past c s (n - at) (omega (arith, h.0.0))
            (subst (IsBoundary s) (omega (arith, h.0.0)) h.0.1),
      ),
      shift ns h.1,
    )

apart : true ≡ false → ⊥
apart q = cc

-- The loop stops at the last boundary up to the offset.
floor-IsBoundary :
    (s : List Char) (o : ℕ)
    → IsBoundary s (floor s o) × ((m : ℕ) → m ≤ o → IsBoundary s m → m ≤ floor s o)
unfolding floor
floor-IsBoundary s zero = (zero-IsBoundary s, λ m l b. l)
floor-IsBoundary s (suc o) = elim (Bool-cases (is_char_boundary s (suc o))) [
  | inl e ↦ rw e (e, λ m l b. l)
  | inr e ↦ let (a, f) = floor-IsBoundary s o in rw e (a, λ m. below e f m)
]
  where
    below :
        is_char_boundary s (suc o) ≡ false
        → ((m : ℕ) → m ≤ o → IsBoundary s m → m ≤ floor s o)
        → (m : ℕ) → m ≤ suc o
        → IsBoundary s m
        → m ≤ floor s o
    below e f m l b = elim (Bool-cases (m == suc o)) [
      | inl q ↦ absurd (apart (sym (subst (IsBoundary s) ((==_iff m (suc o)).0 q) b) ∙ e))
      | inr q ↦ f m (ground arith) b
    ]

starts-IsBoundary :
    (text : List Char) (k n : ℕ) → get_elem? (line_starts_of text) k ≡ some n → IsBoundary text n
unfolding line_starts_of
starts-IsBoundary text zero n e = subst (IsBoundary text) (some_inj.0 e) (zero-IsBoundary text)
starts-IsBoundary text (suc k) n e =
    member (starts_after 0 text) k e (starts_after-IsBoundary 0 text)
  where
    member :
        (ns : List ℕ) (k : ℕ)
        → get_elem? ns k ≡ some n
        → All (λ m. (0 ≤ m) × IsBoundary text (m - 0)) ns
        → IsBoundary text n
    member [] k e h = cc
    member (m ∷ ns) zero e h = subst (IsBoundary text) (omega (arith, some_inj.0 e)) h.0.1
    member (m ∷ ns) (suc k) e h = member ns k e h.1

slice-some :
    (text : List Char) (a b : ℕ)
    → a ≤ b
    → IsBoundary text a
    → IsBoundary text b
    → (u : List Char) × (slice text a b ≡ some u)
unfolding slice
slice-some text a b l p q =
    let (t, e, after) = drop_bytes-IsBoundary text a p in
    let (u, e') = take_bytes-IsBoundary t (b - a) (after b l q) in (u, rw (le→leb a b l) (rw e e'))

-- In a document whose line starts are those of its text, every offset has a position, and its line is
-- that of the offset.
pub position_returns :
    (d : Document) (o : ℕ) (enc : Encoding)
    → IsCurrent d
    → (p : Position) × (position d o enc ≡ some p) × (p.line ≡ line_of d o)
unfolding position
position_returns d o enc c =
    let at = min o (byte_len d.text) in
    let h = line_of_holds d o c in
    let (fb, top) = floor-IsBoundary d.text at in
    let sb =
      starts-IsBoundary d.text (line_of d o) h.start
        (subst (λ ns. get_elem? ns (line_of d o) ≡ some h.start) c h.at_line) in
    let (u, e) = slice-some d.text h.start (floor d.text at) (top h.start h.before sb) sb fb in
    (record { line = line_of d o; character = sum_units enc u }, rw h.at_line (rw e refl), refl)
