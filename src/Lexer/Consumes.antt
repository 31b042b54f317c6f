-- ===== src/Lexer/Consumes.antt =====
-- A scan goes forward: it takes bytes off the rest, and counts them and their newlines.
use thrax.Prelude.{
  ℕ, zero, suc, ◌+◌, ◌≤◌, ◌<◌, ◌≡◌, ◌≢◌, refl, sym, ap, ◌∙◌, Bool, true, false, ◌||◌, ◌==◌,
  if_cases, All, inl, inr, [], ◌∷◌, ◌++◌, take, drop, get_or, length, length-append, if◌then◌else◌,
  arith, Bool-cases,
}
use mathlib.Core.List.{append_assoc}
use thrax.Lexer.Cursor.{Bytes, Cursor, skip, skip_from, skip_whitespace, count_while, scan_while}
use thrax.Lexer.Scan.{cursor}

abbrev pub newlines : Bytes → ℕ
newlines [] = 0
newlines (c ∷ cs) = let n = newlines cs in if c == b'\n' then suc n else n

pub newlines-append : (xs ys : Bytes) → newlines (xs ++ ys) ≡ newlines xs + newlines ys
newlines-append [] ys = omega arith
newlines-append (x ∷ xs) ys = ground (arith, newlines-append xs ys)

-- The scan from `c` to `d` takes these bytes.
pub record Takes (taken : Bytes) (c d : Cursor) : Type 0 where
  pub whole : c.rest ≡ taken ++ d.rest
  pub counted : d.at ≡ c.at + length taken
  pub lined : d.line ≡ c.line + newlines taken
  pub based : d.base ≡ c.base

abbrev pub Consumes : Cursor → Cursor → Type 0
Consumes c d = (taken : Bytes) × Takes taken c d

pub nothing_taken : (c : Cursor) → Takes [] c c
nothing_taken c = record { whole = refl; counted = omega arith; lined = omega arith; based = refl }

pub taken_twice :
    (xs ys : Bytes) {c d e : Cursor} → Takes xs c d → Takes ys d e → Takes (xs ++ ys) c e
taken_twice xs ys {c} {d} {e} p q = record {
  whole = p.whole ∙ ap (λ r. xs ++ r) q.whole ∙ sym (append_assoc xs ys e.rest);
  counted = omega (arith, p.counted, q.counted, length-append xs ys);
  lined = omega (arith, p.lined, q.lined, newlines-append xs ys);
  based = q.based ∙ p.based;
}

pub nothing_consumed : (c : Cursor) → Consumes c c
nothing_consumed c = ([], nothing_taken c)

pub consumed_twice : {c d e : Cursor} → Consumes c d → Consumes d e → Consumes c e
consumed_twice (xs, p) (ys, q) = (xs ++ ys, taken_twice xs ys p q)

-- The next `n` bytes are there, and none is a newline.
abbrev pub Plain : ℕ → Bytes → Type 0
Plain n bs = (n ≤ length bs) × (newlines (take n bs) ≡ 0)

take-drop : (n : ℕ) (bs : Bytes) → bs ≡ take n bs ++ drop n bs
take-drop zero bs = refl
take-drop (suc n) [] = refl
take-drop (suc n) (b ∷ bs) = ap (λ r. b ∷ r) (take-drop n bs)

pub length-take : (n : ℕ) (bs : Bytes) → n ≤ length bs → length (take n bs) ≡ n
length-take zero bs h = refl
length-take (suc n) [] h = absurd (omega arith)
length-take (suc n) (b ∷ bs) h = omega (arith, length-take n bs (omega arith))

pub skip-Takes : (n : ℕ) (c : Cursor) → Plain n c.rest → Takes (take n c.rest) c (skip n c)
skip-Takes n c h = record {
  whole = take-drop n c.rest;
  counted = omega (arith, length-take n c.rest h.0);
  lined = omega (arith, h.1);
  based = refl;
}

pub skip-Consumes : (n : ℕ) (c : Cursor) → Plain n c.rest → Consumes c (skip n c)
skip-Consumes n c h = (take n c.rest, skip-Takes n c h)

pub Plain-suc : (n : ℕ) (bs : Bytes) → Plain n bs → 10 < get_or bs n 0 → Plain (suc n) bs
Plain-suc n [] p h = absurd (omega arith)
Plain-suc zero (b ∷ bs) p h = ground arith
Plain-suc (suc n) (b ∷ bs) p h = let q = Plain-suc n bs (ground arith) h in ground arith

pub scan_while-Plain :
    (member : ℕ → Bool) (bs : Bytes)
    → ((b : ℕ) → member b ≡ true → b ≢ 10)
    → Plain (count_while member bs) bs
unfolding count_while
scan_while-Plain member [] f = (omega arith, refl)
scan_while-Plain member (b ∷ bs) f =
    let q = scan_while-Plain member bs f in
    elim (Bool-cases (member b)) [
      | inl e ↦ let k = f b e in rw e (ground arith)
      | inr e ↦ rw e (omega arith, refl)
    ]

pub scan_while-Consumes :
    (member : ℕ → Bool) (c : Cursor)
    → ((b : ℕ) → member b ≡ true → b ≢ 10)
    → Consumes c (scan_while member c)
scan_while-Consumes member c f =
    skip-Consumes (count_while member c.rest) c (scan_while-Plain member c.rest f)

-- One byte, with the line that it may end
pub one-Takes :
    (base at line b : ℕ) (bs : Bytes)
    → Takes
        (b ∷ [])
        (cursor base at line (b ∷ bs))
        (cursor base (at + 1) (if b == b'\n' then line + 1 else line) bs)
one-Takes base at line b bs = record {
  whole = refl;
  counted = omega arith;
  lined = ground arith;
  based = refl;
}

-- Two bytes, neither of them a newline
pub two-Takes :
    (base at line b b' : ℕ) (bs : Bytes)
    → (b == b'\n') ≡ false
    → (b' == b'\n') ≡ false
    → Takes (b ∷ b' ∷ []) (cursor base at line (b ∷ b' ∷ bs)) (cursor base (at + 2) line bs)
two-Takes base at line b b' bs h h' = record {
  whole = refl;
  counted = omega arith;
  lined = rw h (rw h' (omega arith));
  based = refl;
}

-- ## White space

abbrev pub is_blank : ℕ → Bool
is_blank c = c == b' ' || c == b'\t' || c == b'\r' || c == b'\n'

-- White space was taken, and what follows does not begin with any.
abbrev pub Stops : Bytes → Type 0
Stops [] = Unit
Stops (c ∷ cs) = is_blank c ≡ false

pub record Blanks (c d : Cursor) : Type 0 where
  pub taken : Bytes
  pub takes : Takes taken c d
  pub blank : All (λ b. is_blank b ≡ true) taken
  pub stops : Stops d.rest

after_blank :
    (base at line line' b : ℕ) (bs : Bytes) (d : Cursor)
    → is_blank b ≡ true
    → (if b == b'\n' then line + 1 else line) ≡ line'
    → Blanks (cursor base (at + 1) line' bs) d
    → Blanks (cursor base at line (b ∷ bs)) d
after_blank base at line line' b bs d h e q = record {
  taken = b ∷ q.taken;
  takes = taken_twice (b ∷ []) q.taken (rw e at (one-Takes base at line b bs)) q.takes;
  blank = (h, q.blank);
  stops = q.stops;
}

skip_from-Blanks :
    (base at line : ℕ) (bs : Bytes) → Blanks (cursor base at line bs) (skip_from base at line bs)
unfolding skip_from
skip_from-Blanks base at line [] = record {
  taken = [];
  takes = nothing_taken (cursor base at line []);
  blank = tt;
  stops = tt;
}
skip_from-Blanks base at line (b ∷ bs) =
    if_cases (Blanks (cursor base at line (b ∷ bs))) (b == b' ' || b == b'\t' || b == b'\r') _ _
      (λ e.
        after_blank base at line line b bs _ (ground arith) (ground arith)
          (skip_from-Blanks base (at + 1) line bs))
      (λ e.
        if_cases (Blanks (cursor base at line (b ∷ bs))) (b == b'\n') _ _
          (λ n.
            after_blank base at line (line + 1) b bs _ (ground arith) (ground arith)
              (skip_from-Blanks base (at + 1) (line + 1) bs))
          (λ n. record {
            taken = [];
            takes = nothing_taken (cursor base at line (b ∷ bs));
            blank = tt;
            stops = rw e n;
          }))

pub skip_whitespace-Blanks : (c : Cursor) → Blanks c (skip_whitespace c)
unfolding skip_whitespace
skip_whitespace-Blanks c = skip_from-Blanks c.base c.at c.line c.rest
