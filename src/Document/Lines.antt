-- ===== src/Document/Lines.antt =====
-- The line of an offset, and the lines of a document that was edited.
use Prim.Native.Nat.{compare}
use Prim.Native.Char.{Char, code, len_utf8, len_utf8_def, width}
use thrax.Prelude.{
  ℕ, zero, suc, ◌+◌, ◌-◌, ◌≤◌, ◌<◌, ◌≡◌, min, refl, sym, ap, ◌∙◌, false, ◌==◌, ==_iff, leb, leb→le,
  le→leb, Bool-cases, inl, inr, Option, none, some, List, [], ◌∷◌, get_elem?, arith,
}
use mathlib.Core.Option.{some_inj}
use thrax.Prelude.Int.{ℤ}
use thrax.Document.Text.{
  Encoding, Position, Document, byte_len, starts_after, line_starts_of, new, offset, replace_range,
  with_text, edit, partition_point, line_of,
}

-- Each number is above the one before it, and the first above `lo`.
abbrev Increasing : ℕ → List ℕ → Type 0
Increasing lo [] = Unit
Increasing lo (x ∷ xs) = (lo < x) × Increasing x xs

Increasing-le : (lo hi : ℕ) (xs : List ℕ) → lo ≤ hi → Increasing hi xs → Increasing lo xs
Increasing-le lo hi [] l h = tt
Increasing-le lo hi (x ∷ xs) l h = (omega (arith, l, h.0), h.1)

pub len_newline : (c : Char) → code c ≡ 10 → len_utf8 c ≡ 1
len_newline c e =
    (λ i. len_utf8_def c i) ∙ ap (λ n. width (compare n 128) (compare n 2048) (compare n 65536)) e

starts_after-Increasing : (at : ℕ) (s : List Char) → Increasing at (starts_after at s)
unfolding starts_after
starts_after-Increasing at [] = tt
starts_after-Increasing at (c ∷ s) =
    let rest = starts_after-Increasing (at + len_utf8 c) s in
    elim (Bool-cases (code c == 10)) [
      | inl e ↦ rw e (
        omega arith,
        Increasing-le (at + 1) (at + len_utf8 c) (starts_after (at + len_utf8 c) s)
            (omega (arith, len_newline c ((==_iff (code c) 10).0 e))) rest,
      )
      | inr e ↦
          rw e (
            Increasing-le at (at + len_utf8 c) (starts_after (at + len_utf8 c) s) (omega arith)
              rest)
    ]

above : (lo : ℕ) (xs : List ℕ) (k n : ℕ) → Increasing lo xs → get_elem? xs k ≡ some n → lo < n
above lo [] k n h e = cc
above lo (x ∷ xs) zero n h e = omega (arith, h.0, some_inj.0 e)
above lo (x ∷ xs) (suc k) n h e = omega (arith, h.0, above x xs k n h.1 e)

-- The line starts at or before the offset, and every later line after it.
pub record HoldsOffset (starts : List ℕ) (l o : ℕ) : Type 0 where
  pub start : ℕ
  pub at_line : get_elem? starts l ≡ some start
  pub before : start ≤ o
  pub later : (k n : ℕ) → l < k → get_elem? starts k ≡ some n → o < n

further : (y : ℕ) (xs : List ℕ) (l o : ℕ) → HoldsOffset xs l o → HoldsOffset (y ∷ xs) (suc l) o
further y xs l o h = record {
  start = h.start;
  at_line = h.at_line;
  before = h.before;
  later = after h.later;
}
  where
    after :
        ((k n : ℕ) → l < k → get_elem? xs k ≡ some n → o < n)
        → (k n : ℕ) → suc l < k
        → get_elem? (y ∷ xs) k ≡ some n
        → o < n
    after f zero n p e = absurd (omega (arith, p))
    after f (suc k) n p e = f k n (omega (arith, p)) e

point_holds :
    (lo : ℕ) (xs : List ℕ) (o : ℕ)
    → Increasing lo xs
    → lo ≤ o
    → HoldsOffset (lo ∷ xs) (partition_point o xs) o
unfolding partition_point
point_holds lo [] o h l = record { start = lo; at_line = refl; before = l; later = none_later }
  where
    none_later : (k n : ℕ) → 0 < k → get_elem? (lo ∷ []) k ≡ some n → o < n
    none_later zero n p e = absurd (omega (arith, p))
    none_later (suc k) n p e = cc
point_holds lo (x ∷ xs) o h l = elim (Bool-cases (leb x o)) [
  | inl e ↦
      rw e (further lo (x ∷ xs) (partition_point o xs) o (point_holds x xs o h.1 (leb→le x o e)))
  | inr e ↦ rw e (record { start = lo; at_line = refl; before = l; later = all_later (not_le e) })
]
  where
    not_le : leb x o ≡ false → o < x
    not_le q = ground arith

    all_later : o < x → (k n : ℕ) → 0 < k → get_elem? (lo ∷ x ∷ xs) k ≡ some n → o < n
    all_later q zero n p e = absurd (omega (arith, p))
    all_later q (suc zero) n p e = omega (arith, q, some_inj.0 e)
    all_later q (suc (suc k)) n p e = omega (arith, q, above x xs k n h.1 e)

-- The line starts of a document are those of its text.
abbrev pub IsCurrent : Document → Type 0
IsCurrent d = d.line_starts ≡ line_starts_of d.text

from_zero : (o : ℕ) (xs : List ℕ) → partition_point o (0 ∷ xs) - 1 ≡ partition_point o xs
unfolding partition_point
from_zero o xs = rw (le→leb 0 o (omega arith)) (omega arith)

-- In a document whose line starts are those of its text, the line of an offset, which is cut at the
-- end of the text, starts at or before it, and every later
-- line starts after it.
pub line_of_holds :
    (d : Document) (o : ℕ)
    → IsCurrent d
    → HoldsOffset d.line_starts (line_of d o) (min o (byte_len d.text))
unfolding line_of line_starts_of partition_point
line_of_holds d o c =
    let o' = min o (byte_len d.text) in
    let found =
      point_holds 0 (starts_after 0 d.text) o' (starts_after-Increasing 0 d.text) (omega arith) in
    rw (c, from_zero o' (starts_after 0 d.text)) found

with_text-IsCurrent :
    (d d' : Document) (t : Option (List Char)) → with_text d t ≡ some d' → IsCurrent d'
with_text-IsCurrent d d' none e = cc
with_text-IsCurrent d d' (some s) e =
    ap (λ r. r.line_starts) (sym (some_inj.0 e)) ∙ ap (λ r. line_starts_of r.text) (some_inj.0 e)

-- A document that an edit leaves has the line starts of its text.
pub edit-IsCurrent :
    (d d' : Document) (range : Option (Position × Position)) (s : List Char) (enc : Encoding)
    → edit d range s enc ≡ some d'
    → IsCurrent d'
unfolding edit
edit-IsCurrent d d' none s enc e = with_text-IsCurrent d d' (some s) e
edit-IsCurrent d d' (some (a, b)) s enc e =
    with_text-IsCurrent d d' (replace_range d.text (offset d a enc) (offset d b enc) s) e

pub new-IsCurrent : (text : List Char) (version : ℤ) → IsCurrent (new text version)
unfolding new
new-IsCurrent text version = refl
