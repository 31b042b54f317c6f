-- ===== src/Json/Quoted.antt =====
-- The parser reads back a string that the writer wrote.
use Prim.Native.Char.{Char, IsScalar, char, code}
use text.Mathlib.TextEquality.{Char-path}
use mathlib.Core.List.{append_assoc}
use thrax.Prelude.{
  ◌+◌, ◌≤◌, Bool-cases, inl, inr, subst, ℕ, zero, suc, ◌<◌, ◌≡◌, refl, sym, ap, ◌∙◌, ◌==◌, ltb,
  if_cases, [], ◌∷◌, ◌++◌, length, arith,
}
use thrax.Json.Value.{Text, chars}
use thrax.Json.Writer.{hex4, write_char, write_chars}
use thrax.Json.Scan.{Parsed, ok, read_hex4}
use thrax.Json.Reader.{from_u32, push, unicode, escape, string}

-- A property of so many numbers from one on, one by one
abbrev AllFrom : (ℕ → Type 0) → ℕ → ℕ → Type 0
AllFrom P k zero = Unit
AllFrom P k (suc m) = P k × AllFrom P (k + 1) m

infixr 45 ◌▸◌
◌▸◌ : {A B : Type 0} → A → B → A × B
a ▸ b = (a, b)

pick : (P : ℕ → Type 0) (m k n : ℕ) → AllFrom P k m → k ≤ n → n < k + m → P n
pick P zero k n h l u = absurd (omega arith)
pick P (suc m) k n (h, r) l u = elim (Bool-cases (k == n)) [
  | inl e ↦ let same : k ≡ n = ground (arith, e) in subst P same h
  | inr e ↦ pick P m (k + 1) n r (ground (arith, l, e)) (omega (arith, u))
]

module _ (next : Text → Parsed Text) (t : Text) where
  named : (d c : Char) → code c ≡ code d → push d (next t) ≡ push c (next t)
  named d c e = ap (λ x. push x (next t)) (Char-path d c (sym e))

  -- A control character's four digits are read as the character.
  control :
      (c : Char) → code c < 32 → unicode next (read_hex4 (hex4 (code c) ++ t)) ≡ push c (next t)
  unfolding read_hex4 from_u32
  control c l =
      pick (λ n. (d : Char) → code d ≡ n → unicode next (read_hex4 (hex4 n ++ t)) ≡ push d (next t))
        32 0 (code c) table (omega arith) l c refl
    where
      table :
          AllFrom
            (λ n.
              (d : Char) → code d ≡ n → unicode next (read_hex4 (hex4 n ++ t)) ≡ push d (next t))
            0
            32
      table =
          named (char 0 tt)
          ▸ named (char 1 tt)
          ▸ named (char 2 tt)
          ▸ named (char 3 tt)
          ▸ named (char 4 tt)
          ▸ named (char 5 tt)
          ▸ named (char 6 tt)
          ▸ named (char 7 tt)
          ▸ named (char 8 tt)
          ▸ named (char 9 tt)
          ▸ named (char 10 tt)
          ▸ named (char 11 tt)
          ▸ named (char 12 tt)
          ▸ named (char 13 tt)
          ▸ named (char 14 tt)
          ▸ named (char 15 tt)
          ▸ named (char 16 tt)
          ▸ named (char 17 tt)
          ▸ named (char 18 tt)
          ▸ named (char 19 tt)
          ▸ named (char 20 tt)
          ▸ named (char 21 tt)
          ▸ named (char 22 tt)
          ▸ named (char 23 tt)
          ▸ named (char 24 tt)
          ▸ named (char 25 tt)
          ▸ named (char 26 tt)
          ▸ named (char 27 tt)
          ▸ named (char 28 tt)
          ▸ named (char 29 tt)
          ▸ named (char 30 tt)
          ▸ named (char 31 tt)
          ▸ tt

-- What the writer makes of a character is read as that character.
string-write_char :
    (f : ℕ) (c : Char) (t : Text) → string (suc f) (write_char c ++ t) ≡ push c (string f t)
unfolding string escape write_char
string-write_char f c t =
    if_cases (λ r. string (suc f) (r ++ t) ≡ push c (string f t)) (code c == 34) _ _
      (λ e. named 34 tt (ground (arith, e)))
      (λ a.
        if_cases (λ r. string (suc f) (r ++ t) ≡ push c (string f t)) (code c == 92) _ _
          (λ e. named 92 tt (ground (arith, e)))
          (λ b.
            if_cases (λ r. string (suc f) (r ++ t) ≡ push c (string f t)) (code c == 10) _ _
              (λ e. named 10 tt (ground (arith, e)))
              (λ d.
                if_cases (λ r. string (suc f) (r ++ t) ≡ push c (string f t)) (code c == 13) _ _
                  (λ e. named 13 tt (ground (arith, e)))
                  (λ g.
                    if_cases (λ r. string (suc f) (r ++ t) ≡ push c (string f t)) (code c == 9) _ _
                      (λ e. named 9 tt (ground (arith, e)))
                      (λ h.
                        if_cases (λ r. string (suc f) (r ++ t) ≡ push c (string f t))
                          (ltb (code c) 32) _ _ (λ e. control (string f) t c (ground (arith, e)))
                          (λ e. rw a (rw b refl)))))))
  where
    named :
        (n : ℕ) (p : IsScalar n) → code c ≡ n → push (char n p) (string f t) ≡ push c (string f t)
    named n p e = ap (λ d. push d (string f t)) (Char-path (char n p) c (sym e))

-- a string that the writer wrote, and whatever follows its closing quote, is read as that string and
-- what follows, with more fuel than it has characters.
pub string-write_chars :
    (f : ℕ) (s rest : Text)
    → length s < f
    → string f (write_chars s ++ (chars "\"" ++ rest)) ≡ ok s rest
unfolding string write_chars
string-write_chars zero s rest l = absurd (omega arith)
string-write_chars (suc f) [] rest l = refl
string-write_chars (suc f) (c ∷ s) rest l =
    ap (string (suc f)) (append_assoc (write_char c) (write_chars s) (chars "\"" ++ rest))
    ∙ string-write_char f c (write_chars s ++ (chars "\"" ++ rest))
    ∙ ap (push c) (string-write_chars f s rest (omega (arith, l)))
