-- ===== src/Lexer/Escapes.antt =====
-- What an escape gives does not depend on where it stands, and it takes no more bytes than there are.
use thrax.Prelude.{
  ℕ, zero, suc, ◌+◌, ◌≤◌, ◌<◌, ◌≡◌, refl, Bool, true, false, not, ◌||◌, ◌==◌, Option, none, some,
  [], ◌∷◌, get_or, drop, length, if◌then◌else◌, arith,
}
use thrax.Tokens.Kind.{is_hex_digit}
use thrax.Lexer.Cursor.{Bytes}
use thrax.Lexer.Decode.{
  Escape, escape, bad, bad_escape, decode_hex_byte, is_scalar, scalar_digits, scalar_escape,
  decode_unicode, simple_escapes, simple_escape, other_escape, decode_escape,
}

-- The escape at `at` and the same one at another place, of which `left` bytes follow the backslash
abbrev pub Alike : ℕ → ℕ → ℕ → Escape → Escape → Type 0
Alike at line left (escape out used) (escape out' used') =
    (out ≡ out') × (used ≡ used') × (2 ≤ used) × (used ≤ suc left)
Alike at line left (bad e) (bad e') = e ≡ bad_escape at line
Alike at line left (escape out used) (bad e) = ⊥
Alike at line left (bad e) (escape out used) = ⊥

get_or_inside : (bs : Bytes) (i : ℕ) → 0 < get_or bs i 0 → i < length bs
get_or_inside [] i h = absurd (omega arith)
get_or_inside (b ∷ bs) zero h = omega arith
get_or_inside (b ∷ bs) (suc i) h = omega (arith, get_or_inside bs i h)

hex_pos : (b : ℕ) → is_hex_digit b ≡ true → 0 < b
unfolding is_hex_digit
hex_pos b h = ground arith

both_hex : (a b : Bool) → (not a || not b) ≡ false → b ≡ true
both_hex a b h = ground arith

module _ (at line at' line' : ℕ) where
  same_if :
      (left : ℕ) (b : Bool) (x y x' y' : Escape)
      → (b ≡ true → Alike at line left x x')
      → (b ≡ false → Alike at line left y y')
      → Alike at line left (if b then x else y) (if b then x' else y')
  same_if left true x y x' y' f g = f refl
  same_if left false x y x' y' f g = g refl

  same_hex :
      (rest : Bytes)
      → Alike at line
          (suc (length rest))
          (decode_hex_byte at line rest)
          (decode_hex_byte at' line' rest)
  unfolding decode_hex_byte is_hex_digit
  same_hex rest =
      same_if (suc (length rest))
        (not (is_hex_digit (get_or rest 0 0)) || not (is_hex_digit (get_or rest 1 0))) _ _ _ _
        (λ e. refl)
        (λ e. (
          refl,
          refl,
          omega arith,
          omega (
            arith,
            get_or_inside rest 1 (
                hex_pos (get_or rest 1 0)
                  (both_hex (is_hex_digit (get_or rest 0 0)) (is_hex_digit (get_or rest 1 0)) e)),
          ),
        ))

  same_scalar :
      (rest : Bytes) (d : ℕ × ℕ)
      → Alike at line
          (suc (length rest))
          (scalar_escape at line rest d)
          (scalar_escape at' line' rest d)
  same_scalar rest (cp, digits) =
      same_if (suc (length rest)) (digits == 0 || not (get_or rest (digits + 1) 0 == b'}')) _ _ _ _
        (λ e. refl)
        (λ e.
          same_if (suc (length rest)) (is_scalar cp) _ _ _ _
            (λ s. (
              refl,
              refl,
              omega arith,
              omega (arith, get_or_inside rest (digits + 1) (ground (arith, e))),
            ))
            (λ s. refl))

  same_unicode :
      (rest : Bytes)
      → Alike at line
          (suc (length rest))
          (decode_unicode at line rest)
          (decode_unicode at' line' rest)
  unfolding decode_unicode
  same_unicode rest =
      same_if (suc (length rest)) (get_or rest 0 0 == b'{') _ _ _ _
        (λ e. same_scalar rest (scalar_digits 6 0 0 (drop 1 rest))) (λ e. refl)

  same_other :
      (sel : ℕ) (rest : Bytes) (o : Option ℕ)
      → Alike at line
          (suc (length rest))
          (other_escape at line sel rest o)
          (other_escape at' line' sel rest o)
  same_other sel rest (some b) = (refl, refl, omega arith, omega arith)
  same_other sel rest none =
      same_if (suc (length rest)) (sel == b'x') _ _ _ _ (λ e. same_hex rest)
        (λ e.
          same_if (suc (length rest)) (sel == b'u') _ _ _ _ (λ k. same_unicode rest) (λ k. refl))

  -- An escape decodes alike wherever it stands, to at least two bytes of those that are there; an error
  -- is at its backslash.
  pub decode_escape-Alike :
      (rest : Bytes)
      → Alike at line (length rest) (decode_escape at line rest) (decode_escape at' line' rest)
  unfolding decode_escape
  decode_escape-Alike [] = refl
  decode_escape-Alike (sel ∷ rest) = same_other sel rest (simple_escape sel simple_escapes)
