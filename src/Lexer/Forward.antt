-- ===== src/Lexer/Forward.antt =====
-- Each scanner of a token goes forward from the token's first byte, and spans what it takes; each
-- scanner's error begins where the token does.
use thrax.Prelude.{
  ℕ, ◌<◌, ◌≡◌, ◌≢◌, refl, Bool, true, false, not, ◌&&◌, ◌||◌, ◌==◌, if_cases, inl, inr, Option,
  none, some, [], ◌∷◌, get_or, arith, Bool-cases,
}
use thrax.Tokens.Kind.{
  Kind, Float, is_digit, is_hex_digit, is_bin_digit, is_ident_start, is_ident_cont,
  is_operator_char,
}
use thrax.Lexer.Cursor.{
  Bytes, Cursor, Code, Lexed, ok, err, skip, byte_at, cur, slice_from, span_from, mk, fail,
  count_while, scan_while, scan_while_digit_or_sep, number_parsing_failure,
}
use thrax.Lexer.Number.{
  int_token, float_token, cleaned, parse_int, lex_radix, fraction, exponent_head, exponent,
  finish_number, lex_number,
}
use thrax.Lexer.Stream.{ends, is_eof}
use thrax.Lexer.Consumes.{
  Consumes, nothing_consumed, consumed_twice, Plain, Plain-suc, skip-Consumes, scan_while-Consumes,
}

abbrev pub Forward : Cursor → Cursor → Type 0
Forward c d = Consumes c d × (c.at < d.at)

abbrev pub IsScan : Cursor → Lexed → Type 0
IsScan c (d, ok t) = Forward c d × (t.span ≡ span_from c d) × (t.line ≡ c.line) × (is_eof t ≡ false)
IsScan c (d, err e) = (d.base ≡ c.base) × (e.span ≡ span_from c d) × (e.line ≡ c.line)

pub go_further : {c d e : Cursor} → Forward c d → Consumes d e → Forward c e
go_further (p, l) q = (consumed_twice p q, omega (arith, l, q.1.counted))

pub mk-IsScan : (k : Kind) (c d : Cursor) → ends k ≡ false → Forward c d → IsScan c (mk k c d)
mk-IsScan k c d e f = (f, refl, refl, e)

pub fail-IsScan : (e : Code) (c d : Cursor) → d.base ≡ c.base → IsScan c (fail e c d)
fail-IsScan e c d b = (b, refl, refl)

pub skip-Forward : (n : ℕ) (c : Cursor) → 0 < n → Plain n c.rest → Forward c (skip n c)
skip-Forward n c l p = (skip-Consumes n c p, omega arith)

-- The next one, two or three bytes are there if they are past the newline's.
pub plain1 : (bs : Bytes) → 10 < get_or bs 0 0 → Plain 1 bs
plain1 bs h = Plain-suc 0 bs (omega arith, refl) h

pub plain2 : (bs : Bytes) → 10 < get_or bs 0 0 → 10 < get_or bs 1 0 → Plain 2 bs
plain2 bs h k = Plain-suc 1 bs (plain1 bs h) k

pub plain3 :
    (bs : Bytes) → 10 < get_or bs 0 0 → 10 < get_or bs 1 0 → 10 < get_or bs 2 0 → Plain 3 bs
plain3 bs h k l = Plain-suc 2 bs (plain2 bs h k) l

-- A scan whose first byte is a member takes it.
count_while-pos :
    (member : ℕ → Bool) (bs : Bytes)
    → 0 < get_or bs 0 0
    → member (get_or bs 0 0) ≡ true
    → 0 < count_while member bs
unfolding count_while
count_while-pos member [] h e = absurd (omega arith)
count_while-pos member (b ∷ bs) h e = rw e (omega arith)

pub scan_while-Forward :
    (member : ℕ → Bool) (c : Cursor)
    → ((b : ℕ) → member b ≡ true → b ≢ 10)
    → 0 < cur c
    → member (cur c) ≡ true
    → Forward c (scan_while member c)
scan_while-Forward member c f h e =
    (scan_while-Consumes member c f, omega (arith, count_while-pos member c.rest h e))

-- ## Classes of bytes

pub digit_above : (b : ℕ) → is_digit b ≡ true → 10 < b
unfolding is_digit
digit_above b h = ground arith

pub ident_start_above : (b : ℕ) → is_ident_start b ≡ true → 10 < b
unfolding is_ident_start
ident_start_above b h = ground arith

pub ident_cont_above : (b : ℕ) → is_ident_cont b ≡ true → 10 < b
unfolding is_ident_cont
ident_cont_above b h = ground arith

pub operator_char_above : (b : ℕ) → is_operator_char b ≡ true → 10 < b
unfolding is_operator_char
operator_char_above b h = ground arith

sep_above :
    (member : ℕ → Bool)
    → ((b : ℕ) → member b ≡ true → 10 < b)
    → (b : ℕ) → (member b || b == b'_') ≡ true
    → b ≢ 10
sep_above member f b h e = elim (Bool-cases (member b)) [
  | inl k ↦ omega (arith, e, f b k)
  | inr k ↦ let q = rw k at h in ground arith
]

digits-Consumes :
    (member : ℕ → Bool) (c : Cursor)
    → ((b : ℕ) → member b ≡ true → 10 < b)
    → Consumes c (scan_while_digit_or_sep member c)
digits-Consumes member c f = scan_while-Consumes (λ b. member b || b == b'_') c (sep_above member f)

-- ## Numbers

hex_digit_above : (b : ℕ) → is_hex_digit b ≡ true → 10 < b
unfolding is_hex_digit
hex_digit_above b h = ground arith

bin_digit_above : (b : ℕ) → is_bin_digit b ≡ true → 10 < b
unfolding is_bin_digit
bin_digit_above b h = ground arith

int_token-IsScan : (c d : Cursor) (o : Option ℕ) → Forward c d → IsScan c (int_token c d o)
int_token-IsScan c d none f = (f.0.1.based, refl, refl)
int_token-IsScan c d (some n) f = (f, refl, refl, refl)

float_token-IsScan :
    (k : Float → Kind) (c d : Cursor) (o : Option Float)
    → ((x : Float) → ends (k x) ≡ false)
    → Forward c d
    → IsScan c (float_token k c d o)
float_token-IsScan k c d none e f = (f.0.1.based, refl, refl)
float_token-IsScan k c d (some x) e f = (f, refl, refl, e x)

lex_radix-IsScan :
    (radix : ℕ) (member : ℕ → Bool) (c : Cursor)
    → ((b : ℕ) → member b ≡ true → 10 < b)
    → Plain 2 c.rest
    → IsScan c (lex_radix radix member c)
unfolding lex_radix
lex_radix-IsScan radix member c f p =
    let digits = skip 2 c in
    let d = scan_while_digit_or_sep member digits in
    if_cases (IsScan c) (d.at == digits.at) _ _ (λ e. fail-IsScan number_parsing_failure c d refl)
      (λ e.
        int_token-IsScan c d (parse_int radix (cleaned (slice_from digits d)))
          (go_further (skip-Forward 2 c (omega arith) p) (digits-Consumes member digits f)))

fraction-Consumes : (c : Cursor) → Consumes c (fraction c).0
unfolding fraction
fraction-Consumes c =
    if_cases (λ (r : Cursor × Bool). Consumes c r.0) (cur c == b'.' && is_digit (byte_at c 1)) _ _
      (λ e.
        consumed_twice (skip-Consumes 1 c (plain1 c.rest (ground arith)))
          (digits-Consumes is_digit (skip 1 c) digit_above))
      (λ e. nothing_consumed c)

exponent-Consumes : (c : Cursor) (r : Bool) → Consumes c (exponent (c, r)).0
unfolding exponent
exponent-Consumes c r =
    if_cases (λ (r : Cursor × Bool). Consumes c r.0)
      ((cur c == b'e' || cur c == b'E') && is_digit (byte_at c (exponent_head c))) _ _
      (λ e.
        consumed_twice (skip-Consumes (exponent_head c) c (head e))
          (digits-Consumes is_digit (skip (exponent_head c) c) digit_above))
      (λ e. nothing_consumed c)
  where
    head :
        ((cur c == b'e' || cur c == b'E') && is_digit (byte_at c (exponent_head c))) ≡ true
        → Plain (exponent_head c) c.rest
    head e =
        if_cases (λ n. Plain n c.rest) (byte_at c 1 == b'+' || byte_at c 1 == b'-') 2 1
          (λ k. plain2 c.rest (ground arith) (ground arith)) (λ k. plain1 c.rest (ground arith))

finish_number-IsScan :
    (parse_float : Bytes → Option Float) (c d : Cursor) (r : Bool)
    → Forward c d
    → IsScan c (finish_number parse_float c (d, r))
unfolding finish_number
finish_number-IsScan parse_float c d r f =
    if_cases (IsScan c) (cur d == b'i' && not (is_ident_cont (byte_at d 1))) _ _
      (λ e.
        float_token-IsScan Kind.imaginary c (skip 1 d) (parse_float (cleaned (slice_from c d)))
          (λ x. refl) (go_further f (skip-Consumes 1 d (plain1 d.rest (ground arith)))))
      (λ e.
        if_cases (IsScan c) r _ _
          (λ k.
            float_token-IsScan Kind.real c d (parse_float (cleaned (slice_from c d))) (λ x. refl) f)
          (λ k. int_token-IsScan c d (parse_int 10 (cleaned (slice_from c d))) f))

pub lex_number-IsScan :
    (parse_float : Bytes → Option Float) (c : Cursor)
    → is_digit (cur c) ≡ true
    → IsScan c (lex_number parse_float c)
unfolding lex_number
lex_number-IsScan parse_float c h =
    let above = digit_above (cur c) h in
    let digits = scan_while_digit_or_sep is_digit c in
    if_cases (IsScan c) (cur c == b'0' && (byte_at c 1 == b'x' || byte_at c 1 == b'X')) _ _
      (λ e. lex_radix-IsScan 16 is_hex_digit c hex_digit_above (plain2 c.rest above (ground arith)))
      (λ e.
        if_cases (IsScan c) (cur c == b'0' && (byte_at c 1 == b'b' || byte_at c 1 == b'B')) _ _
          (λ e'.
            lex_radix-IsScan 2 is_bin_digit c bin_digit_above (plain2 c.rest above (ground arith)))
          (λ e'.
            finish_number-IsScan parse_float c (exponent (fraction digits)).0
              (exponent (fraction digits)).1
              (go_further
                (go_further
                  (scan_while-Forward (λ b. is_digit b || b == b'_') c
                    (sep_above is_digit digit_above) (omega (arith, above)) (rw h refl))
                  (fraction-Consumes digits))
                (exponent-Consumes (fraction digits).0 (fraction digits).1))))
