-- ===== src/Lexer/One.antt =====
-- `lex_one` skips white space, and then goes forward over a token or stands at the end.
use thrax.Prelude.{
  ℕ, ◌<◌, ◌≡◌, ◌≢◌, ◌⊎◌, refl, Bool, true, false, not, ◌&&◌, ◌==◌, ltb, &&-eq-true, if_cases, inl,
  inr, Option, none, some, Option-cases, [], ◌∷◌, length, arith,
}
use mathlib.Core.Option.{some_inj}
use thrax.Prelude.Names.{StrId, eq_str}
use thrax.Prelude.Chars.{text_of}
use thrax.Tokens.Kind.{
  Kind, Float, word, ellipsis, eof, keywords, operators, delimiters, first, lookup_str,
  keyword_or_word, kind, operator, delimiter, is_digit, is_ident_start, is_ident_cont,
  is_operator_char,
}
use thrax.Tokens.Lookup.{all, all_member, first_passes, find_op_passes}
use thrax.Tokens.Laws.{found}
use thrax.Lexer.Cursor.{
  Bytes, Cursor, Lexed, skip, byte_at, cur, slice_from, mk, scan_while, skip_whitespace,
  unknown_symbol,
}
use thrax.Lexer.Scan.{
  lex_intrinsic, lex_word, operator_token, operator_end, lex_operator, at_hole, unexpected,
  delimiter_token, dispatch, lex_at, lex_one,
}
use thrax.Lexer.Stream.{ends}
use thrax.Lexer.Consumes.{scan_while-Consumes, Blanks, skip_whitespace-Blanks}
use thrax.Lexer.Forward.{
  Forward, IsScan, go_further, mk-IsScan, fail-IsScan, skip-Forward, plain1, plain3,
  scan_while-Forward, ident_start_above, ident_cont_above, operator_char_above, lex_number-IsScan,
}
use thrax.Lexer.Quoted.{lex_comment-IsScan, lex_string-IsScan}

-- ## No table has the kind of the end.

abbrev proper : Option Kind → Bool
proper none = true
proper (some k) = not (ends k)

negated : (b : Bool) → not b ≡ true → b ≡ false
negated b h = ground arith

table_keywords : all (λ (e : StrId × Kind). not (ends e.1)) keywords ≡ true
table_keywords = refl

table_delimiters : all (λ (e : ℕ × Kind). not (ends e.1)) delimiters ≡ true
table_delimiters = refl

table_operators : all (λ d. not (ends (kind d))) operators ≡ true
unfolding kind
table_operators = refl

keyword_proper : (s : StrId) → ends (keyword_or_word s) ≡ false
unfolding keyword_or_word lookup_str
keyword_proper s = elim (Option-cases (first (λ e. eq_str e.0 s) keywords)) [
  | inl n ↦ rw n refl
  | inr (x, n) ↦ rw n (
      negated (ends x.1) (
        all_member (λ (e : StrId × Kind). not (ends e.1)) (λ e. eq_str e.0 s) keywords x
          table_keywords n))
]

operator_proper : (s : StrId) (k : Kind) → operator s ≡ some k → ends k ≡ false
operator_proper s k e =
    let (d, f, q) = found s k e in
    rw q at (
      negated (ends (kind d)) ((find_op_passes (λ d. not (ends (kind d))) s d table_operators f).0))

delimiter_proper : (b : ℕ) (k : Kind) → delimiter b ≡ some k → ends k ≡ false
unfolding delimiter
delimiter_proper b k e = elim (Option-cases (first (λ e. e.0 == b) delimiters)) [
  | inl n ↦ absurd (impossible (rw n at e))
  | inr (x, n) ↦ rw (some_inj.0 (rw n at e)) at (
      negated (ends x.1) (
        all_member (λ (e : ℕ × Kind). not (ends e.1)) (λ e. e.0 == b) delimiters x table_delimiters
          n))
]
  where
    impossible : ◌≡◌ {A = Option Kind} none (some k) → ⊥
    impossible q = cc

delimiter_above : (b : ℕ) (k : Kind) → delimiter b ≡ some k → 10 < b
unfolding delimiter
delimiter_above b k e = elim (Option-cases (first (λ e. e.0 == b) delimiters)) [
  | inl n ↦ absurd (impossible (rw n at e))
  | inr (x, n) ↦
      let (above, same) =
        first_passes (λ (e : ℕ × Kind). ltb 10 e.0) (λ e. e.0 == b) delimiters x table_above n in
      ground (arith, above, same)
]
  where
    impossible : ◌≡◌ {A = Option Kind} none (some k) → ⊥
    impossible q = cc

    table_above : all (λ (e : ℕ × Kind). ltb 10 e.0) delimiters ≡ true
    table_above = refl

-- ## Names and operators

cont_plain : (b : ℕ) → is_ident_cont b ≡ true → b ≢ 10
cont_plain b h e = omega (arith, ident_cont_above b h)

start_cont : (b : ℕ) → is_ident_start b ≡ true → is_ident_cont b ≡ true
unfolding is_ident_start is_ident_cont
start_cont b h = ground arith

lex_intrinsic-IsScan : (c : Cursor) → (cur c == b'@') ≡ true → IsScan c (lex_intrinsic c)
unfolding lex_intrinsic
lex_intrinsic-IsScan c h =
    if_cases (IsScan c) (is_ident_start (cur (skip 1 c))) _ _
      (λ e. mk-IsScan Kind.at c (scan_while is_ident_cont (skip 1 c)) refl (
        go_further (skip-Forward 1 c (omega arith) (plain1 c.rest (ground arith)))
          (scan_while-Consumes is_ident_cont (skip 1 c) cont_plain)))
      (λ e. fail-IsScan unknown_symbol c (skip 1 c) refl)

lex_word-IsScan : (c : Cursor) → is_ident_start (cur c) ≡ true → IsScan c (lex_word c)
unfolding lex_word
lex_word-IsScan c h =
    let d = scan_while is_ident_cont c in
    mk-IsScan (keyword_or_word (text_of (slice_from c d))) c d
      (keyword_proper (text_of (slice_from c d)))
      (scan_while-Forward is_ident_cont c cont_plain (omega (arith, ident_start_above (cur c) h))
        (start_cont (cur c) h))

operator_end-Forward : (c : Cursor) → is_operator_char (cur c) ≡ true → Forward c (operator_end c)
unfolding operator_end
operator_end-Forward c h =
    let above = operator_char_above (cur c) h in
    if_cases (Forward c) (cur c == b'\\') _ _
      (λ e. skip-Forward 1 c (omega arith) (plain1 c.rest above))
      (λ e.
        scan_while-Forward (λ b. is_operator_char b && not (b == b'\\')) c plain
          (omega (arith, above)) (rw h (rw e refl)))
  where
    plain : (b : ℕ) → (is_operator_char b && not (b == b'\\')) ≡ true → b ≢ 10
    plain b k e =
        omega
          (arith, operator_char_above b ((&&-eq-true (is_operator_char b) (not (b == b'\\')) k).0))

operator_token-IsScan :
    (c d : Cursor) (s : StrId) (o : Option Kind)
    → operator s ≡ o
    → Forward c d
    → d.base ≡ c.base
    → IsScan c (operator_token c d o)
operator_token-IsScan c d s none e f b = fail-IsScan unknown_symbol c d b
operator_token-IsScan c d s (some k) e f b = mk-IsScan k c d (operator_proper s k e) f

lex_operator-IsScan : (c : Cursor) → is_operator_char (cur c) ≡ true → IsScan c (lex_operator c)
unfolding lex_operator
lex_operator-IsScan c h =
    let d = operator_end c in
    let f = operator_end-Forward c h in
    operator_token-IsScan c d (text_of (slice_from c d)) (operator (text_of (slice_from c d))) refl
      f f.0.1.based

-- ## One token

delimiter_token-IsScan :
    (c : Cursor) (o : Option Kind) → delimiter (cur c) ≡ o → IsScan c (delimiter_token c o)
delimiter_token-IsScan c none e = fail-IsScan (unexpected (cur c)) c (skip 1 c) refl
delimiter_token-IsScan c (some k) e =
    mk-IsScan k c (skip 1 c) (delimiter_proper (cur c) k e)
      (skip-Forward 1 c (omega arith) (plain1 c.rest (delimiter_above (cur c) k e)))

dispatch-IsScan :
    (parse_float : Bytes → Option Float) (c : Cursor) → IsScan c (dispatch parse_float c)
unfolding dispatch
dispatch-IsScan parse_float c = if_cases (IsScan c) (cur c == b'#') _ _ (lex_comment-IsScan c) (λ a.
    if_cases (IsScan c) (cur c == b'"') _ _ (lex_string-IsScan c) (λ b.
      if_cases (IsScan c) (cur c == b'@') _ _ (lex_intrinsic-IsScan c) (λ d.
        if_cases (IsScan c) (at_hole c) _ _
          (λ e. mk-IsScan word c (skip 3 c) refl (
            skip-Forward 3 c (omega arith)
              (plain3 c.rest (ground arith) (ground arith) (ground arith))))
          (λ e. if_cases (IsScan c) (is_digit (cur c)) _ _ (lex_number-IsScan parse_float c) (λ f.
            if_cases (IsScan c) (is_ident_start (cur c)) _ _ (lex_word-IsScan c) (λ g.
              if_cases (IsScan c) (is_operator_char (cur c)) _ _ (lex_operator-IsScan c) (λ h.
                if_cases (IsScan c) (cur c == b'.' && byte_at c 1 == b'.' && byte_at c 2 == b'.') _
                  _
                  (λ i. mk-IsScan ellipsis c (skip 3 c) refl (
                    skip-Forward 3 c (omega arith)
                      (plain3 c.rest (ground arith) (ground arith) (ground arith))))
                  (λ i. delimiter_token-IsScan c (delimiter (cur c)) refl))))))))

-- What one call of `lex_one` does: it skips white space to `start`, and at the end of the source makes
-- the end's token there; anywhere else it goes forward over a token that spans what it takes, or
-- stops at an error that begins where the token does.
pub record LexesOne (c : Cursor) (r : Lexed) : Type 0 where
  pub start : Cursor
  pub skipped : start ≡ skip_whitespace c
  pub blanks : Blanks c start
  pub lexed :
      ((start.rest ≡ []) × (r ≡ mk eof start start)) ⊎ ((0 < length start.rest) × IsScan start r)

lex_at-LexesOne :
    (parse_float : Bytes → Option Float) (c : Cursor) (bs : Bytes)
    → c.rest ≡ bs
    → ((c.rest ≡ []) × (lex_at parse_float c bs ≡ mk eof c c))
      ⊎ ((0 < length c.rest) × IsScan c (lex_at parse_float c bs))
lex_at-LexesOne parse_float c [] e = inl (e, refl)
lex_at-LexesOne parse_float c (b ∷ bs) e = inr (rw e (omega arith), dispatch-IsScan parse_float c)

-- Every call of `lex_one` is as `LexesOne` says.
pub lex_one-LexesOne :
    (parse_float : Bytes → Option Float) (c : Cursor) → LexesOne c (lex_one parse_float c)
unfolding lex_one
lex_one-LexesOne parse_float c = record {
  start = skip_whitespace c;
  skipped = refl;
  blanks = skip_whitespace-Blanks c;
  lexed = lex_at-LexesOne parse_float (skip_whitespace c) (skip_whitespace c).rest refl;
}
