-- ===== src/Lexer/Operators.antt =====
-- `lex_one` at the lexemes of the operator table.
use Prim.Native.Char.{code}
use Prim.Native.String
use thrax.Prelude.{
  ℕ, ◌+◌, ◌-◌, ◌≡◌, refl, sym, ◌∙◌, Bool, true, false, not, ◌&&◌, ◌||◌, ◌==◌, &&-eq-true, Option,
  some, [], ◌∷◌, ◌++◌, length, subst, arith, if_cases,
}
use thrax.Prelude.Names.{StrId, eq_str, eq_str→eq}
use thrax.Prelude.Chars.{text_of}
use thrax.Tokens.Kind.{
  Kind, Float, lexeme_of, operators, operator, is_digit, is_ident_start, is_operator_char,
}
use thrax.Tokens.Lookup.{all, find_op_passes}
use thrax.Tokens.Laws.{each, found}
use thrax.Lexer.Cursor.{Bytes, skip_whitespace, scan_while}
use thrax.Lexer.Scan.{cursor, operator_end, lex_operator, dispatch, lex_one}
use thrax.Lexer.Words.{Ends, IsRun, scan_while-run, take_run, read_word, codes, codes-IsRun}

-- A byte of a run of operator characters, which `\` ends
abbrev pub in_run : ℕ → Bool
in_run b = is_operator_char b && not (b == b'\\')

-- `\` alone, or a run
abbrev is_lexeme : StrId → Bool
is_lexeme String.[] = false
is_lexeme (String.◌∷◌ c String.[]) = is_operator_char (code c)
is_lexeme (String.◌∷◌ c s) = in_run (code c) && each in_run s

table_lexemes : all (λ d. is_lexeme (lexeme_of d)) operators ≡ true
unfolding is_operator_char
table_lexemes = refl

table_texts : all (λ d. eq_str (text_of (codes (lexeme_of d))) (lexeme_of d)) operators ≡ true
unfolding text_of
table_texts = refl

operator_text : (s : StrId) (k : Kind) → operator s ≡ some k → text_of (codes s) ≡ s
operator_text s k e =
    let (d, f, _) = found s k e in
    let (t, q) =
      find_op_passes (λ d. eq_str (text_of (codes (lexeme_of d))) (lexeme_of d)) s d table_texts
        f in
    eq_str→eq (text_of (codes s)) s (rw q at t)

operator-lexeme : (s : StrId) (k : Kind) → operator s ≡ some k → is_lexeme s ≡ true
operator-lexeme s k e =
    let (d, f, _) = found s k e in
    let (t, q) = find_op_passes (λ d. is_lexeme (lexeme_of d)) s d table_lexemes f in rw q at t

module _ (base at line : ℕ) where
  -- The two ways that a run ends
  operator_end_cases :
      (b : ℕ) (w bs : Bytes)
      → (b == b'\\' ≡ true
          → cursor base (at + 1) line (w ++ bs) ≡ cursor base (at + length (b ∷ w)) line bs)
      → (b == b'\\' ≡ false → IsRun in_run (b ∷ w))
      → Ends in_run bs
      → operator_end (cursor base at line (b ∷ w ++ bs)) ≡ cursor base (at + length (b ∷ w)) line bs
  unfolding operator_end
  operator_end_cases b w bs f g e =
      if_cases (λ r. r ≡ cursor base (at + length (b ∷ w)) line bs) (b == b'\\')
        (cursor base (at + 1) line (w ++ bs))
        (scan_while in_run (cursor base at line (b ∷ w ++ bs))) f
        (λ q. scan_while-run in_run base at line (b ∷ w) bs (g q) e)

  operator_end-run :
      (b : ℕ) (w bs : Bytes)
      → IsRun in_run (b ∷ w)
      → Ends in_run bs
      → operator_end (cursor base at line (b ∷ w ++ bs)) ≡ cursor base (at + length (b ∷ w)) line bs
  operator_end-run b w bs (h, hs) e =
      operator_end_cases b w bs (λ q. absurd (ground (arith, h, q))) (λ q. (h, hs)) e

  operator_end-one :
      (b : ℕ) (bs : Bytes)
      → is_operator_char b ≡ true
      → Ends in_run bs
      → operator_end (cursor base at line (b ∷ bs)) ≡ cursor base (at + 1) line bs
  operator_end-one b bs h e =
      operator_end_cases b [] bs (λ q. refl) (λ q. (ground (arith, h, q), tt)) e

  lex_operator-read :
      (w bs : Bytes) (k : Kind)
      → operator_end (cursor base at line (w ++ bs)) ≡ cursor base (at + length w) line bs
      → operator (text_of w) ≡ some k
      → lex_operator (cursor base at line (w ++ bs)) ≡ read_word base at line k w bs
  unfolding lex_operator
  lex_operator-read w bs k e q =
      let back : at + length w - at ≡ length w = omega arith in
      rw e (rw back (rw (take_run w bs) (rw q refl)))

  module _ (parse_float : Bytes → Option Float) where
    lex_one-operator :
        (b : ℕ) (bs : Bytes)
        → is_operator_char b ≡ true
        → lex_one parse_float (cursor base at line (b ∷ bs))
          ≡ lex_operator (cursor base at line (b ∷ bs))
    unfolding lex_one dispatch skip_whitespace is_operator_char is_ident_start is_digit
    lex_one-operator b bs h =
        let blank : (b == b' ' || b == b'\t' || b == b'\r') ≡ false = ground (arith, h) in
        let newline : (b == b'\n') ≡ false = ground (arith, h) in
        let hash : (b == b'#') ≡ false = ground (arith, h) in
        let quote : (b == b'"') ≡ false = ground (arith, h) in
        let sign : (b == b'@') ≡ false = ground (arith, h) in
        let hole : (b == b'?') ≡ false = ground (arith, h) in
        let digit : is_digit b ≡ false = ground (arith, h) in
        let start : is_ident_start b ≡ false = ground (arith, h) in
        rw blank
          (rw newline (rw hash (rw quote (rw sign (rw hole (rw digit (rw start (rw h refl))))))))

module _ (parse_float : Bytes → Option Float) (base at line : ℕ) (k : Kind) (bs : Bytes) where
  lexeme_read :
      (s : StrId)
      → is_lexeme s ≡ true
      → Ends in_run bs
      → operator (text_of (codes s)) ≡ some k
      → lex_one parse_float (cursor base at line (codes s ++ bs))
        ≡ read_word base at line k (codes s) bs
  lexeme_read String.[] h e q = absurd (no h)
    where
      no : false ≡ true → ⊥
      no e = cc
  lexeme_read (String.◌∷◌ c String.[]) h e q =
      lex_one-operator base at line parse_float (code c) bs h
      ∙ lex_operator-read base at line (code c ∷ []) bs k
          (operator_end-one base at line (code c) bs h e) q
  lexeme_read (String.◌∷◌ c (String.◌∷◌ d s)) h e q =
      let (first, rest) = &&-eq-true (in_run (code c)) (each in_run (String.◌∷◌ d s)) h in
      let (char, _) = &&-eq-true (is_operator_char (code c)) (not (code c == b'\\')) first in
      let run = codes-IsRun in_run (String.◌∷◌ d s) rest in
      lex_one-operator base at line parse_float (code c) (codes (String.◌∷◌ d s) ++ bs) char
      ∙ lex_operator-read base at line (code c ∷ codes (String.◌∷◌ d s)) bs k
          (operator_end-run base at line (code c) (codes (String.◌∷◌ d s)) bs (first, run) e) q

  -- Where a source goes on with the bytes of a lexeme of the operator table, and then ends or goes on with
  -- a backslash or a byte that is no operator character, `lex_one` returns a token of the lexeme's kind
  -- that spans those bytes.
  pub lex_one_lexeme :
      (s : StrId)
      → operator s ≡ some k
      → Ends in_run bs
      → lex_one parse_float (cursor base at line (codes s ++ bs))
        ≡ read_word base at line k (codes s) bs
  lex_one_lexeme s h e =
      lexeme_read s (operator-lexeme s k h) e
        (subst (λ x. operator x ≡ some k) (sym (operator_text s k h)) h)
