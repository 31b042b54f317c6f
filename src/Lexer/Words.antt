-- ===== src/Lexer/Words.antt =====
-- `lex_one` at identifiers and keywords.
use Prim.Native.Char.{code}
use Prim.Native.String
use thrax.Prelude.{
  Bool, ℕ, suc, ◌+◌, ◌-◌, ◌≡◌, refl, ap, ◌∙◌, true, false, ◌||◌, ◌==◌, &&-eq-true, Option, none,
  some, Option-cases, [], ◌∷◌, ◌++◌, length, take, drop, All, arith, inl, inr,
}
use thrax.Prelude.Names.{StrId, eq_str, eq_str→eq}
use thrax.Prelude.Chars.{text_of}
use thrax.Tokens.Kind.{
  Kind, Float, keywords, first, lookup_str, keyword_or_word, is_digit, is_ident_start,
  is_ident_cont,
}
use thrax.Tokens.Lookup.{all, first_passes}
use thrax.Tokens.Laws.{each}
use thrax.Tokens.Words.{is_ident, keyword_ident}
use thrax.Lexer.Cursor.{Bytes, Lexed, skip_whitespace, count_while, scan_while, mk}
use thrax.Lexer.Scan.{cursor, dispatch, lex_word, lex_one}

module _ (member : ℕ → Bool) where
  -- The source goes on with no byte of the class.
  abbrev pub Ends : Bytes → Type 0
  Ends [] = Unit
  Ends (b ∷ bs) = member b ≡ false

  abbrev pub IsRun : Bytes → Type 0
  IsRun w = All (λ b. member b ≡ true) w

  -- ## The scan

  pub count_while-run : (w bs : Bytes) → IsRun w → Ends bs → count_while member (w ++ bs) ≡ length w
  unfolding count_while
  count_while-run [] [] h e = refl
  count_while-run [] (b ∷ bs) h e = rw e refl
  count_while-run (b ∷ w) bs (h, hs) e = rw h (ap suc (count_while-run w bs hs e))

pub take_run : (w bs : Bytes) → take (length w) (w ++ bs) ≡ w
take_run [] bs = refl
take_run (b ∷ w) bs = ap (λ x. b ∷ x) (take_run w bs)

pub drop_run : (w bs : Bytes) → drop (length w) (w ++ bs) ≡ bs
drop_run [] bs = refl
drop_run (b ∷ w) bs = drop_run w bs

pub scan_while-run :
    (member : ℕ → Bool) (base at line : ℕ) (w bs : Bytes)
    → IsRun member w
    → Ends member bs
    → scan_while member (cursor base at line (w ++ bs)) ≡ cursor base (at + length w) line bs
scan_while-run member base at line w bs h e =
    rw (count_while-run member w bs h e) (rw (drop_run w bs) refl)

start_cont : (b : ℕ) → is_ident_start b ≡ true → is_ident_cont b ≡ true
unfolding is_ident_start is_ident_cont
start_cont b h = ground arith

-- The token of a word's bytes, and the cursor behind them
abbrev pub read_word : ℕ → ℕ → ℕ → Kind → Bytes → Bytes → Lexed
read_word base at line k w bs =
    mk k (cursor base at line (w ++ bs)) (cursor base (at + length w) line bs)

module _ (base at line : ℕ) where
  lex_word-read :
      (w bs : Bytes)
      → IsRun is_ident_cont w
      → Ends is_ident_cont bs
      → lex_word (cursor base at line (w ++ bs))
        ≡ read_word base at line (keyword_or_word (text_of w)) w bs
  unfolding lex_word
  lex_word-read w bs h e =
      let back : at + length w - at ≡ length w = omega arith in
      rw (count_while-run is_ident_cont w bs h e)
        (rw back (rw (take_run w bs) (rw (drop_run w bs) refl)))

  module _ (parse_float : Bytes → Option Float) where
    skip_at-word :
        (b : ℕ) (bs : Bytes)
        → is_ident_start b ≡ true
        → skip_whitespace (cursor base at line (b ∷ bs)) ≡ cursor base at line (b ∷ bs)
    unfolding skip_whitespace is_ident_start
    skip_at-word b bs h =
        let blank : (b == b' ' || b == b'\t' || b == b'\r') ≡ false = ground (arith, h) in
        let newline : (b == b'\n') ≡ false = ground (arith, h) in rw blank (rw newline refl)

    dispatch-word :
        (b : ℕ) (bs : Bytes)
        → is_ident_start b ≡ true
        → dispatch parse_float (cursor base at line (b ∷ bs))
          ≡ lex_word (cursor base at line (b ∷ bs))
    unfolding dispatch is_ident_start is_digit
    dispatch-word b bs h =
        let hash : (b == b'#') ≡ false = ground (arith, h) in
        let quote : (b == b'"') ≡ false = ground (arith, h) in
        let sign : (b == b'@') ≡ false = ground (arith, h) in
        let hole : (b == b'?') ≡ false = ground (arith, h) in
        let digit : is_digit b ≡ false = ground (arith, h) in
        rw hash (rw quote (rw sign (rw hole (rw digit (rw h refl)))))

    -- Where a source goes on with a byte that begins an identifier, bytes that continue it, and then none
    -- that does, `lex_one` reads those bytes and no more: the token has their span and line, and is the
    -- keyword that they spell, or a word.
    pub lex_one_word :
        (b : ℕ) (w bs : Bytes)
        → is_ident_start b ≡ true
        → IsRun is_ident_cont w
        → Ends is_ident_cont bs
        → lex_one parse_float (cursor base at line (b ∷ w ++ bs))
          ≡ read_word base at line (keyword_or_word (text_of (b ∷ w))) (b ∷ w) bs
    unfolding lex_one
    lex_one_word b w bs h hs e =
        rw (skip_at-word b (w ++ bs) h)
          (dispatch-word b (w ++ bs) h ∙ lex_word-read (b ∷ w) bs (start_cont b h, hs) e)

-- ## Keywords

-- A text's bytes: the texts below are of ASCII characters.
abbrev pub codes : StrId → Bytes
codes String.[] = []
codes (String.◌∷◌ c s) = code c ∷ codes s

pub codes-IsRun : (member : ℕ → Bool) (s : StrId) → each member s ≡ true → IsRun member (codes s)
codes-IsRun member String.[] h = tt
codes-IsRun member (String.◌∷◌ c s) h =
    let (e, r) = &&-eq-true (member (code c)) (each member s) h in (e, codes-IsRun member s r)

table_texts : all (λ e. eq_str (text_of (codes e.0)) e.0) keywords ≡ true
unfolding text_of
table_texts = refl

keyword_text : (s : StrId) (k : Kind) → lookup_str keywords s ≡ some k → text_of (codes s) ≡ s
unfolding lookup_str
keyword_text s k e = elim (Option-cases (first (λ x. eq_str x.0 s) keywords)) [
  | inl n ↦ absurd (impossible (rw n at e))
  | inr (x, n) ↦
      let (a, b) =
        first_passes (λ x. eq_str (text_of (codes x.0)) x.0) (λ x. eq_str x.0 s) keywords x
          table_texts n in
      eq_str→eq (text_of (codes s)) s (rw (eq_str→eq x.0 s b) at a)
]
  where
    impossible : ◌≡◌ {A = Option Kind} none (some k) → ⊥
    impossible q = cc

keyword_kind :
    (s : StrId) (k : Kind)
    → lookup_str keywords s ≡ some k
    → keyword_or_word (text_of (codes s)) ≡ k
unfolding keyword_or_word
keyword_kind s k e = rw (keyword_text s k e) (rw e refl)

module _ (parse_float : Bytes → Option Float) (base at line : ℕ) (k : Kind) (bs : Bytes) where
  ident_read :
      (s : StrId)
      → is_ident s ≡ true
      → Ends is_ident_cont bs
      → keyword_or_word (text_of (codes s)) ≡ k
      → lex_one parse_float (cursor base at line (codes s ++ bs))
        ≡ read_word base at line k (codes s) bs
  ident_read String.[] h e q = absurd (no h)
    where
      no : false ≡ true → ⊥
      no e = cc
  ident_read (String.◌∷◌ c s) h e q =
      let (start, rest) = &&-eq-true (is_ident_start (code c)) (each is_ident_cont s) h in
      lex_one_word base at line parse_float (code c) (codes s) bs start
        (codes-IsRun is_ident_cont s rest) e
      ∙ ap (λ x. read_word base at line x (code c ∷ codes s) bs) q

  -- Where a source goes on with a keyword's bytes, and then no byte that continues an identifier,
  -- `lex_one` returns a token of the keyword's kind that spans those bytes.
  pub lex_one_keyword :
      (s : StrId)
      → lookup_str keywords s ≡ some k
      → Ends is_ident_cont bs
      → lex_one parse_float (cursor base at line (codes s ++ bs))
        ≡ read_word base at line k (codes s) bs
  lex_one_keyword s h e = ident_read s (keyword_ident s k h) e (keyword_kind s k h)
