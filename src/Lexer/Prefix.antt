-- ===== src/Lexer/Prefix.antt =====
-- `tokenize_prefix` against `lex_one` and `tokenize_with_comments`: the tokens read before the first
-- error, and where that error begins.
use thrax.Prelude.{
  ℕ, zero, suc, ◌+◌, ◌≡◌, refl, sym, ap, ◌∙◌, false, ◌||◌, ◌==◌, inl, inr, Option, List, [], ◌∷◌,
  ◌++◌, length, arith, Bool-cases,
}
use thrax.Tokens.Kind.{Float}
use thrax.Lexer.Cursor.{
  Bytes, Cursor, Token, LexError, Lexed, ok, err, span_from, skip_from, skip_whitespace,
}
use thrax.Lexer.Scan.{cursor, lex_at, lex_one}
use thrax.Lexer.Stream.{
  Result, done, failed, panicked, out_of_fuel, is_eof, pushed, all_tokens, comments_from,
  tokenize_with_comments, prefix_tokens, pushed_before, prefix_from, tokenize_prefix,
}
use thrax.Lexer.Consumes.{Stops, skip_whitespace-Blanks}
use thrax.Lexer.One.{LexesOne, lex_one-LexesOne}

-- ## White space is skipped once

skip_from-Stops :
    (base at line : ℕ) (bs : Bytes) → Stops bs → skip_from base at line bs ≡ cursor base at line bs
unfolding skip_from
skip_from-Stops base at line [] h = refl
skip_from-Stops base at line (b ∷ bs) h =
    let blank : (b == b' ' || b == b'\t' || b == b'\r') ≡ false = ground (arith, h) in
    let newline : (b == b'\n') ≡ false = ground (arith, h) in rw blank (rw newline refl)

skip_whitespace-skip_whitespace :
    (c : Cursor) → skip_whitespace (skip_whitespace c) ≡ skip_whitespace c
unfolding skip_whitespace
skip_whitespace-skip_whitespace c =
    let d = skip_whitespace c in
    skip_from-Stops d.base d.at d.line d.rest ((skip_whitespace-Blanks c).stops)

module _ (parse_float : Bytes → Option Float) where
  -- Lexing from one cursor to another reads these tokens, comments included, none of them the end's.
  pub data ReadsAll : Cursor → List Token → Cursor → Type 0 where
    stays : (c : Cursor) → ReadsAll c [] c
    reads :
        (t : Token) {c d e : Cursor} {ts : List Token}
        → lex_one parse_float c ≡ (d, ok t)
        → is_eof t ≡ false
        → ReadsAll d ts e
        → ReadsAll c (t ∷ ts) e

  -- What is read from `start` before the error: the tokens `us`, and then `lex_one` fails with `e`.
  pub record StopsAt (start : Cursor) (us : List Token) (e : LexError) : Type 0 where
    pub before : Cursor
    pub after : Cursor
    pub read : ReadsAll start us before
    pub wrong : lex_one parse_float before ≡ (after, err e)

  -- Where the source lexes from `start`, all its tokens but the last, and `end`; where lexing stops at an
  -- error, the tokens read from `start` before it, and the offset at which it begins.
  abbrev pub IsPrefix : Cursor → ℕ → Result (List Token) → Result (List Token × ℕ) → Type 0
  IsPrefix start end (done ts) p =
      (us : List Token) × (t : Token) × (ts ≡ us ++ t ∷ []) × (p ≡ done (us, end))
  IsPrefix start end (failed e) p =
      (us : List Token) × StopsAt start us e × (p ≡ done (us, e.span.0))
  IsPrefix start end panicked p = p ≡ panicked
  IsPrefix start end out_of_fuel p = p ≡ out_of_fuel

  lex_one-skip_whitespace :
      (c : Cursor) → lex_one parse_float (skip_whitespace c) ≡ lex_one parse_float c
  unfolding lex_one
  lex_one-skip_whitespace c =
      ap (λ d. lex_at parse_float d d.rest) (skip_whitespace-skip_whitespace c)

  -- ## The loop

  prefix_push :
      (end : ℕ) (t : Token) (c d : Cursor) (r : Result (List Token)) (p : Result (List Token × ℕ))
      → lex_one parse_float c ≡ (d, ok t)
      → is_eof t ≡ false
      → IsPrefix d end r p
      → IsPrefix c end (pushed t r) (pushed_before t p)
  prefix_push end t c d (done ts) p l h (us, u, q, x) = rw x (t ∷ us, u, ap (λ r. t ∷ r) q, refl)
  prefix_push end t c d (failed w) p l h (us, s, x) = rw x (
    t ∷ us,
    record { before = s.before; after = s.after; read = reads t l h s.read; wrong = s.wrong },
    refl,
  )
  prefix_push end t c d panicked p l h x = rw x refl
  prefix_push end t c d out_of_fuel p l h x = rw x refl

  prefix_round :
      (end : ℕ) (c : Cursor) (r : Lexed) (rest : Cursor → Result (List Token))
      (next : Cursor → Result (List Token × ℕ))
      → c.base ≡ 0
      → lex_one parse_float c ≡ r
      → LexesOne c r
      → ((d : Cursor) → d.base ≡ 0 → IsPrefix d end (rest d) (next d))
      → IsPrefix c end (all_tokens r rest) (prefix_tokens end (skip_whitespace c) r next)
  prefix_round end c (d, err e) rest next z w l f =
      let s : StopsAt c [] e = record { before = c; after = d; read = stays c; wrong = w } in
      ([], s, ap (λ k. done ([], k)) at)
    where
      no : {t : Token} {s : Cursor} → ◌≡◌ {A = Lexed} (d, err e) (s, ok t) → ⊥
      no q = cc

      spanned : e.span ≡ span_from l.start d → e.span.0 ≡ d.base + l.start.at
      spanned q = ap (λ (x : ℕ × ℕ). x.0) q

      origin : d.base ≡ l.start.base → l.start.at ≡ d.base + l.start.at
      origin y = omega (arith, z, y, l.blanks.takes.based)

      at : (skip_whitespace c).at ≡ e.span.0
      at = elim l.lexed [
        | inl (_, q) ↦ absurd (no q)
        | inr (_, i) ↦ ap (λ (s : Cursor). s.at) (sym l.skipped) ∙ origin i.0 ∙ sym (spanned i.1)
      ]
  prefix_round end c (d, ok t) rest next z w l f = elim (Bool-cases (is_eof t)) [
    | inl e ↦ rw e ([], t, refl, refl)
    | inr e ↦ rw e (
        prefix_push end t c d (rest d) (next d) w e (
          f d (elim l.lexed [
            | inl (_, q) ↦ ap (λ (r : Lexed). r.0.base) q ∙ l.blanks.takes.based ∙ z
            | inr (_, i) ↦ i.0.0.1.based ∙ l.blanks.takes.based ∙ z
          ])))
  ]

  prefix_from-comments_from :
      (end f : ℕ) (c : Cursor)
      → c.base ≡ 0
      → IsPrefix c end (comments_from parse_float f c) (prefix_from parse_float end f c)
  unfolding comments_from prefix_from
  prefix_from-comments_from end zero c z = refl
  prefix_from-comments_from end (suc f) c z = rw (lex_one-skip_whitespace c) (
      prefix_round end c (lex_one parse_float c) (comments_from parse_float f)
        (prefix_from parse_float end f) z refl (lex_one-LexesOne parse_float c)
        (prefix_from-comments_from end f))

  -- `tokenize_prefix` gives, where `tokenize_with_comments` returns tokens, all of them but the last and
  -- the source's length; where it fails, the tokens that `lex_one` reads one after the other from the
  -- source's start up to where it fails with that error, and the offset at which the error begins.
  pub tokenize_prefix-tokenize_with_comments :
      (src : Bytes)
      → IsPrefix
          (cursor 0 0 1 src)
          (length src)
          (tokenize_with_comments parse_float src)
          (tokenize_prefix parse_float src)
  unfolding tokenize_with_comments tokenize_prefix
  tokenize_prefix-tokenize_with_comments src =
      prefix_from-comments_from (length src) (suc (length src)) (cursor 0 0 1 src) refl
