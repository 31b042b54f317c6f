-- ===== src/Lexer/Tiles.antt =====
-- The tokens of a whole source tile it: white space and lexemes, in order, make up the source.
use thrax.Prelude.{
  ℕ, zero, suc, ◌+◌, ◌<◌, ◌≡◌, ◌⊎◌, refl, sym, ap, ap₂, ◌∙◌, subst, true, false, All, inl, inr,
  Option, List, [], ◌∷◌, ◌++◌, length, length-append, arith,
}
use mathlib.Core.List.{append_assoc}
use thrax.Tokens.Kind.{Float, eof}
use thrax.Lexer.Cursor.{Bytes, Cursor, Token, LexError, Lexed, ok, err, span_from}
use thrax.Lexer.Scan.{cursor, lex_one}
use thrax.Lexer.Stream.{
  Result, done, failed, panicked, out_of_fuel, is_eof, pushed, all_tokens, comments_from,
  tokenize_with_comments,
}
use thrax.Lexer.Consumes.{
  newlines, newlines-append, Takes, nothing_taken, taken_twice, Stops, is_blank, Blanks,
}
use thrax.Lexer.Forward.{Forward, IsScan}
use thrax.Lexer.One.{LexesOne, lex_one-LexesOne}

-- At an offset and a line, what follows is white space and then the token's lexeme: its first byte is
-- not white space, the token spans it, and the token's line counts the newlines before it.
pub record Tile (at line : ℕ) (rest : Bytes) (t : Token) : Type 0 where
  pub blank : Bytes
  pub lexeme : Bytes
  pub more : Bytes
  pub whole : rest ≡ blank ++ (lexeme ++ more)
  pub is_white : All (λ b. is_blank b ≡ true) blank
  pub begins : Stops (lexeme ++ more)
  pub spans : t.span ≡ (at + length blank, at + length blank + length lexeme)
  pub lined : t.line ≡ line + newlines blank

-- The end's token has no lexeme and stands at the end; any other token has one, and the tokens after it tile
-- what follows.
abbrev pub Tiles : ℕ → ℕ → Bytes → List Token → Type 0
Tiles at line rest [] = ⊥
Tiles at line rest (t ∷ ts) =
    (p : Tile at line rest t) × (((is_eof t ≡ true) × (p.lexeme ≡ []) × (p.more ≡ []) × (ts ≡ []))
      ⊎ ((is_eof t ≡ false)
          × (0 < length p.lexeme)
          × Tiles (at + length p.blank + length p.lexeme)
              (line + newlines p.blank + newlines p.lexeme) p.more ts))

-- The error begins at a byte of what follows, on that byte's line.
pub record Begins (at line : ℕ) (rest : Bytes) (e : LexError) : Type 0 where
  pub taken : Bytes
  pub more : Bytes
  pub whole : rest ≡ taken ++ more
  pub inside : 0 < length more
  pub starts : e.span.0 ≡ at + length taken
  pub lined : e.line ≡ line + newlines taken

abbrev pub IsTiled : ℕ → ℕ → Bytes → Result (List Token) → Type 0
IsTiled at line rest (done ts) = Tiles at line rest ts
IsTiled at line rest (failed e) = Begins at line rest e
IsTiled at line rest panicked = ⊥
IsTiled at line rest out_of_fuel = ⊥

-- ## One token more

later :
    {at line : ℕ} {rest : Bytes} {e : LexError} (xs ys : Bytes)
    → rest ≡ xs ++ ys
    → Begins (at + length xs) (line + newlines xs) ys e
    → Begins at line rest e
later xs ys w p = record {
  taken = xs ++ p.taken;
  more = p.more;
  whole = w ∙ ap (λ r. xs ++ r) p.whole ∙ sym (append_assoc xs p.taken p.more);
  inside = p.inside;
  starts = omega (arith, p.starts, length-append xs p.taken);
  lined = omega (arith, p.lined, newlines-append xs p.taken);
}

pub left : {xs : Bytes} {c d : Cursor} → Takes xs c d → length c.rest ≡ length xs + length d.rest
left {xs} {c} {d} p = ap length p.whole ∙ length-append xs d.rest

module _ {c s : Cursor} (b : Blanks c s) where
  abbrev tile :
      {d : Cursor} {t : Token} (xs : Bytes)
      → c.base ≡ 0
      → Takes xs s d
      → t.span ≡ span_from s d
      → t.line ≡ s.line
      → Tile c.at c.line c.rest t
  tile {d} {t} xs z p q l = record {
    blank = b.taken;
    lexeme = xs;
    more = d.rest;
    whole = b.takes.whole ∙ ap (λ r. b.taken ++ r) p.whole;
    is_white = b.blank;
    begins = subst Stops p.whole b.stops;
    spans =
        q
        ∙ ap₂ (λ x y. (x, y)) (omega (arith, z, p.based, b.takes.based, b.takes.counted))
            (omega (arith, z, p.based, b.takes.based, b.takes.counted, p.counted));
    lined = l ∙ b.takes.lined;
  }

  tiled_at_end :
      s.rest ≡ []
      → c.base ≡ 0
      → Tiles c.at c.line c.rest
          (record { kind = eof; span = (s.base + s.at, s.base + s.at); line = s.line } ∷ [])
  tiled_at_end e z = (tile [] z (nothing_taken s) refl refl, inl (refl, refl, e, refl))

  tiled_longer :
      {d : Cursor} {t : Token} {ts : List Token}
      → c.base ≡ 0
      → (f : Forward s d) → t.span ≡ span_from s d
      → t.line ≡ s.line
      → is_eof t ≡ false
      → Tiles d.at d.line d.rest ts
      → Tiles c.at c.line c.rest (t ∷ ts)
  tiled_longer {d} {t} {ts} z ((xs, p), l) q n e h =
      let at = c.at + length b.taken + length xs in
      let same_at : d.at ≡ at = omega (arith, p.counted, b.takes.counted) in
      let same_line : d.line ≡ c.line + newlines b.taken + newlines xs =
        omega (arith, p.lined, b.takes.lined) in
      (
        tile xs z p q n,
        inr (
          e,
          omega (arith, l, p.counted),
          subst (λ k. Tiles at k d.rest ts) same_line
              (subst (λ k. Tiles k d.line d.rest ts) same_at h),
        ),
      )

-- Past white space and a token, there is less left.
module _ {c s d : Cursor} (b : Blanks c s) (f : Forward s d) where
  pub less : length d.rest < length c.rest
  less = omega (arith, left b.takes, left f.0.1, f.0.1.counted, f.1)

  based : d.base ≡ c.base
  based = f.0.1.based ∙ b.takes.based

  after : {e : LexError} → Begins d.at d.line d.rest e → Begins c.at c.line c.rest e
  after {e} p =
      let q = taken_twice b.taken f.0.0 b.takes f.0.1 in
      later (b.taken ++ f.0.0) d.rest q.whole (rw (← q.counted) (rw (← q.lined) p))

-- ## The loop

module _ (c : Cursor) (z : c.base ≡ 0) where
  failed-Begins :
      {s : Cursor} {e : LexError} (d : Cursor)
      → Blanks c s
      → 0 < length s.rest
      → IsScan s (d, err e)
      → Begins c.at c.line c.rest e
  failed-Begins {s} d b l (y, q, n) = record {
    taken = b.taken;
    more = s.rest;
    whole = b.takes.whole;
    inside = l;
    starts = ap (λ (x : ℕ × ℕ). x.0) q ∙ omega (arith, z, y, b.takes.based, b.takes.counted);
    lined = n ∙ b.takes.lined;
  }

  pushed-IsTiled :
      {s d : Cursor} (t : Token)
      → Blanks c s
      → IsScan s (d, ok t)
      → (r : Result (List Token)) → IsTiled d.at d.line d.rest r
      → IsTiled c.at c.line c.rest (pushed t r)
  pushed-IsTiled t b (f, q, n, e) (done ts) h = tiled_longer b z f q n e h
  pushed-IsTiled t b (f, q, n, e) (failed x) h = after b f h
  pushed-IsTiled t b (f, q, n, e) panicked h = h
  pushed-IsTiled t b (f, q, n, e) out_of_fuel h = h

  module _ (next : Cursor → Result (List Token))
      (rest_tiled : (d : Cursor)
        → d.base ≡ 0
        → length d.rest < length c.rest
        → IsTiled d.at d.line d.rest (next d)) where
    scanned :
        {s : Cursor}
        → Blanks c s
        → 0 < length s.rest
        → (r : Lexed) → IsScan s r
        → IsTiled c.at c.line c.rest (all_tokens r next)
    scanned b l (d, err e) i = failed-Begins d b l i
    scanned b l (d, ok t) i =
        rw i.3 (pushed-IsTiled t b i (next d) (rest_tiled d (based b i.0 ∙ z) (less b i.0)))

    round : (r : Lexed) → LexesOne c r → IsTiled c.at c.line c.rest (all_tokens r next)
    round r l = elim l.lexed [
      | inl (e, q) ↦ rw q (tiled_at_end l.blanks e z)
      | inr (p, i) ↦ scanned l.blanks p r i
    ]

module _ (parse_float : Bytes → Option Float) where
  pub comments_from-IsTiled :
      (f : ℕ) (c : Cursor)
      → c.base ≡ 0
      → length c.rest < f
      → IsTiled c.at c.line c.rest (comments_from parse_float f c)
  unfolding comments_from
  comments_from-IsTiled zero c z l = absurd (omega arith)
  comments_from-IsTiled (suc f) c z l =
      round c z (comments_from parse_float f)
        (λ d y k. comments_from-IsTiled f d y (omega (arith, k, l))) (lex_one parse_float c)
        (lex_one-LexesOne parse_float c)

  -- the tokens of a source, comments included, tile it from its first byte on line 1 to its end; or
  -- lexing stops at an error that begins at a byte of the source, on that byte's line. The loop's
  -- fuel is enough and no index is out of bounds.
  pub tokenize_with_comments-IsTiled :
      (src : Bytes) → IsTiled 0 1 src (tokenize_with_comments parse_float src)
  unfolding tokenize_with_comments
  tokenize_with_comments-IsTiled src =
      comments_from-IsTiled (suc (length src)) (cursor 0 0 1 src) refl (omega arith)
