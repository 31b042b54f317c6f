-- ===== src/Lexer/Left.antt =====
-- How much of the source one call of `lex_one` leaves to lex.
use thrax.Prelude.{◌≤◌, ◌<◌, ◌≡◌, ◌⊎◌, refl, ap, ◌∙◌, Bool, true, false, inl, inr, length, arith}
use thrax.Tokens.Kind.{Kind, eof}
use thrax.Lexer.Cursor.{Cursor, Token, Lexed, ok, err}
use thrax.Lexer.Stream.{comments, is_comment, ends, is_eof}
use thrax.Lexer.One.{LexesOne}
use thrax.Lexer.Tiles.{less}

-- After the end's token nothing is left; after any other there is less.
abbrev pub Leaves : Cursor → Cursor → Token → Type 0
Leaves c d t =
    ((is_eof t ≡ true) × (length d.rest ≡ 0))
    ⊎ ((is_eof t ≡ false) × (length d.rest < length c.rest))

pub lexed-Leaves : (c d : Cursor) (t : Token) → LexesOne c (d, ok t) → Leaves c d t
lexed-Leaves c d t l = elim l.lexed [
  | inl (e, q) ↦ inl (ap ends_at q, ap (λ (r : Lexed). length r.0.rest) q ∙ ap length e)
  | inr (p, i) ↦ inr (i.3, less l.blanks i.0)
]
  where
    ends_at : Lexed → Bool
    ends_at (d, ok t) = is_eof t
    ends_at (d, err e) = false

pub comment_goes_on : (t : Token) → is_comment t ≡ true → is_eof t ≡ false
comment_goes_on t h = kinds t.kind h
  where
    kinds : (k : Kind) → comments k ≡ true → ends k ≡ false
    kinds eof h = cc
    kinds _ h = refl

pub never_more : (c d : Cursor) (t : Token) → LexesOne c (d, ok t) → length d.rest ≤ length c.rest
never_more c d t o = elim (lexed-Leaves c d t o) [
  | inl (e, l) ↦ omega (arith, l)
  | inr (e, l) ↦ omega (arith, l)
]

pub past_less :
    (c d : Cursor) (t : Token)
    → LexesOne c (d, ok t)
    → is_comment t ≡ true
    → length d.rest < length c.rest
past_less c d t o k = elim (lexed-Leaves c d t o) [
  | inl (e, l) ↦ absurd (clash e (comment_goes_on t k))
  | inr (e, l) ↦ l
]
  where
    clash : {b : Bool} → b ≡ true → b ≡ false → ⊥
    clash y q = cc
