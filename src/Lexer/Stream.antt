-- ===== src/Lexer/Stream.antt =====
-- The buffered cursor over tokens, `Lexer`, and the whole-source functions. The parse of an `f64` is a
-- parameter; the fuel bounds a loop's rounds.
use thrax.Prelude.{
  ℕ, zero, suc, ◌+◌, Bool, true, false, leb, Option, none, some, List, [], ◌∷◌, ◌++◌, get_elem?,
  length, if◌then◌else◌,
}
use thrax.Tokens.Kind.{Kind, Float, comment, eof}
use thrax.Lexer.Cursor.{Bytes, Cursor, Token, LexError, Lexed, ok, err, skip_whitespace}
use thrax.Lexer.Scan.{cursor, lex_one}

-- `scanner` is the fields `src`, `base`, `cursor` and `line`.
pub record Lexer : Type 0 where
  pub scanner : Cursor
  pub buffer : List Token
  pub pos : ℕ

-- `panicked` is an index out of bounds, and `out_of_fuel` has no counterpart.
pub data Result {ℓ} (A : Type ℓ) : Type ℓ where
  done : A → Result A
  failed : LexError → Result A
  panicked out_of_fuel : Result A

unfoldable pub new : Bytes → Lexer
new src = record { scanner = cursor 0 0 1 src; buffer = []; pos = 0 }

unfoldable pub sub : Bytes → ℕ → ℕ → Lexer
sub src base line = record { scanner = cursor base 0 line src; buffer = []; pos = 0 }

abbrev pub comments : Kind → Bool
comments comment = true
comments _ = false

abbrev pub is_comment : Token → Bool
is_comment t = comments t.kind

abbrev pub ends : Kind → Bool
ends eof = true
ends _ = false

abbrev pub is_eof : Token → Bool
is_eof t = ends t.kind

-- ## Buffering

-- A round of `ensure`, given the loop
abbrev pub ensured : Lexer → Lexed → (Lexer → Lexer × Result (Unit {0})) → Lexer × Result (Unit {0})
ensured lx (c, err e) next = (record lx { scanner = c }, failed e)
ensured lx (c, ok t) next =
    if is_comment t
    then next (record lx { scanner = c })
    else next (record lx { scanner = c; buffer = lx.buffer ++ t ∷ [] })

abbrev pub token_at : Option Token → Result Token
token_at none = panicked
token_at (some t) = done t

abbrev pub then_token : ℕ → Lexer × Result (Unit {0}) → Lexer × Result Token
then_token n (lx, done u) = (lx, token_at (get_elem? lx.buffer (lx.pos + n)))
then_token n (lx, failed e) = (lx, failed e)
then_token n (lx, panicked) = (lx, panicked)
then_token n (lx, out_of_fuel) = (lx, out_of_fuel)

abbrev pub consume : Lexer × Result Token → Lexer × Result Token
consume (lx, done t) = (if is_eof t then lx else record lx { pos = lx.pos + 1 }, done t)
consume (lx, r) = (lx, r)

module _ (parse_float : Bytes → Option Float) where
  unfoldable pub ensure : ℕ → ℕ → Lexer → Lexer × Result (Unit {0})
  unfolding lex_one
  ensure zero n lx = (lx, out_of_fuel)
  ensure (suc f) n lx =
      let more = ensured lx (lex_one parse_float lx.scanner) (ensure f n) in
      if leb (length lx.buffer) (lx.pos + n) then more else (lx, done tt)

  unfoldable pub peek : ℕ → ℕ → Lexer → Lexer × Result Token
  unfolding ensure
  peek f n lx = then_token n (ensure f n lx)

  unfoldable pub next_token : ℕ → Lexer → Lexer × Result Token
  unfolding ensure
  next_token f lx = consume (then_token 0 (ensure f 0 lx))

unfoldable pub mark : Lexer → ℕ
mark lx = lx.pos

unfoldable pub reset : ℕ → Lexer → Lexer
reset m lx = record lx { pos = m }

-- ## Whole sources

-- What a loop that pushes tokens returns, with one more in front
abbrev pub pushed : Token → Result (List Token) → Result (List Token)
pushed t (done ts) = done (t ∷ ts)
pushed t r = r

abbrev pub all_tokens : Lexed → (Cursor → Result (List Token)) → Result (List Token)
all_tokens (c, err e) next = failed e
all_tokens (c, ok t) next = if is_eof t then done (t ∷ []) else pushed t (next c)

abbrev pub next_tokens : Lexer × Result Token → (Lexer → Result (List Token)) → Result (List Token)
next_tokens (lx, done t) next = if is_eof t then done (t ∷ []) else pushed t (next lx)
next_tokens (lx, failed e) next = failed e
next_tokens (lx, panicked) next = panicked
next_tokens (lx, out_of_fuel) next = out_of_fuel

abbrev pub pushed_before : Token → Result (List Token × ℕ) → Result (List Token × ℕ)
pushed_before t (done r) = done (t ∷ r.0, r.1)
pushed_before t r = r

-- The tokens before the first error, and where lexing stopped: `end` is the source's length.
abbrev pub prefix_tokens :
    ℕ → Cursor → Lexed → (Cursor → Result (List Token × ℕ)) → Result (List Token × ℕ)
prefix_tokens end start (c, err e) next = done ([], start.at)
prefix_tokens end start (c, ok t) next =
    if is_eof t then done ([], end) else pushed_before t (next c)

module _ (parse_float : Bytes → Option Float) where
  unfoldable pub comments_from : ℕ → Cursor → Result (List Token)
  unfolding lex_one
  comments_from zero c = out_of_fuel
  comments_from (suc f) c = all_tokens (lex_one parse_float c) (comments_from f)

  unfoldable pub tokenize_with_comments : Bytes → Result (List Token)
  unfolding comments_from
  tokenize_with_comments src = comments_from (suc (length src)) (cursor 0 0 1 src)

  unfoldable pub tokens_from : ℕ → ℕ → Lexer → Result (List Token)
  unfolding next_token
  tokens_from g zero lx = out_of_fuel
  tokens_from g (suc f) lx = next_tokens (next_token parse_float g lx) (tokens_from g f)

  unfoldable pub tokenize : Bytes → Result (List Token)
  unfolding tokens_from new
  tokenize src = tokens_from (suc (suc (length src))) (suc (length src)) (new src)

  unfoldable pub prefix_from : ℕ → ℕ → Cursor → Result (List Token × ℕ)
  unfolding lex_one skip_whitespace
  prefix_from end zero c = out_of_fuel
  prefix_from end (suc f) c =
      prefix_tokens end (skip_whitespace c) (lex_one parse_float (skip_whitespace c))
        (prefix_from end f)

  unfoldable pub tokenize_prefix : Bytes → Result (List Token × ℕ)
  unfolding prefix_from
  tokenize_prefix src = prefix_from (length src) (suc (length src)) (cursor 0 0 1 src)
