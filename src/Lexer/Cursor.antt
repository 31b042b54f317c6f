-- ===== src/Lexer/Cursor.antt =====
-- The lexer's cursor, its tokens and errors, and the low-level scans. The source is a list of bytes,
-- and a cursor keeps what follows its offset, `rest`, in place of the whole source.
use thrax.Prelude.{
  ℕ, suc, ◌+◌, ◌-◌, Bool, ◌||◌, ◌==◌, List, [], ◌∷◌, take, drop, get_or, if◌then◌else◌,
}
use thrax.Tokens.Kind.{Kind}

abbrev pub Bytes : Type 0
Bytes = List ℕ

-- `Lexer::base` is the field `base`, `cursor` the field `at`.
pub record Cursor : Type 0 where
  pub base : ℕ
  pub at : ℕ
  pub line : ℕ
  pub rest : Bytes

-- `Span::new(from, to)` is the pair.
pub record Token : Type 0 where
  pub kind : Kind
  pub span : ℕ × ℕ
  pub line : ℕ

pub data Code : Type 0 where
  ascii_control_char non_ascii_char unclosed_quote invalid_escape : Code
  number_parsing_failure unknown_symbol int_literal_range : Code

-- A diagnostic without its message
pub record LexError : Type 0 where
  pub code : Code
  pub span : ℕ × ℕ
  pub line : ℕ

pub data Outcome : Type 0 where
  ok : Token → Outcome
  err : LexError → Outcome

-- What a scan leaves: the cursor, and the token or the error.
abbrev pub Lexed : Type 0
Lexed = Cursor × Outcome

-- `self.cursor += n`
abbrev pub skip : ℕ → Cursor → Cursor
skip n c = record c { at = c.at + n; rest = drop n c.rest }

-- `self.at(self.cursor + i)`: 0 past the end
abbrev pub byte_at : Cursor → ℕ → ℕ
byte_at c i = get_or c.rest i 0

abbrev pub cur : Cursor → ℕ
cur c = byte_at c 0

-- `self.slice_from(start)`, where `start` is an earlier cursor
abbrev pub slice_from : Cursor → Cursor → Bytes
slice_from start c = take (c.at - start.at) start.rest

abbrev pub span_from : Cursor → Cursor → ℕ × ℕ
span_from start c = (c.base + start.at, c.base + c.at)

abbrev pub mk : Kind → Cursor → Cursor → Lexed
mk k start c = (c, ok (record { kind = k; span = span_from start c; line = start.line }))

abbrev pub fail : Code → Cursor → Cursor → Lexed
fail e start c = (c, err (record { code = e; span = span_from start c; line = start.line }))

-- `skip_whitespace`, from an offset and a line
unfoldable pub skip_from : ℕ → ℕ → ℕ → Bytes → Cursor
skip_from base at line [] = record { base = base; at = at; line = line; rest = [] }
skip_from base at line (c ∷ cs) =
    let blank = skip_from base (at + 1) line cs in
    let newline = skip_from base (at + 1) (line + 1) cs in
    if c == b' ' || c == b'\t' || c == b'\r'
    then blank
    else if c == b'\n'
    then newline
    else record { base = base; at = at; line = line; rest = c ∷ cs }

unfoldable pub skip_whitespace : Cursor → Cursor
unfolding skip_from
skip_whitespace c = skip_from c.base c.at c.line c.rest

-- How many bytes a scan takes
unfoldable pub count_while : (ℕ → Bool) → Bytes → ℕ
count_while member [] = 0
count_while member (c ∷ cs) = let more = count_while member cs in if member c then suc more else 0

abbrev pub scan_while : (ℕ → Bool) → Cursor → Cursor
scan_while member c = skip (count_while member c.rest) c

abbrev pub scan_while_digit_or_sep : (ℕ → Bool) → Cursor → Cursor
scan_while_digit_or_sep member c = scan_while (λ b. member b || b == b'_') c
