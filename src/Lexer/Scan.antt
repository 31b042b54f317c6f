-- ===== src/Lexer/Scan.antt =====
-- `lex_one` and the scanners of comments, strings, intrinsics, words and operators.
use thrax.Prelude.{
  ℕ, zero, suc, ◌+◌, ◌-◌, Bool, true, false, not, ◌&&◌, ◌==◌, ltb, leb, Option, none, some, [], ◌∷◌,
  if◌then◌else◌,
}
use thrax.Prelude.Chars.{text_of}
use thrax.Tokens.Kind.{
  Kind, Float, str, word, ellipsis, comment, eof, keyword_or_word, operator, delimiter, is_digit,
  is_ident_start, is_ident_cont, is_operator_char,
}
use thrax.Lexer.Cursor.{
  Bytes, Cursor, Lexed, Code, ascii_control_char, non_ascii_char, unclosed_quote, unknown_symbol,
  skip, byte_at, cur, slice_from, mk, fail, skip_whitespace, count_while, scan_while,
}
use thrax.Lexer.Number.{lex_number}

abbrev pub cursor : ℕ → ℕ → ℕ → Bytes → Cursor
cursor base at line rest = record { base = base; at = at; line = line; rest = rest }

-- ## Comments

-- The loop of a block comment, at a depth: the cursor it stops at, and whether the comment is closed
unfoldable pub block : ℕ → ℕ → ℕ → ℕ → Bytes → Cursor × Bool
block base at line zero rest = (cursor base at line rest, true)
block base at line (suc d) [] = (cursor base at line [], false)
block base at line (suc d) (c ∷ []) =
    block base (at + 1) (if c == b'\n' then line + 1 else line) (suc d) []
block base at line (suc d) (c ∷ c' ∷ cs) =
    let deeper = block base (at + 2) line (suc (suc d)) cs in
    let out = block base (at + 2) line d cs in
    let on = block base (at + 1) (if c == b'\n' then line + 1 else line) (suc d) (c' ∷ cs) in
    if c == b'#' && c' == b'-' then deeper else if c == b'-' && c' == b'#' then out else on

abbrev pub closed_as : Kind → Cursor → Cursor × Bool → Lexed
closed_as k start (c, true) = mk k start c
closed_as k start (c, false) = fail unclosed_quote start c

abbrev pub block_from : Cursor → Cursor × Bool
block_from c = block c.base c.at c.line 1 c.rest

unfoldable pub lex_comment : Cursor → Lexed
unfolding block count_while
lex_comment start =
    if byte_at start 1 == b'-'
    then closed_as comment start (block_from (skip 2 start))
    else mk comment start (scan_while (λ c. not (c == b'\n')) start)

-- ## Strings

-- What a round of the loop does: it stops unclosed or closed, or moves on by one or two bytes. `nested`
-- is the loop of `skip_nested_string`, and `depth` counts an interpolant's parentheses.
pub data Move : Type 0 where
  stop close : Move
  one two : (nested : Bool) (depth : ℕ) → Move

abbrev pub next_is : ℕ → Option ℕ → Bool
next_is b none = false
next_is b (some c) = c == b

-- `\` and the byte after it, if that is on the line
abbrev pub escaped : Bool → ℕ → Option ℕ → Move
escaped nested depth none = one nested depth
escaped nested depth (some c) = if c == b'\n' then one nested depth else two nested depth

unfoldable pub move : Bool → ℕ → ℕ → Option ℕ → Move
move true depth c next =
    if c == b'\n'
    then stop
    else if c == b'\\'
    then escaped true depth next
    else if c == b'"'
    then one false depth
    else one true depth
move false depth c next =
    if c == b'\n'
    then stop
    else if c == b'\\' && depth == 0
    then escaped false depth next
    else if c == b'"' && depth == 0
    then close
    else if c == b'"'
    then one true depth
    else if c == b'?' && depth == 0 && next_is b'(' next
    then two false (depth + 1)
    else if c == b'(' && ltb 0 depth
    then one false (depth + 1)
    else if c == b')' && ltb 0 depth
    then one false (depth - 1)
    else one false depth

-- A round, given the loop from the next byte and from the one after it
abbrev pub moved :
    Cursor → Cursor → Move → (Bool → ℕ → Cursor × Bool) → (Bool → ℕ → Cursor × Bool) → Cursor × Bool
moved here after stop next1 next2 = (here, false)
moved here after close next1 next2 = (after, true)
moved here after (one nested depth) next1 next2 = next1 nested depth
moved here after (two nested depth) next1 next2 = next2 nested depth

unfoldable pub string_loop : ℕ → ℕ → ℕ → Bool → ℕ → Bytes → Cursor × Bool
unfolding move
string_loop base at line nested depth [] = (cursor base at line [], false)
string_loop base at line nested depth (c ∷ []) =
    moved (cursor base at line (c ∷ [])) (cursor base (at + 1) line []) (move nested depth c none)
      (λ n d. string_loop base (at + 1) line n d []) (λ n d. string_loop base (at + 1) line n d [])
string_loop base at line nested depth (c ∷ c' ∷ cs) =
    moved (cursor base at line (c ∷ c' ∷ cs)) (cursor base (at + 1) line (c' ∷ cs))
      (move nested depth c (some c')) (λ n d. string_loop base (at + 1) line n d (c' ∷ cs))
      (λ n d. string_loop base (at + 2) line n d cs)

abbrev pub string_from : Cursor → Cursor × Bool
string_from c = string_loop c.base c.at c.line false 0 c.rest

unfoldable pub lex_string : Cursor → Lexed
unfolding string_loop
lex_string start = closed_as str start (string_from (skip 1 start))

-- ## Names and operators

unfoldable pub lex_intrinsic : Cursor → Lexed
unfolding is_ident_start is_ident_cont count_while
lex_intrinsic start =
    if is_ident_start (cur (skip 1 start))
    then mk Kind.at start (scan_while is_ident_cont (skip 1 start))
    else fail unknown_symbol start (skip 1 start)

abbrev pub word_token : Cursor → Cursor → Lexed
word_token start c = mk (keyword_or_word (text_of (slice_from start c))) start c

unfoldable pub lex_word : Cursor → Lexed
unfolding is_ident_cont count_while keyword_or_word text_of
lex_word start = word_token start (scan_while is_ident_cont start)

abbrev pub operator_token : Cursor → Cursor → Option Kind → Lexed
operator_token start c (some k) = mk k start c
operator_token start c none = fail unknown_symbol start c

-- Where the run of operator characters ends; `\` is a token of its own.
unfoldable pub operator_end : Cursor → Cursor
unfolding is_operator_char count_while
operator_end c =
    if cur c == b'\\' then skip 1 c else scan_while (λ b. is_operator_char b && not (b == b'\\')) c

unfoldable pub lex_operator : Cursor → Lexed
unfolding operator_end operator text_of
lex_operator start =
    operator_token start (operator_end start)
      (operator (text_of (slice_from start (operator_end start))))

-- ## One token

-- `starts_with(HOLE)`
abbrev pub at_hole : Cursor → Bool
at_hole c = cur c == b'?' && byte_at c 1 == b'?' && byte_at c 2 == b'?'

abbrev pub unexpected : ℕ → Code
unexpected c =
    if ltb c 32 then ascii_control_char else if leb 128 c then non_ascii_char else unknown_symbol

abbrev pub delimiter_token : Cursor → Option Kind → Lexed
delimiter_token c (some k) = mk k c (skip 1 c)
delimiter_token c none = fail (unexpected (cur c)) c (skip 1 c)

-- The token at a byte
unfoldable pub dispatch : (Bytes → Option Float) → Cursor → Lexed
unfolding lex_comment lex_string lex_intrinsic lex_word lex_operator lex_number is_digit
    is_ident_start is_operator_char delimiter
dispatch parse_float c =
    if cur c == b'#'
    then lex_comment c
    else if cur c == b'"'
    then lex_string c
    else if cur c == b'@'
    then lex_intrinsic c
    else if at_hole c
    then mk word c (skip 3 c)
    else if is_digit (cur c)
    then lex_number parse_float c
    else if is_ident_start (cur c)
    then lex_word c
    else if is_operator_char (cur c)
    then lex_operator c
    else if cur c == b'.' && byte_at c 1 == b'.' && byte_at c 2 == b'.'
    then mk ellipsis c (skip 3 c)
    else delimiter_token c (delimiter (cur c))

abbrev pub lex_at : (Bytes → Option Float) → Cursor → Bytes → Lexed
lex_at parse_float c [] = mk eof c c
lex_at parse_float c (b ∷ bs) = dispatch parse_float c

unfoldable pub lex_one : (Bytes → Option Float) → Cursor → Lexed
unfolding dispatch skip_whitespace
lex_one parse_float c = lex_at parse_float (skip_whitespace c) (skip_whitespace c).rest
