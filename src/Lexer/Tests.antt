-- ===== src/Lexer/Tests.antt =====
-- The lexer at concrete sources, and its theorems at one.
use thrax.Prelude.{ℕ, ◌≡◌, refl, Option, none, some, List, [], ◌∷◌, map, arith}
use Prim.Native.Char.{Char, code}
use thrax.Prelude.Int.{pos}
use thrax.Json.Value.{chars}
use thrax.Tokens.Kind.{
  operator, is_operator_char, Kind, Float, int, str, word, at, op, eq, ellipsis, let_kw, eof, in_kw,
  lookup_str, keyword_or_word, is_ident_start, is_ident_cont,
}
use thrax.Lexer.Cursor.{
  Bytes, Token, ok, unclosed_quote, unknown_symbol, int_literal_range, number_parsing_failure,
}
use thrax.Lexer.Scan.{cursor, lex_one}
use thrax.Lexer.Stream.{
  done, failed, new, peek, next_token, tokenize, tokenize_with_comments, tokenize_prefix,
}
use thrax.Lexer.One.{LexesOne, lex_one-LexesOne}
use thrax.Lexer.Tiles.{IsTiled, tokenize_with_comments-IsTiled}
use thrax.Lexer.Plain.{without_comments, tokenize-tokenize_with_comments}
use thrax.Lexer.Buffer.{Buffered, stays, IsPeeked, IsNext, peek-IsPeeked, next_token-IsNext}
use thrax.Lexer.Refines.{peek-tokenize, next_token-tokenize}
use thrax.Lexer.Operators.{lex_one_lexeme}
use thrax.Lexer.Words.{lex_one_word, lex_one_keyword}
use thrax.Prelude.Chars.{text_of}
use thrax.Lexer.Decode.{bad_escape, decode_string, decode_string_offsets}
use thrax.Lexer.Literals.{IsDecoded, decode_string-decode_string_offsets, decode_string_plain}
use thrax.Lexer.Prefix.{IsPrefix, tokenize_prefix-tokenize_with_comments}

abbrev no_floats : Bytes → Option Float
no_floats s = none

abbrev bytes : List Char → Bytes
bytes s = map code s

abbrev tok : Kind → ℕ → ℕ → ℕ → Token
tok k from to line = record { kind = k; span = (from, to); line = line }

abbrev two_lines : Bytes
two_lines = bytes (chars "let s = \"?(f \"x\")\" # c\n @f ... ++ 0x1_f")

abbrev two_lines_tokens : List Token
two_lines_tokens =
    tok let_kw 0 3 1
    ∷ tok word 4 5 1
    ∷ tok eq 6 7 1
    ∷ tok str 8 18 1
    ∷ tok at 24 26 2
    ∷ tok ellipsis 27 30 2
    ∷ tok op 31 33 2
    ∷ tok (int (pos 31)) 34 39 2
    ∷ tok eof 39 39 2
    ∷ []

tokenize-two_lines : tokenize no_floats two_lines ≡ done two_lines_tokens
unfolding tokenize
tokenize-two_lines = refl

tokenize_errors :
    (tokenize no_floats (bytes (chars "a \"b"))
      ≡ failed (record { code = unclosed_quote; span = (2, 4); line = 1 }))
    × (tokenize no_floats (bytes (chars "\n a ~ b"))
        ≡ failed (record { code = unknown_symbol; span = (4, 5); line = 2 }))
    × (tokenize no_floats (bytes (chars "#- #- -# "))
        ≡ failed (record { code = unclosed_quote; span = (0, 9); line = 1 }))
    × (tokenize no_floats (bytes (chars "9223372036854775808"))
        ≡ failed (record { code = int_literal_range; span = (0, 19); line = 1 }))
    × (tokenize no_floats (bytes (chars "0b2"))
        ≡ failed (record { code = number_parsing_failure; span = (0, 2); line = 1 }))
unfolding tokenize
tokenize_errors = (refl, refl, refl, refl, refl)

-- A word, a block comment over two lines, and an operator
abbrev short : Bytes
short = bytes (chars "a #- b\n-# + ")

abbrev short_tokens : List Token
short_tokens = tok word 0 1 1 ∷ tok op 10 11 2 ∷ tok eof 12 12 2 ∷ []

tokenize-short : tokenize no_floats short ≡ done short_tokens
unfolding tokenize
tokenize-short = refl

tokenize_prefix-short :
    tokenize_prefix no_floats (bytes (chars "a +\n ~~ b"))
    ≡ done (tok word 0 1 1 ∷ tok op 2 3 1 ∷ [], 5)
unfolding tokenize_prefix
tokenize_prefix-short = refl

lex_one-LexesOne_example :
    LexesOne
      (cursor 0 1 1 (bytes (chars " #- b\n-# + ")))
      (lex_one no_floats (cursor 0 1 1 (bytes (chars " #- b\n-# + "))))
lex_one-LexesOne_example = lex_one-LexesOne no_floats (cursor 0 1 1 (bytes (chars " #- b\n-# + ")))

lex_one_word_example :
    lex_one no_floats (cursor 0 2 5 (bytes (chars "in_1+")))
    ≡ (cursor 0 6 5 (bytes (chars "+")), ok (tok word 2 6 5))
unfolding is_ident_start is_ident_cont keyword_or_word text_of
lex_one_word_example =
    lex_one_word 0 2 5 no_floats 105 (bytes (chars "n_1")) (bytes (chars "+")) refl
      (refl, (refl, (refl, tt))) refl

lex_one_lexeme_example :
    lex_one no_floats (cursor 0 2 5 (bytes (chars "|>\\x")))
    ≡ (cursor 0 4 5 (bytes (chars "\\x")), ok (tok op 2 4 5))
unfolding operator is_operator_char
lex_one_lexeme_example = lex_one_lexeme no_floats 0 2 5 op (bytes (chars "\\x")) "|>" refl refl

lex_one_keyword_example :
    lex_one no_floats (cursor 0 2 5 (bytes (chars "in(x")))
    ≡ (cursor 0 4 5 (bytes (chars "(x")), ok (tok in_kw 2 4 5))
unfolding lookup_str is_ident_cont
lex_one_keyword_example = lex_one_keyword no_floats 0 2 5 in_kw (bytes (chars "(x")) "in" refl refl

tokenize_with_comments-IsTiled_example : IsTiled 0 1 short (tokenize_with_comments no_floats short)
tokenize_with_comments-IsTiled_example = tokenize_with_comments-IsTiled no_floats short

tokenize-tokenize_with_comments_example :
    tokenize no_floats short ≡ without_comments (tokenize_with_comments no_floats short)
tokenize-tokenize_with_comments_example = tokenize-tokenize_with_comments no_floats short

peek-IsPeeked_example :
    IsPeeked no_floats (cursor 0 0 1 short) 1 (new short) (peek no_floats 20 1 (new short))
unfolding new
peek-IsPeeked_example =
    peek-IsPeeked no_floats (cursor 0 0 1 short) 20 1 (new short) (stays (cursor 0 0 1 short))
      (omega arith) (omega arith)

next_token-IsNext_example :
    IsNext no_floats (cursor 0 0 1 short) (new short) (next_token no_floats 20 (new short))
unfolding new
next_token-IsNext_example =
    next_token-IsNext no_floats (cursor 0 0 1 short) 20 (new short) (stays (cursor 0 0 1 short))
      (omega arith) (omega arith)

peek-tokenize_example : (peek no_floats 20 1 (new short)).1 ≡ done (tok op 10 11 2)
unfolding new
peek-tokenize_example =
    peek-tokenize no_floats short short_tokens tokenize-short 20 1 (new short) (tok op 10 11 2)
      (stays (cursor 0 0 1 short)) (omega arith) (omega arith) refl

next_token-tokenize_example :
    ((next_token no_floats 20 (new short)).1 ≡ done (tok word 0 1 1))
    × Buffered no_floats (cursor 0 0 1 short) (next_token no_floats 20 (new short)).0
    × ((next_token no_floats 20 (new short)).0.pos ≡ 1)
unfolding new
next_token-tokenize_example =
    next_token-tokenize no_floats short short_tokens tokenize-short 20 (new short) (tok word 0 1 1)
      (stays (cursor 0 0 1 short)) (omega arith) (omega arith) refl

-- A word, an operator, and a run of operator characters that is no operator
abbrev stopped : Bytes
stopped = bytes (chars "a +\n ~~ b")

tokenize_prefix-tokenize_with_comments_example :
    IsPrefix no_floats
      (cursor 0 0 1 stopped)
      9
      (tokenize_with_comments no_floats stopped)
      (tokenize_prefix no_floats stopped)
tokenize_prefix-tokenize_with_comments_example =
    tokenize_prefix-tokenize_with_comments no_floats stopped

-- A literal with an escape of each sort
abbrev literal : Bytes
literal = bytes (chars "\"a\\n\\x41\\u{e9}?\"")

decode_string-literal :
    (decode_string literal 10 1 ≡ done (97 ∷ 10 ∷ 65 ∷ 195 ∷ 169 ∷ 63 ∷ []))
    × (decode_string_offsets literal
        ≡ some (some (97 ∷ 10 ∷ 65 ∷ 195 ∷ 169 ∷ 63 ∷ [], 1 ∷ 2 ∷ 4 ∷ 8 ∷ 8 ∷ 14 ∷ 15 ∷ [])))
unfolding decode_string decode_string_offsets
decode_string-literal = (refl, refl)

decode_string-bad :
    (decode_string (bytes (chars "\"ab\\q\"")) 10 1 ≡ failed (bad_escape 13 1))
    × (decode_string (bytes (chars "\"\\u{d800}\"")) 10 1 ≡ failed (bad_escape 11 1))
    × (decode_string (bytes (chars "\"\\x4\"")) 10 1 ≡ failed (bad_escape 11 1))
unfolding decode_string
decode_string-bad = (refl, refl, refl)

decode_string-decode_string_offsets_example :
    IsDecoded literal 10 1 (decode_string literal 10 1) (decode_string_offsets literal)
decode_string-decode_string_offsets_example = decode_string-decode_string_offsets literal 10 1

decode_string_plain_example : decode_string (34 ∷ 97 ∷ 195 ∷ 34 ∷ []) 10 1 ≡ done (97 ∷ 195 ∷ [])
decode_string_plain_example = decode_string_plain (97 ∷ 195 ∷ []) 10 1 (refl, (refl, tt))
