-- ===== src/Lib.antt =====
-- Thrax is a functional language, and the program its compiler: a lexer, a Pratt parser and a
-- desugaring make Core terms, inference types them and checks their matches, passes bring them
-- to A-normal form and closures, and a bytecode machine or a C code generator runs them. This
-- library models parts of the crates `frontend`, `utilities` and `thrax`.
--
-- Files and the code they model:
-- * Usefulness models crates/frontend/src/typing/usefulness.rs, the check of a match after
--   Maranget. `Usefulness.Pattern` has `Ctor`, `DPat` and their methods, `Usefulness.Segments`
--   the function `segments`, `Usefulness.Column` the functions `normalize_column`, `specialize`
--   and `rebuild`, `Usefulness.Search` the functions `useful`, `useful_ints` and `int_domain`,
--   and `Usefulness.Check` the function `check`. `Usefulness.Datum` and `Usefulness.Value` say
--   what values are and when a pattern matches one; the source has no such thing, and the
--   theorems of `Usefulness.Sound` relate it to the code. `Usefulness.Total` is about panics
--   and termination.
-- * Tokens models the tables of crates/frontend/src/lexer/data.rs (`Tokens.Kind`) and
--   crates/frontend/src/parser/table.rs (`Tokens.Power`): the lexer and the parser read one
--   operator table.
-- * Lexer models crates/frontend/src/lexer.rs. `Lexer.Cursor` has the cursor, the tokens and
--   the low-level scans (`mk`, `skip_whitespace`, `scan_while`), `Lexer.Number` the scan of
--   numbers, `Lexer.Scan` the other scanners and `lex_one`, and `Lexer.Stream` the buffer
--   (`ensure`, `peek`, `next_token`, `mark`, `reset`) and `tokenize`, `tokenize_with_comments`
--   and `tokenize_prefix`. The source is a list of bytes, and a cursor keeps the bytes that
--   follow it; a call that fails still returns the cursor that it leaves. The line is an
--   unbounded number, where the source's has 32 bits. Rust's parse of an `f64` is a parameter.
--   `Lexer.Consumes`, `Lexer.Forward`, `Lexer.Quoted` and `Lexer.One` are about one token,
--   `Lexer.Tiles`, `Lexer.Left`, `Lexer.Plain` and `Lexer.Prefix` about a whole source,
--   `Lexer.Words` and `Lexer.Operators` about identifiers, keywords and operators, and
--   `Lexer.Buffer`, `Lexer.Agree` and `Lexer.Refines` about the buffer. `Lexer.Decode` has the
--   decoding of string literals (`decode_string`, `decode_string_offsets`, `decode_escape`),
--   which `Lexer.Escapes`, `Lexer.Offsets` and `Lexer.Literals` are about. The loops over a
--   source have one round more of fuel than it has bytes, since every round but the last takes
--   a byte.
-- * Sizes models crates/frontend/src/typing/unify/sizes.rs: polynomials over the integers
--   modulo 2 ^ 64 (`canon`, `poly_mul`), the normal form of a size (`normalize_size`,
--   `nat_value`) and `unify_size`, all in `Sizes.Poly`. A size is a tree whose bound variables
--   have been followed, as `head` of the unifier does, a node that is no size is `other`, and a
--   call of `bind` is a result. `Sizes.Value` and `Sizes.Unify` are about values of sizes,
--   `Sizes.Order`, `Sizes.Canonical`, `Sizes.Normal` and `Sizes.Unique` about the normal form.
-- * Cabi models crates/utilities/src/cabi.rs, the layout of C structs and unions. The debug
--   assertion of `align_up` is left out, and where its sum is a multiple of 2 ^ 64 the 1 that
--   it takes away stops at 0; the theorems are about sums below that.
-- * Json models crates/utilities/src/json.rs: values and their members (`Json.Value`), the
--   writer (`Json.Writer`) and the parser (`Json.Scan`, `Json.Reader`), whose position is the
--   text that is left; the two errors of `read_hex4` are one. What the writer computes with an
--   `f64` is a record of functions, `Json.Writer.Floats`, and the parse of one is a parameter.
--   The parser has twice the length of its text as fuel. `Json.Quoted`, `Json.ReadBack`,
--   `Json.RoundTrip` and `Json.Undo` are about a text that was written and is parsed,
--   `Json.Leaves` and `Json.Fuel` about the fuel, which is enough because an item and the value
--   in it take one round each and at least one character.
-- * Document models crates/thrax/src/lsp/text.rs: byte offsets, positions by line and edits of
--   an open document. A slice that is not at characters' boundaries, and an index out of
--   bounds, are `none`.
-- * Prelude has the shared names: Boolean tests, lists measured by native numbers, integers,
--   names (`StrId` of crates/utilities/src/handle.rs, an interned string, is a string), and
--   masks of bits.
--
-- How code becomes definitions. `useful` takes a matrix of rows and a vector; the code's `&mut
-- Option<StrId>` is passed in and handed back. The outcomes `panicked` and `out_of_fuel` stand
-- for a panic and for too little fuel. The fuel is the number of constructors in the matrix and
-- the vector: a recursive call on the rest of the vector uses none, and one that opens a
-- constructor leaves at least that constructor out. A vector of patterns inside a pattern is a
-- type of its own, as a data type cannot hold itself inside `List`. An `i128` is an unbounded
-- integer, since the domains are those of types of at most 64 bits; a `usize` in the layout of
-- structs wraps at 2 ^ 64.
--
-- Not modelled: printing a witness (`show`), and the components that are read and typed before
-- or after the check of matches: the parser, inference but for the equality of sizes, the
-- passes, the code generators, the formatter, the driver and the language server's requests.
pub mod Cabi
pub mod Document
pub mod Json
pub mod Lexer
pub mod Prelude
pub mod Sizes
pub mod Tokens
pub mod Usefulness
