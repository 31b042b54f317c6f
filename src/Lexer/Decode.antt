-- ===== src/Lexer/Decode.antt =====
-- `decode_string`, `decode_string_offsets` and the escapes that both decode. What is left of the literal's
-- body stands for the body and an index into it; the fuel bounds the loop's rounds.
use thrax.Prelude.{
  ℕ, zero, suc, ◌+◌, ◌-◌, ◌*◌, ◌/◌, ◌%◌, Bool, not, ◌&&◌, ◌||◌, ◌==◌, ltb, Option, none, some, List,
  [], ◌∷◌, ◌++◌, get_or, drop, take, replicate, length, if◌then◌else◌,
}
use thrax.Tokens.Kind.{is_hex_digit}
use thrax.Lexer.Cursor.{Bytes, LexError, invalid_escape}
use thrax.Lexer.Number.{digit_value}
use thrax.Lexer.Stream.{Result, done, failed, panicked, out_of_fuel}

-- What an escape decodes to, and how many bytes it takes from its backslash on
pub data Escape : Type 0 where
  escape : (out : Bytes) (used : ℕ) → Escape
  bad : LexError → Escape

-- The errors of escapes: one byte wide, at the backslash
abbrev pub bad_escape : ℕ → ℕ → LexError
bad_escape at line = record { code = invalid_escape; span = (at, at + 1); line = line }

-- `inner.get(i).copied().unwrap_or(0)`
abbrev pub byte_or_zero : Bytes → ℕ → ℕ
byte_or_zero bs i = get_or bs i 0

-- After `\x`
unfoldable pub decode_hex_byte : ℕ → ℕ → Bytes → Escape
unfolding is_hex_digit
decode_hex_byte esc_at line rest =
    let h1 = byte_or_zero rest 0 in
    let h2 = byte_or_zero rest 1 in
    if not (is_hex_digit h1) || not (is_hex_digit h2)
    then bad (bad_escape esc_at line)
    else escape ((digit_value h1 * 16 + digit_value h2) ∷ []) 4

-- `char::encode_utf8`
unfoldable pub encode_utf8 : ℕ → Bytes
encode_utf8 n =
    if ltb n 128
    then n ∷ []
    else if ltb n 2048
    then (192 + n / 64) ∷ (128 + n % 64) ∷ []
    else if ltb n 65536
    then (224 + n / 4096) ∷ (128 + n / 64 % 64) ∷ (128 + n % 64) ∷ []
    else (240 + n / 262144) ∷ (128 + n / 4096 % 64) ∷ (128 + n / 64 % 64) ∷ (128 + n % 64) ∷ []

-- `char::from_u32` gives a character.
abbrev pub is_scalar : ℕ → Bool
is_scalar n = ltb n 55296 || (ltb 57343 n && ltb n 1114112)

-- The digits of `\u{...}`, up to so many: their value and how many there are
unfoldable pub scalar_digits : ℕ → ℕ → ℕ → Bytes → ℕ × ℕ
unfolding is_hex_digit
scalar_digits zero cp digits bs = (cp, digits)
scalar_digits (suc n) cp digits [] = (cp, digits)
scalar_digits (suc n) cp digits (d ∷ ds) =
    let more = scalar_digits n (cp * 16 + digit_value d) (digits + 1) ds in
    if is_hex_digit d then more else (cp, digits)

abbrev pub scalar_escape : ℕ → ℕ → Bytes → ℕ × ℕ → Escape
scalar_escape esc_at line rest (cp, digits) =
    if digits == 0 || not (byte_or_zero rest (digits + 1) == b'}')
    then bad (bad_escape esc_at line)
    else if is_scalar cp
    then escape (encode_utf8 cp) (digits + 4)
    else bad (bad_escape esc_at line)

-- After `\u`
unfoldable pub decode_unicode : ℕ → ℕ → Bytes → Escape
unfolding scalar_digits encode_utf8
decode_unicode esc_at line rest =
    if byte_or_zero rest 0 == b'{'
    then scalar_escape esc_at line rest (scalar_digits 6 0 0 (drop 1 rest))
    else bad (bad_escape esc_at line)

-- The escapes of one byte, by the byte after the backslash
abbrev pub simple_escapes : List (ℕ × ℕ)
simple_escapes =
    (b'n', b'\n')
    ∷ (b't', b'\t')
    ∷ (b'r', b'\r')
    ∷ (b'0', 0)
    ∷ (b'\\', b'\\')
    ∷ (b'"', b'"')
    ∷ (39, 39)
    ∷ (b'{', b'{')
    ∷ (b'}', b'}')
    ∷ (b'?', b'?')
    ∷ (b'a', 7)
    ∷ (b'b', 8)
    ∷ (b'f', 12)
    ∷ (b'v', 11)
    ∷ []

unfoldable pub simple_escape : ℕ → List (ℕ × ℕ) → Option ℕ
simple_escape sel [] = none
simple_escape sel ((a, b) ∷ es) =
    let rest = simple_escape sel es in if a == sel then some b else rest

abbrev pub other_escape : ℕ → ℕ → ℕ → Bytes → Option ℕ → Escape
other_escape esc_at line sel rest (some b) = escape (b ∷ []) 2
other_escape esc_at line sel rest none =
    if sel == b'x'
    then decode_hex_byte esc_at line rest
    else if sel == b'u'
    then decode_unicode esc_at line rest
    else bad (bad_escape esc_at line)

-- What follows the backslash that stands at `esc_at`
unfoldable pub decode_escape : ℕ → ℕ → Bytes → Escape
unfolding decode_hex_byte decode_unicode simple_escape
decode_escape esc_at line [] = bad (bad_escape esc_at line)
decode_escape esc_at line (sel ∷ rest) =
    other_escape esc_at line sel rest (simple_escape sel simple_escapes)

-- ## Literals

abbrev pub pushed_bytes : Bytes → Result Bytes → Result Bytes
pushed_bytes out (done r) = done (out ++ r)
pushed_bytes out r = r

-- A round at a backslash, given the loop from so many bytes on
abbrev pub escaped_bytes : Escape → (ℕ → Result Bytes) → Result Bytes
escaped_bytes (bad e) next = failed e
escaped_bytes (escape out used) next = pushed_bytes out (next used)

unfoldable pub decode_from : ℕ → ℕ → ℕ → Bytes → Result Bytes
unfolding decode_escape
decode_from zero at line inner = out_of_fuel
decode_from (suc f) at line [] = done []
decode_from (suc f) at line (c ∷ cs) =
    let byte = pushed_bytes (c ∷ []) (decode_from f (at + 1) line cs) in
    let escaped =
      escaped_bytes (decode_escape at line cs)
        (λ n. decode_from f (at + n) line (drop n (c ∷ cs))) in
    if c == b'\\' then escaped else byte

-- The bytes between the first and the last; no slice has them where there are fewer than two. That
-- they are quotes, which a debug build asserts, is left to the caller.
abbrev pub inner : Bytes → Bytes
inner raw = take (length raw - 2) (drop 1 raw)

unfoldable pub decode_string : Bytes → ℕ → ℕ → Result Bytes
unfolding decode_from
decode_string raw start line =
    let all = decode_from (suc (length (inner raw))) (start + 1) line (inner raw) in
    if ltb (length raw) 2 then panicked else all

-- `None` of the source is `some none`, and the outer `none` is too little fuel.
abbrev pub Offsets : Type 0
Offsets = Option (Option (Bytes × List ℕ))

abbrev pub pushed_at : Bytes → ℕ → Offsets → Offsets
pushed_at out at (some (some (bs, ats))) = some (some (out ++ bs, replicate (length out) at ++ ats))
pushed_at out at r = r

abbrev pub escaped_at : ℕ → Escape → (ℕ → Offsets) → Offsets
escaped_at at (bad e) next = some none
escaped_at at (escape out used) next = pushed_at out at (next used)

-- `at` is `i + 1`.
unfoldable pub offsets_from : ℕ → ℕ → Bytes → Offsets
unfolding decode_escape
offsets_from zero at inner = none
offsets_from (suc f) at [] = some (some ([], at ∷ []))
offsets_from (suc f) at (c ∷ cs) =
    let byte = pushed_at (c ∷ []) at (offsets_from f (at + 1) cs) in
    let escaped =
      escaped_at at (decode_escape at 0 cs) (λ n. offsets_from f (at + n) (drop n (c ∷ cs))) in
    if c == b'\\' then escaped else byte

unfoldable pub decode_string_offsets : Bytes → Offsets
unfolding offsets_from
decode_string_offsets raw =
    let all = offsets_from (suc (length (inner raw))) 1 (inner raw) in
    if ltb (length raw) 2 then some none else all
