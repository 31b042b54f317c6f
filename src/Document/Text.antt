-- ===== src/Document/Text.antt =====
-- `Encoding`, `Position`, `Document` and their methods. A text is a list of characters, an offset
-- counts its bytes, and a slice that is not at characters' boundaries panics, which is `none`.
use Prim.Native.Char.{Char, code, len_utf8}
use thrax.Prelude.{
  ℕ, zero, suc, ◌+◌, ◌-◌, min, max, Bool, true, false, ◌&&◌, ◌==◌, ltb, leb, Option, none, some,
  List, [], ◌∷◌, ◌++◌, get_elem?, if◌then◌else◌,
}
use thrax.Prelude.Int.{ℤ}

pub data Encoding : Type 0 where
  utf8 utf16 utf32 : Encoding

-- `len_utf16`: two units above the basic plane
unfoldable pub units : Encoding → Char → ℕ
units utf8 c = len_utf8 c
units utf16 c = if ltb (code c) 65536 then 1 else 2
units utf32 c = 1

pub record Position : Type 0 where
  pub line : ℕ
  pub character : ℕ

pub record Document : Type 0 where
  pub text : List Char
  pub version : ℤ
  pub line_starts : List ℕ

abbrev pub byte_len : List Char → ℕ
byte_len [] = 0
byte_len (c ∷ s) = len_utf8 c + byte_len s

-- The offsets after the newlines, from offset `at`
unfoldable pub starts_after : ℕ → List Char → List ℕ
starts_after at [] = []
starts_after at (c ∷ s) =
    let rest = starts_after (at + len_utf8 c) s in if code c == 10 then (at + 1) ∷ rest else rest

unfoldable pub line_starts_of : List Char → List ℕ
unfolding starts_after
line_starts_of text = 0 ∷ starts_after 0 text

unfoldable pub new : List Char → ℤ → Document
unfolding line_starts_of
new text version = record { text = text; version = version; line_starts = line_starts_of text }

-- The text from a byte offset on, and the text up to one
unfoldable pub drop_bytes : ℕ → List Char → Option (List Char)
drop_bytes zero s = some s
drop_bytes (suc n) [] = none
drop_bytes (suc n) (c ∷ s) =
    let rest = drop_bytes (suc n - len_utf8 c) s in if leb (len_utf8 c) (suc n) then rest else none

abbrev pub cons? : Char → Option (List Char) → Option (List Char)
cons? c none = none
cons? c (some s) = some (c ∷ s)

unfoldable pub take_bytes : ℕ → List Char → Option (List Char)
take_bytes zero s = some []
take_bytes (suc n) [] = none
take_bytes (suc n) (c ∷ s) =
    let rest = take_bytes (suc n - len_utf8 c) s in
    if leb (len_utf8 c) (suc n) then cons? c rest else none

abbrev pub take_from : Option (List Char) → ℕ → Option (List Char)
take_from none n = none
take_from (some s) n = take_bytes n s

-- `text[a..b]`
unfoldable pub slice : List Char → ℕ → ℕ → Option (List Char)
unfolding drop_bytes take_bytes
slice text a b = if leb a b then take_from (drop_bytes a text) (b - a) else none

-- `as_bytes().get(i) == Some(&b'\r')`: no other character has that byte.
unfoldable pub is_return_at : List Char → ℕ → Bool
is_return_at [] i = false
is_return_at (c ∷ s) i =
    let rest = is_return_at s (i - len_utf8 c) in
    if i == 0 then code c == 13 else leb (len_utf8 c) i && rest

abbrev pub next_or_end : Option ℕ → ℕ → ℕ
next_or_end none end = end
next_or_end (some n) end = n - 1

-- An index out of bounds is `none`.
abbrev pub end_from : Option ℕ → List Char → ℕ → Option ℕ
end_from none text next = none
end_from (some start) text next =
    if ltb start next && is_return_at text (next - 1) && ltb next (byte_len text)
    then some (next - 1)
    else some next

unfoldable pub line_end : Document → ℕ → Option ℕ
unfolding is_return_at
line_end d l =
    end_from (get_elem? d.line_starts l) d.text
      (next_or_end (get_elem? d.line_starts (suc l)) (byte_len d.text))

-- The loop of `offset`: `at` is the byte offset and `seen` the units before it.
unfoldable pub walk : Encoding → ℕ → ℕ → ℕ → ℕ → List Char → ℕ
unfolding units
walk enc target end at seen [] = end
walk enc target end at seen (c ∷ s) =
    let rest = walk enc target end (at + len_utf8 c) (seen + units enc c) s in
    if leb target seen then at else rest

abbrev pub walk_slice : Encoding → ℕ → ℕ → ℕ → Option (List Char) → Option ℕ
walk_slice enc target start end none = none
walk_slice enc target start end (some s) = some (walk enc target end start 0 s)

abbrev pub offset_in : Document → Encoding → ℕ → ℕ → Option ℕ → Option ℕ
offset_in d enc target start none = none
offset_in d enc target start (some end) = walk_slice enc target start end (slice d.text start end)

abbrev pub offset_at : Document → Position → Encoding → Option ℕ → Option ℕ
offset_at d pos enc none = some (byte_len d.text)
offset_at d pos enc (some start) = offset_in d enc pos.character start (line_end d pos.line)

unfoldable pub offset : Document → Position → Encoding → Option ℕ
unfolding line_end walk slice
offset d pos enc = offset_at d pos enc (get_elem? d.line_starts pos.line)

-- `partition_point(|&s| s <= offset)` on increasing starts: how many there are up to the offset.
unfoldable pub partition_point : ℕ → List ℕ → ℕ
partition_point o [] = 0
partition_point o (s ∷ ss) = let rest = partition_point o ss in if leb s o then suc rest else 0

unfoldable pub line_of : Document → ℕ → ℕ
unfolding partition_point
line_of d o = partition_point (min o (byte_len d.text)) d.line_starts - 1

unfoldable pub is_char_boundary : List Char → ℕ → Bool
is_char_boundary s zero = true
is_char_boundary [] (suc n) = false
is_char_boundary (c ∷ s) (suc n) =
    let rest = is_char_boundary s (suc n - len_utf8 c) in leb (len_utf8 c) (suc n) && rest

unfoldable pub floor : List Char → ℕ → ℕ
unfolding is_char_boundary
floor s zero = zero
floor s (suc n) = let rest = floor s n in if is_char_boundary s (suc n) then suc n else rest

unfoldable pub sum_units : Encoding → List Char → ℕ
unfolding units
sum_units enc [] = 0
sum_units enc (c ∷ s) = units enc c + sum_units enc s

abbrev pub position_in : ℕ → Encoding → Option (List Char) → Option Position
position_in l enc none = none
position_in l enc (some s) = some (record { line = l; character = sum_units enc s })

abbrev pub position_from : Document → ℕ → ℕ → Encoding → Option ℕ → Option Position
position_from d at l enc none = none
position_from d at l enc (some start) = position_in l enc (slice d.text start at)

unfoldable pub position : Document → ℕ → Encoding → Option Position
unfolding line_of floor slice sum_units
position d o enc =
    position_from d (floor d.text (min o (byte_len d.text))) (line_of d o) enc
      (get_elem? d.line_starts (line_of d o))

-- The text with `new` for the bytes `s..e`, where both cuts are at boundaries
abbrev pub splice : Option (List Char) → List Char → Option (List Char) → Option (List Char)
splice (some before) new (some after) = some (before ++ (new ++ after))
splice _ new _ = none

abbrev pub replace_range : List Char → Option ℕ → Option ℕ → List Char → Option (List Char)
replace_range text (some a) (some b) new =
    splice (take_bytes (min a b) text) new (drop_bytes (max a b) text)
replace_range text _ _ new = none

abbrev pub with_text : Document → Option (List Char) → Option Document
with_text d none = none
with_text d (some s) =
    some (record { text = s; version = d.version; line_starts = line_starts_of s })

unfoldable pub edit :
    Document → Option (Position × Position) → List Char → Encoding → Option Document
unfolding offset drop_bytes take_bytes line_starts_of
edit d none new enc = with_text d (some new)
edit d (some (a, b)) new enc =
    with_text d (replace_range d.text (offset d a enc) (offset d b enc) new)
