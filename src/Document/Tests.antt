-- ===== src/Document/Tests.antt =====
-- The theorems on documents at a concrete one, and offsets and positions computed.
use thrax.Prelude.{◌≡◌, refl, min, some, [], ◌∷◌, ℕ}
use thrax.Prelude.Int.{pos}
use thrax.Json.Value.{chars}
use thrax.Document.Text.{
  utf8, utf16, utf32, Position, Document, byte_len, new, offset, line_of, position, edit,
}
use thrax.Document.Bounds.{position_returns}
use thrax.Document.Lines.{HoldsOffset, IsCurrent, line_of_holds, edit-IsCurrent, new-IsCurrent}

abbrev at : ℕ → ℕ → Position
at l c = record { line = l; character = c }

abbrev greeting : Document
greeting = new (chars "hello\nworld") (pos 0)

-- Code units beyond the basic plane
position-units :
    (position (new (chars "a😀b\nc") (pos 0)) 5 utf16 ≡ some (at 0 3))
    × (position (new (chars "a😀b\nc") (pos 0)) 5 utf8 ≡ some (at 0 5))
    × (position (new (chars "a😀b\nc") (pos 0)) 5 utf32 ≡ some (at 0 2))
unfolding position new
position-units = (refl, refl, refl)

offset-clamped :
    (offset greeting (at 0 99) utf16 ≡ some 5) × (offset greeting (at 9 0) utf16 ≡ some 11)
unfolding offset new
offset-clamped = (refl, refl)

abbrev thered : Document
thered = record { text = chars "hello\nthere"; version = pos 0; line_starts = 0 ∷ 6 ∷ [] }

edit-greeting : edit greeting (some (at 1 0, at 1 5)) (chars "there") utf16 ≡ some thered
unfolding edit new
edit-greeting = refl

greeting-IsCurrent : IsCurrent greeting
greeting-IsCurrent = new-IsCurrent (chars "hello\nworld") (pos 0)

line_of_holds_example :
    HoldsOffset greeting.line_starts (line_of greeting 7) (min 7 (byte_len greeting.text))
line_of_holds_example = line_of_holds greeting 7 greeting-IsCurrent

edit-IsCurrent_example : IsCurrent thered
unfolding edit new
edit-IsCurrent_example =
    edit-IsCurrent greeting thered (some (at 1 0, at 1 5)) (chars "there") utf16 refl

position_returns_example :
    (p : Position) × (position greeting 7 utf8 ≡ some p) × (p.line ≡ line_of greeting 7)
position_returns_example = position_returns greeting 7 utf8 greeting-IsCurrent
