-- ===== src/Cabi/Tests.antt =====
-- The theorems on layouts at concrete members, and layouts computed.
use thrax.Prelude.{◌≡◌, ◌≤◌, ◌<◌, ◌+◌, ◌%◌, refl, arith, List, [], ◌∷◌, true, false, All}
use thrax.Cabi.{s8, u16, u64, layout, no_fields, field, align_up, lay, of, overlay, of_union}
use thrax.Cabi.AlignUp.{align_up_next}
use thrax.Cabi.Struct.{Member, HasShape, IsStruct, of-IsStruct}
use thrax.Cabi.Union.{IsUnion, of_union-IsUnion}

-- struct { int8_t tag; uint64_t value; uint16_t flags; }
abbrev mixed : List Member
mixed = ("tag", s8) ∷ ("value", u64) ∷ ("flags", u16) ∷ []

of-mixed :
    of mixed
    ≡ layout 24 8 (field "tag" 0 s8 (field "value" 8 u64 (field "flags" 16 u16 no_fields))) false
unfolding of lay align_up
of-mixed = refl

of_union-mixed :
    of_union mixed
    ≡ layout 8 8 (field "tag" 0 s8 (field "value" 0 u64 (field "flags" 0 u16 no_fields))) true
unfolding of_union overlay align_up
of_union-mixed = refl

align_up_next_example : (align_up 13 8 % 8 ≡ 0) × (13 ≤ align_up 13 8) × (align_up 13 8 < 13 + 8)
align_up_next_example = align_up_next 13 8 (3, omega arith, refl) (omega arith)

abbrev mixed-shapes : All (λ m. HasShape m.1) mixed
mixed-shapes = (
  ((0, omega arith, refl), refl),
  (((3, omega arith, refl), refl), (((1, omega arith, refl), refl), tt)),
)

of-IsStruct_example : IsStruct mixed (of mixed)
of-IsStruct_example = of-IsStruct mixed mixed-shapes (omega arith)

of_union-IsUnion_example : IsUnion mixed (of_union mixed)
of_union-IsUnion_example = of_union-IsUnion mixed mixed-shapes (omega arith)
