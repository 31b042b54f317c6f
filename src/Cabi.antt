-- ===== src/Cabi.antt =====
-- crates/utilities/src/cabi.rs: the C ABI data model, and the layout of structs and unions.
-- A `usize` is a native ℕ below 2 ^ 64; sums wrap, as the release build's do.
pub mod AlignUp
pub mod Struct
pub mod Union
mod Tests
use Prim.Native.Nat.{bit_and}
use Prim.Native.String.{String}
use thrax.Prelude.{ℕ, ◌+◌, ◌-◌, ◌%◌, ◌^◌, max, Bool, true, false, List, [], ◌∷◌}

-- `CField` and the vector of them are one type, since a type cannot hold itself inside `List`.
mutual
  pub data CKind : Type 0 where
    s8 s16 s32 s64 u8 u16 u32 u64 f32 f64 : CKind
    struct : String → CLayout → CKind

  pub data CLayout : Type 0 where
    layout : (size align : ℕ) → CFields → (is_union : Bool) → CLayout

  pub data CFields : Type 0 where
    no_fields : CFields
    field : (name : String) (offset : ℕ) (kind : CKind) → CFields → CFields

-- `CLayout::size`, `CLayout::align` and `CLayout::fields`
abbrev pub size_of : CLayout → ℕ
size_of (layout n a fs u) = n

abbrev pub align_of : CLayout → ℕ
align_of (layout n a fs u) = a

abbrev pub fields_of : CLayout → CFields
fields_of (layout n a fs u) = fs

abbrev pub size : CKind → ℕ
size s8 = 1
size u8 = 1
size s16 = 2
size u16 = 2
size s32 = 4
size u32 = 4
size f32 = 4
size s64 = 8
size u64 = 8
size f64 = 8
size (struct name l) = size_of l

abbrev pub align : CKind → ℕ
align (struct name l) = align_of l
align s8 = 1
align other = size other

-- `usize` addition and `!x`
abbrev pub add_usize : ℕ → ℕ → ℕ
add_usize a b = (a + b) % 2 ^ 64

abbrev pub not_usize : ℕ → ℕ
not_usize x = 2 ^ 64 - 1 - x

unfoldable pub align_up : ℕ → ℕ → ℕ
align_up n align = bit_and (add_usize n align - 1) (not_usize (align - 1))

-- What the loop of `CLayout::of` leaves in `offset`, `align` and `out`.
pub record Layed : Type 0 where
  pub offset : ℕ
  pub align : ℕ
  pub out : CFields

unfoldable pub lay : ℕ → ℕ → List (String × CKind) → Layed
lay offset al [] = record { offset = offset; align = al; out = no_fields }
lay offset al ((name, kind) ∷ fields) =
    let at = align_up offset (max (align kind) 1) in
    let rest = lay (add_usize at (size kind)) (max al (align kind)) fields in
    record { offset = rest.offset; align = rest.align; out = field name at kind rest.out }

unfoldable pub of : List (String × CKind) → CLayout
of fields = let l = lay 0 1 fields in layout (align_up l.offset (max l.align 1)) l.align l.out false

-- The same for the closure of `CLayout::of_union`, which `offset` holds the largest size of.
unfoldable pub overlay : ℕ → ℕ → List (String × CKind) → Layed
overlay biggest al [] = record { offset = biggest; align = al; out = no_fields }
overlay biggest al ((name, kind) ∷ fields) =
    let rest = overlay (max biggest (size kind)) (max al (max (align kind) 1)) fields in
    record { offset = rest.offset; align = rest.align; out = field name 0 kind rest.out }

unfoldable pub of_union : List (String × CKind) → CLayout
of_union fields =
    let l = overlay 0 1 fields in layout (align_up l.offset (max l.align 1)) l.align l.out true
