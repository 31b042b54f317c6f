-- ===== src/Cabi/Struct.antt =====
-- `CLayout::of` lays a struct out by the C rule.
use Prim.Native.String.{String}
use thrax.Prelude.{
  ℕ, ◌+◌, ◌*◌, ◌%◌, ◌^◌, ◌≤◌, ◌<◌, ◌≡◌, refl, sym, ap, subst, max, List, [], ◌∷◌, All, arith,
}
use thrax.Cabi.{
  CKind, CLayout, CFields, no_fields, field, size_of, align_of, fields_of, size, align, align_up,
  add_usize, Layed, lay, of,
}
use thrax.Cabi.AlignUp.{IsPow2, IsPow2-pos, IsPow2-max, align_up_next}

-- What a kind must have to be a field: a power of two that divides its size. Scalars have it, and
-- a nested struct has it because it was laid out (`IsStruct` below).
abbrev pub HasShape : CKind → Type 0
HasShape kind = IsPow2 (align kind) × (size kind % align kind ≡ 0)

abbrev pub Member : Type 0
Member = String × CKind

-- A bound on the room that the members take, padding included.
abbrev pub span : List Member → ℕ
span [] = 0
span ((name, kind) ∷ ms) = size kind + align kind + span ms

-- The fields stand one after the other from `start`, each at the first aligned offset, and end
-- within `total`.
abbrev pub Placed : ℕ → ℕ → CFields → Type 0
Placed start total no_fields = start ≤ total
Placed start total (field name offset kind fs) =
    (offset % align kind ≡ 0)
    × (start ≤ offset)
    × (offset < start + align kind)
    × Placed (offset + size kind) total fs

abbrev pub AlignsWithin : ℕ → CFields → Type 0
AlignsWithin a no_fields = Unit
AlignsWithin a (field name offset kind fs) = (align kind ≤ a) × AlignsWithin a fs

abbrev pub members : CFields → List Member
members no_fields = []
members (field name offset kind fs) = (name, kind) ∷ members fs

pub Placed-mono :
    {m n : ℕ} (start : ℕ) (fs : CFields) → Placed start m fs → m ≤ n → Placed start n fs
Placed-mono start no_fields h le = omega arith
Placed-mono start (field name offset kind fs) h le =
    (h.0, h.1, h.2, Placed-mono (offset + size kind) fs h.3 le)

record Lays (offset al : ℕ) (ms : List Member) (l : Layed) : Type 0 where
  power : IsPow2 l.align
  grows : al ≤ l.align
  fits : l.offset + l.align < 2 ^ 64
  placed : Placed offset l.offset l.out
  widest : AlignsWithin l.align l.out
  same : members l.out ≡ ms

lay-Lays :
    (offset al : ℕ) (ms : List Member)
    → IsPow2 al
    → All (λ m. HasShape m.1) ms
    → offset + al + 2 * span ms < 2 ^ 64
    → Lays offset al ms (lay offset al ms)
unfolding lay
lay-Lays offset al [] p hs h = record {
  power = p;
  grows = omega arith;
  fits = omega arith;
  placed = omega arith;
  widest = tt;
  same = refl;
}
lay-Lays offset al ((name, kind) ∷ ms) p hs h =
    let pos = IsPow2-pos hs.0.0 in
    let one : max (align kind) 1 ≡ align kind = omega arith in
    let at = align_up offset (max (align kind) 1) in
    let next =
      subst
        (λ a.
          (align_up offset a % align kind ≡ 0)
          × (offset ≤ align_up offset a)
          × (align_up offset a < offset + align kind))
        (sym one) (align_up_next offset (align kind) hs.0.0 (omega arith)) in
    let sum : add_usize at (size kind) ≡ at + size kind = omega arith in
    let rest = lay (add_usize at (size kind)) (max al (align kind)) ms in
    let ih =
      lay-Lays (add_usize at (size kind)) (max al (align kind)) ms (IsPow2-max p hs.0.0) hs.1
        (omega arith) in
    record {
      power = ih.power;
      grows = omega (arith, ih.grows);
      fits = ih.fits;
      placed = (next.0, next.1, next.2, subst (λ s. Placed s rest.offset rest.out) sum ih.placed);
      widest = (omega (arith, ih.grows), ih.widest);
      same = ap (λ t. (name, kind) ∷ t) ih.same;
    }

-- A struct's layout: a power-of-two alignment that no field exceeds and that divides the size; the
-- fields are the members in their order, placed from 0 within the size.
pub record IsStruct (ms : List Member) (l : CLayout) : Type 0 where
  pub power : IsPow2 (align_of l)
  pub whole : size_of l % align_of l ≡ 0
  pub placed : Placed 0 (size_of l) (fields_of l)
  pub widest : AlignsWithin (align_of l) (fields_of l)
  pub same : members (fields_of l) ≡ ms

-- Members of good shape whose sizes and alignments sum to less than half of the address space
-- are laid out as a struct: see `IsStruct`.
pub of-IsStruct :
    (ms : List Member) → All (λ m. HasShape m.1) ms → 2 * span ms + 1 < 2 ^ 64 → IsStruct ms (of ms)
unfolding of
of-IsStruct ms hs h =
    let l = lay 0 1 ms in
    let ok = lay-Lays 0 1 ms (0, omega arith, refl) hs (omega arith) in
    let one : max l.align 1 ≡ l.align = omega (arith, ok.grows) in
    let next = align_up_next l.offset l.align ok.power ok.fits in
    record {
      power = ok.power;
      whole = rw one next.0;
      placed = Placed-mono 0 l.out ok.placed (rw one next.1);
      widest = ok.widest;
      same = ok.same;
    }
