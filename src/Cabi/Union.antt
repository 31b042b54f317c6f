-- ===== src/Cabi/Union.antt =====
-- `CLayout::of_union` against the C rule for a union.
use thrax.Prelude.{ℕ, ◌+◌, ◌%◌, ◌^◌, ◌≤◌, ◌<◌, ◌≡◌, refl, ap, max, List, [], ◌∷◌, All, arith}
use thrax.Cabi.{
  CLayout, CFields, no_fields, field, size_of, align_of, fields_of, size, align, Layed, overlay,
  of_union,
}
use thrax.Cabi.AlignUp.{IsPow2, IsPow2-pos, IsPow2-max, align_up_next}
use thrax.Cabi.Struct.{HasShape, Member, span, AlignsWithin, members}

-- Every field starts at 0 and ends within `total`.
abbrev pub Overlaid : ℕ → CFields → Type 0
Overlaid total no_fields = Unit
Overlaid total (field name offset kind fs) = (offset ≡ 0) × (size kind ≤ total) × Overlaid total fs

pub Overlaid-mono : {m n : ℕ} (fs : CFields) → Overlaid m fs → m ≤ n → Overlaid n fs
Overlaid-mono no_fields h le = tt
Overlaid-mono (field name offset kind fs) h le = (h.0, omega arith, Overlaid-mono fs h.2 le)

-- The size of the largest member, and the alignment of the strictest
abbrev pub largest : List Member → ℕ
largest [] = 0
largest ((name, kind) ∷ ms) = max (size kind) (largest ms)

abbrev pub strictest : List Member → ℕ
strictest [] = 1
strictest ((name, kind) ∷ ms) = max (align kind) (strictest ms)

strictest-pos : (ms : List Member) → 1 ≤ strictest ms
strictest-pos [] = omega arith
strictest-pos ((name, kind) ∷ ms) = omega (arith, strictest-pos ms)

record Overlays (biggest al : ℕ) (ms : List Member) (l : Layed) : Type 0 where
  power : IsPow2 l.align
  grows : al ≤ l.align
  larger : biggest ≤ l.offset
  exact : l.offset ≡ max biggest (largest ms)
  aligned : l.align ≡ max al (strictest ms)
  fits : l.offset + l.align ≤ biggest + al + span ms
  overlaid : Overlaid l.offset l.out
  widest : AlignsWithin l.align l.out
  same : members l.out ≡ ms

overlay-Overlays :
    (biggest al : ℕ) (ms : List Member)
    → IsPow2 al
    → All (λ m. HasShape m.1) ms
    → Overlays biggest al ms (overlay biggest al ms)
unfolding overlay
overlay-Overlays biggest al [] p hs = record {
  power = p;
  grows = omega arith;
  larger = omega arith;
  exact = omega arith;
  aligned = let pos = IsPow2-pos p in omega (arith, pos);
  fits = omega arith;
  overlaid = tt;
  widest = tt;
  same = refl;
}
overlay-Overlays biggest al ((name, kind) ∷ ms) p hs =
    let pos = IsPow2-pos hs.0.0 in
    let one : max (align kind) 1 ≡ align kind = omega arith in
    let ih =
      overlay-Overlays (max biggest (size kind)) (max al (max (align kind) 1)) ms
        (rw one (IsPow2-max p hs.0.0)) hs.1 in
    record {
      power = ih.power;
      grows = omega (arith, ih.grows);
      larger = omega (arith, ih.larger);
      exact = omega (arith, ih.exact);
      aligned = omega (arith, ih.aligned, pos);
      fits = omega (arith, ih.fits);
      overlaid = (refl, omega (arith, ih.larger), ih.overlaid);
      widest = (omega (arith, ih.grows), ih.widest);
      same = ap (λ t. (name, kind) ∷ t) ih.same;
    }

-- A union's layout: the alignment is the strictest member's, and a power of two; the size is the first
-- multiple of it that has room for the largest member; the fields are the members in their order, all at 0
-- and within the size.
pub record IsUnion (ms : List Member) (l : CLayout) : Type 0 where
  pub power : IsPow2 (align_of l)
  pub aligned : align_of l ≡ strictest ms
  pub whole : size_of l % align_of l ≡ 0
  pub room : largest ms ≤ size_of l
  pub tight : size_of l < largest ms + align_of l
  pub overlaid : Overlaid (size_of l) (fields_of l)
  pub widest : AlignsWithin (align_of l) (fields_of l)
  pub same : members (fields_of l) ≡ ms

-- Members of good shape whose sizes and alignments sum to less than the address space are laid out
-- as a union. Its alignment is the strictest member's, a power of two; its size is the first multiple of
-- that with room for the largest member; its fields are the members in their order, all at 0 and within
-- the size.
pub of_union-IsUnion :
    (ms : List Member)
    → All (λ m. HasShape m.1) ms
    → span ms + 1 < 2 ^ 64
    → IsUnion ms (of_union ms)
unfolding of_union
of_union-IsUnion ms hs h =
    let l = overlay 0 1 ms in
    let ok = overlay-Overlays 0 1 ms (0, omega arith, refl) hs in
    let one : max l.align 1 ≡ l.align = omega (arith, ok.grows) in
    let strict = strictest-pos ms in
    let next = align_up_next l.offset l.align ok.power (omega (arith, ok.fits)) in
    record {
      power = ok.power;
      aligned = omega (arith, ok.aligned, strict);
      room = rw one (omega (arith, next.1, ok.exact));
      tight = rw one (omega (arith, next.2, ok.exact));
      whole = rw one next.0;
      overlaid = Overlaid-mono l.out ok.overlaid (rw one next.1);
      widest = ok.widest;
      same = ok.same;
    }
