-- ===== src/Cabi/AlignUp.antt =====
-- `align_up` rounds up to a multiple of a power of two.
use Prim.Native.Nat.{bit_and}
use native.Mathlib.Nat.{one-le-pow, lt-div-mul-add, div-mul-le_self, mul-mod_left}
use native.Mathlib.Decide.{dec_le}
use thrax.Prelude.{
  ℕ, ◌+◌, ◌-◌, ◌*◌, ◌/◌, ◌%◌, ◌^◌, ◌≤◌, ◌<◌, ◌≡◌, max, arith, ap, ap₂, ◌∙◌, sym, subst,
}
use thrax.Prelude.Bits.{bit_and-clear}
use thrax.Cabi.{align_up}

-- An alignment that a `usize` holds.
abbrev pub IsPow2 : ℕ → Type 0
IsPow2 a = (k : ℕ) × (k < 64) × (a ≡ 2 ^ k)

pub IsPow2-pos : {a : ℕ} → IsPow2 a → 0 < a
IsPow2-pos (k, b, e) = omega (arith, one-le-pow k 2 (omega arith))

pub IsPow2-max : {a b : ℕ} → IsPow2 a → IsPow2 b → IsPow2 (max a b)
IsPow2-max {a} {b} p q = elim (dec_le a b) [
  | yes h ↦ subst IsPow2 (omega arith) q
  | no h ↦ subst IsPow2 (omega arith) p
]

align_up-eq : (n a : ℕ) → IsPow2 a → n + a < 2 ^ 64 → align_up n a ≡ (n + a - 1) / a * a
unfolding align_up
align_up-eq n a (k, b, e) h =
    let whole : 64 - k + k ≡ 64 = omega arith in
    let all : 2 ^ (64 - k + k) ≡ 2 ^ 64 = ap (λ t. 2 ^ t) whole in
    let low = one-le-pow k 2 (omega arith) in
    ap₂ bit_and (omega arith) (omega arith)
    ∙ bit_and-clear k (64 - k) (n + a - 1) (omega arith)
    ∙ ap (λ t. (n + a - 1) / t * t) (sym e)

-- Where the sum does not wrap, the result is the next multiple: aligned, not below the offset,
-- and less than one alignment above it.
pub align_up_next :
    (n a : ℕ)
    → IsPow2 a
    → n + a < 2 ^ 64
    → (align_up n a % a ≡ 0) × (n ≤ align_up n a) × (align_up n a < n + a)
align_up_next n a p h =
    let pos = IsPow2-pos p in
    let above = lt-div-mul-add {a = n + a - 1} {b = a} pos in
    let below = div-mul-le_self (n + a - 1) a in
    let e = align_up-eq n a p h in
    (ap (λ t. t % a) e ∙ mul-mod_left ((n + a - 1) / a) a, omega arith, omega arith)
