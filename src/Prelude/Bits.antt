-- ===== src/Prelude/Bits.antt =====
-- `bit_and` at variables: the law for the lowest digit, and masks that clear low bits.
use Prim.Native.Nat.{
  ℕ, zero, suc, ◌+◌, ◌*◌, ◌-◌, ◌/◌, ◌%◌, ◌^◌, ◌≤◌, ◌<◌, min, bit_and, digits, bit_and-bitwise,
}
use mathlib.Core.Path.{◌≡◌, refl, sym, ap, ◌∙◌}
use native.Mathlib.Omega.{arith}
use native.Mathlib.Nat.{pow-suc, mul_comm, div-div-eq-div-mul}

-- The function that `bit_and` stands for, run for `steps` binary digits.
abbrev common : (steps a b : ℕ) → ℕ
common steps a b = digits (λ rest. zero) min steps a b

-- Any number of steps is enough that is not below the first operand; `bound` is for the induction.
common-enough : (bound steps a b : ℕ) → steps ≤ bound → a ≤ steps → common steps a b ≡ bit_and a b
common-enough bound zero zero b h l = sym (bit_and-bitwise zero b)
common-enough bound zero (suc a) b h l = absurd (omega (arith, l))
common-enough zero (suc s) a b h l = absurd (omega (arith, h))
common-enough (suc n) (suc s) zero b h l = sym (bit_and-bitwise zero b)
common-enough (suc n) (suc s) (suc a) b h l =
    let mine = common-enough n s (suc a / 2) (b / 2) (omega (arith, h)) (omega (arith, l)) in
    let its = common-enough n a (suc a / 2) (b / 2) (omega (arith, h, l)) (omega arith) in
    ap (λ r. r * 2 + min (suc a % 2) (b % 2)) (mine ∙ sym its) ∙ sym (bit_and-bitwise (suc a) b)

pub bit_and_halves : (a b : ℕ) → bit_and a b ≡ bit_and (a / 2) (b / 2) * 2 + min (a % 2) (b % 2)
bit_and_halves a b = sym (common-enough (suc a) (suc a) a b (omega arith) (omega arith)) ∙ last a
  where
    last : (a : ℕ) → common (suc a) a b ≡ bit_and (a / 2) (b / 2) * 2 + min (a % 2) (b % 2)
    last zero = omega (arith, bit_and-bitwise zero (b / 2))
    last (suc a) =
        ap (λ r. r * 2 + min (suc a % 2) (b % 2))
          (common-enough (suc a) (suc a) (suc a / 2) (b / 2) (omega arith) (omega arith))

-- A mask of `w` ones keeps a number of `w` bits.
pub bit_and-ones : (w a : ℕ) → a < 2 ^ w → bit_and a (2 ^ w - 1) ≡ a
bit_and-ones zero zero h = refl
bit_and-ones zero (suc a) h = absurd (omega arith)
bit_and-ones (suc w) a h =
    let p = pow-suc 2 w in
    let half : (2 ^ suc w - 1) / 2 ≡ 2 ^ w - 1 = omega arith in
    omega
      (arith, bit_and_halves a (2 ^ suc w - 1), ap_bit half, bit_and-ones w (a / 2) (omega arith))
  where
    ap_bit : {m n : ℕ} → m ≡ n → bit_and (a / 2) m ≡ bit_and (a / 2) n
    ap_bit e = λ i. bit_and (a / 2) (e i)

pow_add_suc : (w k : ℕ) → 2 ^ (w + suc k) ≡ 2 ^ (w + k) * 2
pow_add_suc w k = ap (λ t. 2 ^ t) (omega arith) ∙ pow-suc 2 (w + k)

-- A mask of `w` ones over `k` zeros clears the low `k` bits.
pub bit_and-clear :
    (k w a : ℕ) → a < 2 ^ (w + k) → bit_and a (2 ^ (w + k) - 2 ^ k) ≡ a / 2 ^ k * 2 ^ k
bit_and-clear zero w a h =
    let e : w + 0 ≡ w = omega arith in rw e (omega (arith, bit_and-ones w a (rw e at h)))
bit_and-clear (suc k) w a h =
    let more : 2 ^ (w + suc k) ≡ 2 ^ (w + k) * 2 = pow_add_suc w k in
    let twice : 2 ^ suc k ≡ 2 ^ k * 2 = pow-suc 2 k in
    let mask = 2 ^ (w + suc k) - 2 ^ suc k in
    let half : mask / 2 ≡ 2 ^ (w + k) - 2 ^ k = omega arith in
    let quot : a / 2 ^ suc k ≡ a / 2 / 2 ^ k =
      ap (λ t. a / t) (twice ∙ mul_comm (2 ^ k) 2) ∙ sym (div-div-eq-div-mul a 2 (2 ^ k)) in
    omega (
      arith,
      bit_and_halves a mask,
      ap (bit_and (a / 2)) half,
      bit_and-clear k w (a / 2) (omega arith),
      ap (λ t. t * 2 ^ suc k) quot,
      ap (λ (t : ℕ). a / 2 / 2 ^ k * t) twice,
    )
