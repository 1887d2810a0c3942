-- ===== src/Bits.antt =====
-- `|` of fields that do not overlap is their sum.
mod Step
pub mod Xor
use Prim.Native.Nat.{bit_and, bit_and-bitwise}
use Step.{bit_or_step, zero-bit_or}
use protocoale.Base.{ℕ, ◌+◌, ◌*◌, ◌/◌, ◌%◌, ◌^◌, ◌<◌, bit_or, ◌≡◌, ap, ◌∙◌, arith}

-- Four digits at once, where those of one side are zero.
low_nibble :
    (x y : ℕ)
    → y % 16 ≡ 0
    → bit_or x y ≡ bit_or (x / 2 / 2 / 2 / 2) (y / 2 / 2 / 2 / 2) * 16 + x % 16
low_nibble x y none_there = omega (
  arith,
  bit_or_step x y,
  bit_or_step (x / 2) (y / 2),
  bit_or_step (x / 2 / 2) (y / 2 / 2),
  bit_or_step (x / 2 / 2 / 2) (y / 2 / 2 / 2),
)

nibble_of_right :
    (x y : ℕ)
    → x % 16 ≡ 0
    → bit_or x y ≡ bit_or (x / 2 / 2 / 2 / 2) (y / 2 / 2 / 2 / 2) * 16 + y % 16
nibble_of_right x y none_there = omega (
  arith,
  bit_or_step x y,
  bit_or_step (x / 2) (y / 2),
  bit_or_step (x / 2 / 2) (y / 2 / 2),
  bit_or_step (x / 2 / 2 / 2) (y / 2 / 2 / 2),
)

-- The quotients are named by equations.
bit_or_at : {x y : ℕ} (a b : ℕ) → x ≡ a → y ≡ b → bit_or x y ≡ bit_or a b
bit_or_at a b p q = cc

-- A digit below 16 alone.
digit_alone : (a : ℕ) → a < 16 → bit_or a 0 ≡ a
digit_alone a small =
    let above =
      bit_or_at {x = a / 2 / 2 / 2 / 2} {y = 0 / 2 / 2 / 2 / 2} 0 0 (omega arith) (omega arith) in
    omega (arith, low_nibble a 0, above, zero-bit_or 0)

-- `(a << 4) | b`.
pub bit_or_nibbles : (a b : ℕ) → a < 16 → b < 16 → bit_or (a * 2 ^ 4) b ≡ a * 16 + b
bit_or_nibbles a b p q =
    let above =
      bit_or_at {x = a * 2 ^ 4 / 2 / 2 / 2 / 2} {y = b / 2 / 2 / 2 / 2} a 0 (omega arith)
        (omega arith) in
    omega (arith, nibble_of_right (a * 2 ^ 4) b, above, digit_alone a p)

-- `high | (low << 8)`.
pub bit_or_bytes : (a b : ℕ) → a < 256 → bit_or a (b * 2 ^ 8) ≡ b * 256 + a
bit_or_bytes a b p =
    let a' = a / 2 / 2 / 2 / 2 in
    let b' = b * 2 ^ 8 / 2 / 2 / 2 / 2 in
    let above =
      bit_or_at {x = a' / 2 / 2 / 2 / 2} {y = b' / 2 / 2 / 2 / 2} 0 b (omega arith) (omega arith) in
    omega (arith, low_nibble a (b * 2 ^ 8), low_nibble a' b', above, zero-bit_or b)

pub zero-bit_and : (y : ℕ) → bit_and 0 y ≡ 0
zero-bit_and y = simp bit_and-bitwise
