-- ===== src/Base/Int.antt =====
-- Signed integers over the native numbers: `negsuc n` is -(n + 1). A C `int` is one of these.
use protocoale.Base.{
  ℕ, zero, suc, ◌+◌, ◌-◌, ◌%◌, ◌^◌, ◌≤◌, ◌<◌, ◌≡◌, arith, Bool, false, ◌==◌, ltb, leb,
  if◌then◌else◌,
}

pub data ℤ : Type 0 where
  pos : ℕ → ℤ
  negsuc : ℕ → ℤ

abbrev pub pos_part : ℤ → ℕ
pos_part (pos n) = n
pos_part (negsuc n) = 0

abbrev pub neg_part : ℤ → ℕ
neg_part (pos n) = 0
neg_part (negsuc n) = suc n

-- a - b, as an integer.
abbrev pub sub_ℕ : ℕ → ℕ → ℤ
sub_ℕ a b = if leb b a then pos (a - b) else negsuc (b - a - 1)

infix 50 ◌<ℤ◌ ◌≤ℤ◌
abbrev pub ◌<ℤ◌ : ℤ → ℤ → Type 0
a <ℤ b = pos_part a + neg_part b < pos_part b + neg_part a

abbrev pub ◌≤ℤ◌ : ℤ → ℤ → Type 0
a ≤ℤ b = pos_part a + neg_part b ≤ pos_part b + neg_part a

abbrev pub ltb_ℤ : ℤ → ℤ → Bool
ltb_ℤ a b = ltb (pos_part a + neg_part b) (pos_part b + neg_part a)

-- The value of an `int` whose 32 bits are the low bits of `n`, as a conversion leaves them.
abbrev pub to_int : (n : ℕ) → ℤ
to_int n = if ltb (n % 2 ^ 32) (2 ^ 31) then pos (n % 2 ^ 32) else negsuc (2 ^ 32 - 1 - n % 2 ^ 32)

-- A wider signed number as an `int`.
abbrev pub narrowed : ℤ → ℤ
narrowed (pos n) = to_int n
narrowed (negsuc n) = to_int (2 ^ 32 - 1 - n % 2 ^ 32)

-- The number fits into an `int`.
abbrev pub IsInt : ℤ → Type 0
IsInt (pos n) = n < 2 ^ 31
IsInt (negsuc n) = n < 2 ^ 31

pub narrowed-IsInt : (z : ℤ) → IsInt z → narrowed z ≡ z
narrowed-IsInt (pos n) h = ground arith
narrowed-IsInt (negsuc n) h = ground arith

-- `n++` and `n--`.
abbrev pub incremented : ℤ → ℤ
incremented (pos n) = pos (n + 1)
incremented (negsuc zero) = pos 0
incremented (negsuc (suc n)) = negsuc n

abbrev pub decremented : ℤ → ℤ
decremented (pos zero) = negsuc 0
decremented (pos (suc n)) = pos n
decremented (negsuc n) = negsuc (n + 1)

-- `a == b`.
abbrev pub eq_ℤ : ℤ → ℤ → Bool
eq_ℤ (pos a) (pos b) = a == b
eq_ℤ (pos a) (negsuc b) = false
eq_ℤ (negsuc a) (pos b) = false
eq_ℤ (negsuc a) (negsuc b) = a == b
