-- ===== src/Bits/Step.antt =====
-- `|` works digit by digit: one equation for the lowest digit. The native operation stands for a
-- recursion on digits with fuel, and more fuel than the number is as good as the number.
use Prim.Native.Nat.{max, digits, bit_or-bitwise}
use protocoale.Base.{
  ℕ, zero, suc, ◌+◌, ◌-◌, ◌*◌, ◌/◌, ◌%◌, ◌≤◌, bit_or, ◌≡◌, refl, arith, ◌∙◌, subst,
}

abbrev or_digits : ℕ → ℕ → ℕ → ℕ
or_digits fuel = digits (λ rest. rest) max fuel

one_more : (fuel x y : ℕ) → x ≤ fuel → or_digits (suc fuel) x y ≡ or_digits fuel x y
one_more zero zero y le = refl
one_more (suc fuel) zero y le = refl
one_more zero (suc x) y le = absurd (omega arith)
one_more (suc fuel) (suc x) y le = omega (arith, one_more fuel (suc x / 2) (y / 2) (omega arith))

surplus : (spare fuel x y : ℕ) → fuel ≡ spare + x → or_digits fuel x y ≡ or_digits x x y
surplus zero fuel x y e =
    let same : x ≡ fuel = omega arith in subst (λ n. or_digits n x y ≡ or_digits x x y) same refl
surplus (suc spare) zero x y e = absurd (omega arith)
surplus (suc spare) (suc fuel) x y e =
    one_more fuel x y (omega arith) ∙ surplus spare fuel x y (omega arith)

pub bit_or_step : (x y : ℕ) → bit_or x y ≡ bit_or (x / 2) (y / 2) * 2 + max (x % 2) (y % 2)
bit_or_step zero y = simp bit_or-bitwise (omega arith)
bit_or_step (suc x) y =
    let half = suc x / 2 in
    simp bit_or-bitwise (omega (arith, surplus (x - half) x half (y / 2) (omega arith)))

pub zero-bit_or : (y : ℕ) → bit_or 0 y ≡ y
zero-bit_or y = simp bit_or-bitwise
