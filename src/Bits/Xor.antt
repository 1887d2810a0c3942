-- ===== src/Bits/Xor.antt =====
-- `^` digit by digit, and its laws at every width.
use Prim.Native.Nat.{digits, differ, bit_xor-bitwise}
use protocoale.Base.{
  ℕ, zero, suc, ◌+◌, ◌-◌, ◌*◌, ◌/◌, ◌%◌, ◌≤◌, ◌<◌, bit_xor, ◌≡◌, refl, arith, ◌∙◌, sym, ap, subst,
}

abbrev xor_digits : ℕ → ℕ → ℕ → ℕ
xor_digits fuel = digits (λ rest. rest) differ fuel

one_more : (fuel x y : ℕ) → x ≤ fuel → xor_digits (suc fuel) x y ≡ xor_digits fuel x y
one_more zero zero y le = refl
one_more (suc fuel) zero y le = refl
one_more zero (suc x) y le = absurd (omega arith)
one_more (suc fuel) (suc x) y le = omega (arith, one_more fuel (suc x / 2) (y / 2) (omega arith))

surplus : (spare fuel x y : ℕ) → fuel ≡ spare + x → xor_digits fuel x y ≡ xor_digits x x y
surplus zero fuel x y e =
    let same : x ≡ fuel = omega arith in subst (λ n. xor_digits n x y ≡ xor_digits x x y) same refl
surplus (suc spare) zero x y e = absurd (omega arith)
surplus (suc spare) (suc fuel) x y e =
    one_more fuel x y (omega arith) ∙ surplus spare fuel x y (omega arith)

differ-mod : (a b : ℕ) → a < 2 → b < 2 → differ a b ≡ (a + b) % 2
differ-mod zero zero p q = refl
differ-mod zero (suc zero) p q = refl
differ-mod (suc zero) zero p q = refl
differ-mod (suc zero) (suc zero) p q = refl
differ-mod zero (suc (suc b)) p q = absurd (omega arith)
differ-mod (suc zero) (suc (suc b)) p q = absurd (omega arith)
differ-mod (suc (suc a)) b p q = absurd (omega arith)

differ_step : (x y : ℕ) → bit_xor x y ≡ bit_xor (x / 2) (y / 2) * 2 + differ (x % 2) (y % 2)
differ_step zero y = simp bit_xor-bitwise (omega arith)
differ_step (suc x) y =
    let half = suc x / 2 in
    simp bit_xor-bitwise (omega (arith, surplus (x - half) x half (y / 2) (omega arith)))

pub bit_xor_step : (x y : ℕ) → bit_xor x y ≡ bit_xor (x / 2) (y / 2) * 2 + (x + y) % 2
bit_xor_step x y =
    omega (arith, differ_step x y, differ-mod (x % 2) (y % 2) (omega arith) (omega arith))

pub zero-bit_xor : (y : ℕ) → bit_xor 0 y ≡ y
zero-bit_xor y = simp bit_xor-bitwise

half_of : (x y : ℕ) → bit_xor x y / 2 ≡ bit_xor (x / 2) (y / 2)
half_of x y = omega (arith, bit_xor_step x y)

assoc_fuel : (fuel x y z : ℕ) → x + y + z ≤ fuel → bit_xor (bit_xor x y) z ≡ bit_xor x (bit_xor y z)
assoc_fuel zero x y z h =
    let nx : 0 ≡ x = omega arith in
    let ny : 0 ≡ y = omega arith in
    let nz : 0 ≡ z = omega arith in
    subst (λ a. bit_xor (bit_xor a y) z ≡ bit_xor a (bit_xor y z)) nx
      (subst (λ b. bit_xor (bit_xor 0 b) z ≡ bit_xor 0 (bit_xor b z)) ny
        (subst (λ c. bit_xor (bit_xor 0 0) c ≡ bit_xor 0 (bit_xor 0 c)) nz refl))
assoc_fuel (suc fuel) x y z h = omega (
  arith,
  bit_xor_step (bit_xor x y) z,
  bit_xor_step x (bit_xor y z),
  bit_xor_step x y,
  bit_xor_step y z,
  ap (λ n. bit_xor n (z / 2)) (half_of x y),
  ap (λ n. bit_xor (x / 2) n) (half_of y z),
  assoc_fuel fuel (x / 2) (y / 2) (z / 2) (omega arith),
)

pub bit_xor_assoc : (x y z : ℕ) → bit_xor (bit_xor x y) z ≡ bit_xor x (bit_xor y z)
bit_xor_assoc x y z = assoc_fuel (x + y + z) x y z (omega arith)

comm_fuel : (fuel x y : ℕ) → x + y ≤ fuel → bit_xor x y ≡ bit_xor y x
comm_fuel zero x y h =
    let nx : 0 ≡ x = omega arith in
    let ny : 0 ≡ y = omega arith in
    subst (λ a. bit_xor a y ≡ bit_xor y a) nx (subst (λ b. bit_xor 0 b ≡ bit_xor b 0) ny refl)
comm_fuel (suc fuel) x y h =
    omega (arith, bit_xor_step x y, bit_xor_step y x, comm_fuel fuel (x / 2) (y / 2) (omega arith))

pub bit_xor_comm : (x y : ℕ) → bit_xor x y ≡ bit_xor y x
bit_xor_comm x y = comm_fuel (x + y) x y (omega arith)

self_fuel : (fuel x : ℕ) → x ≤ fuel → bit_xor x x ≡ 0
self_fuel zero x h = let nx : 0 ≡ x = omega arith in subst (λ a. bit_xor a a ≡ 0) nx refl
self_fuel (suc fuel) x h = omega (arith, bit_xor_step x x, self_fuel fuel (x / 2) (omega arith))

pub bit_xor_self : (x : ℕ) → bit_xor x x ≡ 0
bit_xor_self x = self_fuel x x (omega arith)

-- `^` with a number other than 0 changes the other side.
pub bit_xor_cancel : (x y : ℕ) → bit_xor x y ≡ x → y ≡ 0
bit_xor_cancel x y e =
    sym (zero-bit_xor y)
    ∙ sym (ap (λ n. bit_xor n y) (bit_xor_self x))
    ∙ bit_xor_assoc x x y
    ∙ ap (bit_xor x) e
    ∙ bit_xor_self x
