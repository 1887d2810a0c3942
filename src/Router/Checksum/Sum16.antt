-- ===== src/Router/Checksum/Sum16.antt =====
-- What the checksum is about: the sum of the big-endian 16-bit words of a block, and the same sum
-- of a block that begins in the middle of a word.
use protocoale.Base.{ℕ, zero, suc, ◌+◌, ◌*◌, ◌%◌, ◌≤◌, ◌<◌, ◌≡◌, refl, arith}
use protocoale.Bytes.{Memory}

-- An odd last byte is the high half of a word.
unfoldable pub sum16 : Memory → (at length : ℕ) → ℕ
sum16 m at zero = 0
sum16 m at (suc zero) = 256 * m at
sum16 m at (suc (suc n)) = 256 * m at + m (at + 1) + sum16 m (at + 2) n

unfoldable pub odd_sum : Memory → (at length : ℕ) → ℕ
unfolding sum16
odd_sum m at zero = 0
odd_sum m at (suc n) = m at + sum16 m (at + 1) n

pub sum16-suc : (m : Memory) (at n : ℕ) → sum16 m at (suc n) ≡ 256 * m at + odd_sum m (at + 1) n
unfolding odd_sum
sum16-suc m at zero = omega arith
sum16-suc m at (suc n) = let e : at + 1 + 1 ≡ at + 2 = omega arith in rw e (omega arith)

-- Half a word further on, every byte weighs 256 times as much, modulo 2^16 - 1.
pub odd_sum-mod : (m : Memory) (at n : ℕ) → 256 * odd_sum m at n % 65535 ≡ sum16 m at n % 65535
unfolding odd_sum
odd_sum-mod m at zero = omega arith
odd_sum-mod m at (suc n) = rw (sum16-suc m at n) (omega (arith, odd_sum-mod m (at + 1) n))

pub sum16-blocks :
    (m : Memory) (k at r : ℕ) → sum16 m at (k * 4 + r) ≡ sum16 m at (k * 4) + sum16 m (at + k * 4) r
unfolding sum16
sum16-blocks m zero at r =
    let e : zero * 4 + r ≡ r = omega arith in
    let f : at + zero * 4 ≡ at = omega arith in rw (e, f) (omega arith)
sum16-blocks m (suc k) at r =
    let e : suc k * 4 + r ≡ suc (suc (suc (suc (k * 4 + r)))) = omega arith in
    let f : at + suc k * 4 ≡ at + 2 + 2 + k * 4 = omega arith in
    let g : suc k * 4 ≡ suc (suc (suc (suc (k * 4)))) = omega arith in
    rw (e, f, g) (omega (arith, sum16-blocks m k (at + 2 + 2) r))

-- Only the bytes of the block count.
pub sum16-ext :
    (m m' : Memory) (at n : ℕ)
    → ((i : ℕ) → at ≤ i → i < at + n → m i ≡ m' i)
    → sum16 m at n ≡ sum16 m' at n
unfolding sum16
sum16-ext m m' at zero h = refl
sum16-ext m m' at (suc zero) h = omega (arith, h at)
sum16-ext m m' at (suc (suc n)) h =
    omega (
      arith,
      h at,
      h (at + 1),
      sum16-ext m m' (at + 2) n (λ i p q. h i (omega arith) (omega arith)),
    )
