-- ===== src/Router/Checksum/Carries.antt =====
-- The deferred carries keep the sum modulo 2^16 - 1 and leave 16 bits.
use protocoale.Base.{ℕ, zero, suc, ◌+◌, ◌*◌, ◌/◌, ◌%◌, ◌^◌, ◌<◌, ◌≡◌, arith}
use protocoale.Bits.{bit_or_bytes}
use protocoale.Router.Checksum.{fold_carries, defer_carries, swap_bytes}

-- One round more than the halvings of the number of bits above 16.
fold_carries-mod :
    (fuel acc : ℕ)
    → 0 < acc
    → (fold_carries fuel acc % 65535 ≡ acc % 65535) × (0 < fold_carries fuel acc)
unfolding fold_carries
fold_carries-mod zero acc h = omega arith
fold_carries-mod (suc fuel) acc h =
    ground (arith, fold_carries-mod fuel (acc % 2 ^ 16 + acc / 2 ^ 16))

-- Four rounds end the loop by its own test.
fold_carries_done : (acc : ℕ) → acc < 2 ^ 33 → fold_carries 4 acc < 2 ^ 16
unfolding fold_carries
fold_carries_done acc h = ground arith

pub defer_carries-mod :
    (acc : ℕ)
    → acc < 2 ^ 64
    → 0 < acc
    → (defer_carries acc % 65535 ≡ acc % 65535)
      × (0 < defer_carries acc)
      × (defer_carries acc < 2 ^ 16)
unfolding defer_carries
defer_carries-mod acc h p =
    let low = acc % 2 ^ 32 + acc / 2 ^ 32 in
    omega (arith, fold_carries-mod 4 low (omega arith), fold_carries_done low (omega arith))

-- To swap the halves of a 16-bit number is to multiply by 256 modulo 2^16 - 1.
pub swap_bytes-mod :
    (acc : ℕ)
    → acc < 2 ^ 16
    → 0 < acc
    → (swap_bytes acc % 65535 ≡ 256 * acc % 65535)
      × (0 < swap_bytes acc)
      × (swap_bytes acc < 2 ^ 16)
unfolding swap_bytes
swap_bytes-mod acc h p =
    omega (arith, bit_or_bytes (acc / 2 ^ 8 % 2 ^ 8) (acc % 2 ^ 8) (omega arith))
