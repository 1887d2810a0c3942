-- ===== src/Bytes/Copy.antt =====
-- `memcpy`: what was written is read back, and the other bytes stay.
use protocoale.Base.{
  ℕ, zero, suc, ◌+◌, ◌≤◌, ◌<◌, ◌≡◌, ◌⊎◌, refl, ap, List, [], ◌∷◌, length, arith, ◌==◌,
  if◌then◌else◌,
}
use protocoale.Bytes.{Memory, IsBytes, store16, read_bytes, write_bytes}

abbrev pub AllBytes : List ℕ → Type 0
AllBytes [] = Unit {0}
AllBytes (x ∷ xs) = (x < 256) × AllBytes xs

pub write_bytes_outside :
    (m : Memory) (at : ℕ) (xs : List ℕ) (i : ℕ)
    → (i < at) ⊎ (at + length xs ≤ i)
    → write_bytes m at xs i ≡ m i
unfolding write_bytes
write_bytes_outside m at [] i h = refl
write_bytes_outside m at (x ∷ xs) i h =
    ground (arith, write_bytes_outside (λ k. if k == at then x else m k) (at + 1) xs i)

pub read_bytes-write_bytes :
    (m : Memory) (at : ℕ) (xs : List ℕ) → read_bytes (write_bytes m at xs) at (length xs) ≡ xs
unfolding read_bytes write_bytes
read_bytes-write_bytes m at [] = refl
read_bytes-write_bytes m at (x ∷ xs) = ground (
  arith,
  write_bytes_outside (λ k. if k == at then x else m k) (at + 1) xs at,
  read_bytes-write_bytes (λ k. if k == at then x else m k) (at + 1) xs,
)

pub write_bytes-IsBytes :
    (m : Memory) (at : ℕ) (xs : List ℕ) → IsBytes m → AllBytes xs → IsBytes (write_bytes m at xs)
unfolding write_bytes
write_bytes-IsBytes m at [] b a = b
write_bytes-IsBytes m at (x ∷ xs) b a =
    write_bytes-IsBytes (λ k. if k == at then x else m k) (at + 1) xs (λ i. ground (arith, b i)) a.1

pub read_bytes-AllBytes : (m : Memory) (at n : ℕ) → IsBytes m → AllBytes (read_bytes m at n)
unfolding read_bytes
read_bytes-AllBytes m at zero b = tt
read_bytes-AllBytes m at (suc n) b = (b at, read_bytes-AllBytes m (at + 1) n b)

pub length-read_bytes : (m : Memory) (at n : ℕ) → length (read_bytes m at n) ≡ n
unfolding read_bytes
length-read_bytes m at zero = refl
length-read_bytes m at (suc n) = ap suc (length-read_bytes m (at + 1) n)

pub store16-IsBytes : (m : Memory) (at v : ℕ) → IsBytes m → IsBytes (store16 m at v)
unfolding store16
store16-IsBytes m at v b i = ground (arith, b i)

pub read_bytes-ext :
    (m m' : Memory) (at n : ℕ)
    → ((i : ℕ) → at ≤ i → i < at + n → m' i ≡ m i)
    → read_bytes m' at n ≡ read_bytes m at n
unfolding read_bytes
read_bytes-ext m m' at zero e = refl
read_bytes-ext m m' at (suc n) e = ground (
  arith,
  e at (omega arith) (omega arith),
  read_bytes-ext m m' (at + 1) n (λ i p q. e i (omega arith) (omega arith)),
)
