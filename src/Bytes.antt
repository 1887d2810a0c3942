-- ===== src/Bytes.antt =====
-- Byte memory of the programs: a C array of bytes is a function from offsets to bytes, the host is
-- little-endian (x86), and `htons` and its kin swap bytes.
pub mod Copy
use protocoale.Base.{
  ℕ, zero, suc, ◌+◌, ◌*◌, ◌/◌, ◌%◌, ◌^◌, ◌<◌, ◌≡◌, List, [], ◌∷◌, arith, ◌==◌, if◌then◌else◌,
}

abbrev pub Memory : Type 0
Memory = ℕ → ℕ

-- Every cell holds a byte.
abbrev pub IsBytes : Memory → Type 0
IsBytes m = (i : ℕ) → m i < 256

-- A `uint16_t` and a `uint32_t` read at an offset, lowest byte first.
unfoldable pub load16 : Memory → ℕ → ℕ
load16 m a = m a + 256 * m (a + 1)

unfoldable pub load32 : Memory → ℕ → ℕ
load32 m a = m a + 256 * m (a + 1) + 65536 * m (a + 2) + 16777216 * m (a + 3)

unfoldable pub store8 : Memory → ℕ → ℕ → Memory
store8 m a v i = if i == a then v % 256 else m i

unfoldable pub store16 : Memory → ℕ → ℕ → Memory
unfolding store8
store16 m a v = store8 (store8 m a v) (a + 1) (v / 256)

unfoldable pub store32 : Memory → ℕ → ℕ → Memory
unfolding store16
store32 m a v = store16 (store16 m a v) (a + 2) (v / 65536)

-- The `n` bytes from an offset on, and bytes written from an offset on: `memcpy(dst + a, src + b, n)`
-- is `write_bytes dst a (read_bytes src b n)`.
unfoldable pub read_bytes : Memory → (at n : ℕ) → List ℕ
read_bytes m at zero = []
read_bytes m at (suc n) = m at ∷ read_bytes m (at + 1) n

unfoldable pub write_bytes : Memory → (at : ℕ) → List ℕ → Memory
write_bytes m at [] = m
write_bytes m at (x ∷ xs) = write_bytes (λ i. if i == at then x else m i) (at + 1) xs

-- `htons` and `ntohs` of the low 16 bits, `htonl` and `ntohl` of the low 32.
unfoldable pub htons : ℕ → ℕ
htons n = n % 256 * 256 + n / 256 % 256

unfoldable pub htonl : ℕ → ℕ
htonl n = n % 256 * 16777216 + n / 256 % 256 * 65536 + n / 65536 % 256 * 256 + n / 16777216 % 256

pub htons-htons : (n : ℕ) → n < 2 ^ 16 → htons (htons n) ≡ n
unfolding htons
htons-htons n h = omega arith

pub htonl-htonl : (n : ℕ) → n < 2 ^ 32 → htonl (htonl n) ≡ n
unfolding htonl
htonl-htonl n h = omega arith
