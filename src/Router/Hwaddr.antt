-- ===== src/Router/Hwaddr.antt =====
-- tema1/skel.c: hexadecimal digits and hardware addresses as text.
pub mod Format
use protocoale.Base.{
  ℕ, zero, suc, ◌+◌, ◌-◌, ◌*◌, ◌^◌, Bool, true, false, ◌&&◌, not, leb, ltb, ◌==◌, if◌then◌else◌,
  bit_or,
}
use protocoale.Base.Int.{ℤ, pos, negsuc}
use protocoale.Bytes.{Memory, store8}

-- A `char` of the text is a byte; -1 stands for no digit.
unfoldable pub hex2num : ℕ → ℤ
hex2num c =
    if leb b'0' c && leb c b'9'
    then pos (c - b'0')
    else if leb b'a' c && leb c b'f'
    then pos (c - b'a' + 10)
    else if leb b'A' c && leb c b'F'
    then pos (c - b'A' + 10)
    else negsuc 0

-- `(a << 4) | b`.
unfoldable pub byte_of : ℕ → ℕ → ℕ
byte_of a b = bit_or (a * 2 ^ 4) b

-- Two digits of the text `hex`, from offset `at`.
unfoldable pub hex2byte_at : Memory → (at : ℕ) → ℤ
hex2byte_at hex at = elim (hex2num (hex at)) [
  | negsuc n ↦ negsuc 0
  | pos a ↦ elim (hex2num (hex (at + 1))) [ negsuc n ↦ negsuc 0 | pos b ↦ pos (byte_of a b) ]
]

unfoldable pub hex2byte : Memory → ℤ
hex2byte hex = hex2byte_at hex 0

-- The returned value, and the bytes at `addr`, which a failure leaves partly written.
pub record Converted : Type 0 where
  pub result : ℤ
  pub addr : Memory

-- The rounds from `i` on, `left` of them, with `txt` at offset `at`.
unfoldable pub aton_rounds : Memory → (left i at : ℕ) → Memory → Converted
aton_rounds txt zero i at addr = record { result = pos 0; addr = addr }
aton_rounds txt (suc left) i at addr = elim (hex2byte_at txt at) [
  | negsuc n ↦ record { result = negsuc 0; addr = addr }
  | pos byte ↦
      let written = store8 addr i byte in
      let rest = aton_rounds txt left (i + 1) (at + 3) written in
      if ltb i 5 && not (txt (at + 2) == b':')
      then record { result = negsuc 0; addr = written }
      else rest
]

unfoldable pub hwaddr_aton : Memory → Memory → Converted
hwaddr_aton txt addr = aton_rounds txt 6 0 0 addr
