-- ===== src/Router/Hwaddr/Format.antt =====
-- `hwaddr_aton` reads back what a hardware address is printed as, and accepts nothing else.
use protocoale.Base.{
  ℕ, zero, suc, ◌+◌, ◌-◌, ◌*◌, ◌/◌, ◌%◌, ◌≤◌, ◌<◌, ◌≡◌, ◌≢◌, refl, arith, ltb, ◌==◌, if◌then◌else◌,
  ◌∙◌, ap, subst, ◌&&◌, not, true, false,
}
use native.Mathlib.Decide.{ℕ_discrete}
use protocoale.Base.Int.{pos, negsuc}
use protocoale.Bits.{bit_or_nibbles}
use protocoale.Bytes.{Memory, store8}
use protocoale.Router.Hwaddr.{hex2num, byte_of, hex2byte_at, aton_rounds, hwaddr_aton}

-- A digit in lower case, as `%x` prints it.
unfoldable pub hex_digit : ℕ → ℕ
hex_digit d = if ltb d 10 then b'0' + d else b'a' + (d - 10)

-- `sprintf(txt, "%02x:%02x:%02x:%02x:%02x:%02x", ...)` of the bytes of `mac`, and a terminator.
unfoldable pub format_mac : Memory → Memory
format_mac mac i =
    if ltb i 17
    then (if i % 3 == 0
        then hex_digit (mac (i / 3) / 16)
        else if i % 3 == 1
        then hex_digit (mac (i / 3) % 16)
        else b':')
    else 0

pub hex2num-hex_digit : (d : ℕ) → d < 16 → hex2num (hex_digit d) ≡ pos d
unfolding hex2num hex_digit
hex2num-hex_digit d h = ground arith

-- Digits are below 16.
pub hex2num-lt : (c d : ℕ) → hex2num c ≡ pos d → d < 16
unfolding hex2num
hex2num-lt c d h = ground arith

byte_of_sum : (a b : ℕ) → a < 16 → b < 16 → byte_of a b ≡ a * 16 + b
unfolding byte_of
byte_of_sum a b p q = bit_or_nibbles a b p q

hex2byte_at-digits :
    (hex : Memory) (at a b : ℕ)
    → hex2num (hex at) ≡ pos a
    → hex2num (hex (at + 1)) ≡ pos b
    → hex2byte_at hex at ≡ pos (byte_of a b)
unfolding hex2byte_at
hex2byte_at-digits hex at a b p q = ground arith

hex2byte_at_inv :
    (hex : Memory) (at byte : ℕ)
    → hex2byte_at hex at ≡ pos byte
    → (hex2num (hex at) ≢ negsuc 0) × (hex2num (hex (at + 1)) ≢ negsuc 0)
unfolding hex2byte_at
hex2byte_at_inv hex at byte h = ground arith

aton_rounds-suc :
    (txt : Memory) (left i at : ℕ) (addr : Memory) (byte : ℕ)
    → hex2byte_at txt at ≡ pos byte
    → (ltb i 5 && not (txt (at + 2) == b':')) ≡ false
    → aton_rounds txt (suc left) i at addr
      ≡ aton_rounds txt left (i + 1) (at + 3) (store8 addr i byte)
unfolding aton_rounds
aton_rounds-suc txt left i at addr byte p q = ground arith

-- What a successful round has seen.
aton_rounds_inv :
    (txt : Memory) (left i at : ℕ) (addr : Memory)
    → (aton_rounds txt (suc left) i at addr).result ≡ pos 0
    → (byte : ℕ) × (hex2byte_at txt at ≡ pos byte)
      × (i < 5 → txt (at + 2) ≡ b':')
      × ((aton_rounds txt left (i + 1) (at + 3) (store8 addr i byte)).result ≡ pos 0)
unfolding aton_rounds
aton_rounds_inv txt left i at addr h = ground arith

module _ (mac : Memory) (k : ℕ) (six : k < 6) where
  high_digit : format_mac mac (3 * k) ≡ hex_digit (mac k / 16)
  unfolding format_mac
  high_digit =
      let inside : ltb (3 * k) 17 ≡ true = ground arith in
      let first : (3 * k % 3 == 0) ≡ true = ground arith in
      let e : 3 * k / 3 ≡ k = omega arith in rw (inside, first, e) refl

  low_digit : format_mac mac (3 * k + 1) ≡ hex_digit (mac k % 16)
  unfolding format_mac
  low_digit =
      let inside : ltb (3 * k + 1) 17 ≡ true = ground arith in
      let first : ((3 * k + 1) % 3 == 0) ≡ false = ground arith in
      let second : ((3 * k + 1) % 3 == 1) ≡ true = ground arith in
      let e : (3 * k + 1) / 3 ≡ k = omega arith in rw (inside, first, second, e) refl

  separator : k < 5 → format_mac mac (3 * k + 2) ≡ b':'
  unfolding format_mac
  separator five =
      let inside : ltb (3 * k + 2) 17 ≡ true = ground arith in
      let first : ((3 * k + 2) % 3 == 0) ≡ false = ground arith in
      let second : ((3 * k + 2) % 3 == 1) ≡ false = ground arith in rw (inside, first, second) refl

  hex2byte_at-format : mac k < 256 → hex2byte_at (format_mac mac) (3 * k) ≡ pos (mac k)
  hex2byte_at-format b =
      let low : mac k % 16 < 16 = omega arith in
      hex2byte_at-digits (format_mac mac) (3 * k) (mac k / 16) (mac k % 16)
        (ap hex2num high_digit ∙ hex2num-hex_digit (mac k / 16) (omega arith))
        (ap hex2num low_digit ∙ hex2num-hex_digit (mac k % 16) low)
      ∙ ap pos (byte_of_sum (mac k / 16) (mac k % 16) (omega arith) low ∙ omega arith)

-- The bytes of `addr` once the rounds up to `n` are done.
abbrev pub copied : Memory → Memory → ℕ → Memory
copied mac addr n i = if ltb i n then mac i else addr i

module _ (mac addr : Memory) (bytes : (k : ℕ) → k < 6 → mac k < 256) where
  aton_rounds-format :
      (left i : ℕ) (now : Memory)
      → i + left ≡ 6
      → ((k : ℕ) → now k ≡ copied mac addr i k)
      → ((aton_rounds (format_mac mac) left i (3 * i) now).result ≡ pos 0)
        × ((k : ℕ) → (aton_rounds (format_mac mac) left i (3 * i) now).addr k ≡ copied mac addr 6 k)
  unfolding aton_rounds
  aton_rounds-format zero i now e h =
      let six : i ≡ 6 = omega arith in
      (refl, λ k. subst (λ n. now k ≡ copied mac addr n k) six (h k))
  aton_rounds-format (suc left) i now e h =
      let six : i < 6 = omega arith in
      let written = store8 now i (mac i) in
      let next : 3 * i + 3 ≡ 3 * (i + 1) = omega arith in
      let goes_on : (ltb i 5 && not (format_mac mac (3 * i + 2) == b':')) ≡ false =
        ground (arith, separator mac i six) in
      rw
        (
          aton_rounds-suc (format_mac mac) left i (3 * i) now (mac i)
              (hex2byte_at-format mac i six (bytes i six)) goes_on,
          next,
        )
        (aton_rounds-format left (i + 1) written (omega arith)
          (unfold store8 in (λ k. ground (arith, h k, bytes i six))))

  -- The text that a hardware address is printed as is read back as its six bytes, and nothing
  -- behind them is written.
  pub hwaddr_aton-format :
      ((hwaddr_aton (format_mac mac) addr).result ≡ pos 0)
      × ((k : ℕ) → (hwaddr_aton (format_mac mac) addr).addr k ≡ (if ltb k 6 then mac k else addr k))
  unfolding hwaddr_aton
  hwaddr_aton-format = aton_rounds-format 6 0 addr refl (λ k. ground arith)

-- A text that is accepted has two digits for each byte and five colons.
abbrev pub Accepted : Memory → ℕ → Type 0
Accepted txt k =
    (hex2num (txt (3 * k)) ≢ negsuc 0)
    × (hex2num (txt (3 * k + 1)) ≢ negsuc 0)
    × (k < 5 → txt (3 * k + 2) ≡ b':')

abbrev pub IsMacText : Memory → Type 0
IsMacText txt = (k : ℕ) → k < 6 → Accepted txt k

aton_rounds-accepts :
    (txt : Memory) (left i : ℕ) (addr : Memory) (k : ℕ)
    → i + left ≡ 6
    → (aton_rounds txt left i (3 * i) addr).result ≡ pos 0
    → i ≤ k
    → k < 6
    → Accepted txt k
aton_rounds-accepts txt zero i addr k e r p q = absurd (omega arith)
aton_rounds-accepts txt (suc left) i addr k e r p q =
    let (byte, digits, colon, rest) = aton_rounds_inv txt left i (3 * i) addr r in
    let next : 3 * i + 3 ≡ 3 * (i + 1) = omega arith in
    elim (ℕ_discrete i k) [
      | yes here ↦
          subst (Accepted txt) here
            (let both = hex2byte_at_inv txt (3 * i) byte digits in (both.0, both.1, colon))
      | no later ↦
          aton_rounds-accepts txt left (i + 1) (store8 addr i byte) k (omega arith)
            (rw (← next) rest) (omega arith) q
    ]

-- Whatever `hwaddr_aton` accepts has that form.
hwaddr_aton-IsMacText : (txt addr : Memory) → (hwaddr_aton txt addr).result ≡ pos 0 → IsMacText txt
unfolding hwaddr_aton
hwaddr_aton-IsMacText txt addr h k six = aton_rounds-accepts txt 6 0 addr k refl h (omega arith) six
