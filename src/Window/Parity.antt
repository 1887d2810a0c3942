-- ===== src/Window/Parity.antt =====
-- The parity byte is the exclusive or of the bytes: a flipped bit in one of them flips it in the parity.
use protocoale.Base.{
  ℕ, zero, suc, ◌+◌, ◌^◌, ◌≤◌, ◌<◌, ◌≡◌, ◌≢◌, true, List, [], ◌∷◌, bit_and, ltb, ◌==◌, ==_iff,
  ltb→lt, bit_xor, each, each-at, arith, refl, ap, sym, ◌∙◌, subst,
}
use native.Mathlib.Decide.{ℕ_discrete}
use protocoale.Bytes.{Memory, IsBytes, read_bytes}
use protocoale.Bytes.Copy.{read_bytes-ext}
use protocoale.Bits.Xor.{zero-bit_xor, bit_xor_assoc, bit_xor_comm}
use protocoale.Window.{xor_bits, xor_bytes, parity_of}

eight_bits_table : each (λ c. xor_bits c 8 0 0 == c) 256 ≡ true
unfolding xor_bits
eight_bits_table = refl

flipped_table : each (λ j. each (λ c. ltb (bit_xor c (2 ^ j)) 256) 256) 8 ≡ true
flipped_table = refl

power_table : each (λ j. ltb 0 (2 ^ j)) 8 ≡ true
power_table = refl

-- The eight rounds of the inner loop come to one `^` with the byte.
xor_bits-split : (c left j p : ℕ) → xor_bits c left j p ≡ bit_xor p (xor_bits c left j 0)
unfolding xor_bits
xor_bits-split c zero j p = sym (bit_xor_comm p 0 ∙ zero-bit_xor p)
xor_bits-split c (suc left) j p =
    let bit = bit_and (2 ^ j) c in
    let rest = xor_bits c left (j + 1) 0 in
    xor_bits-split c left (j + 1) (bit_xor p bit)
    ∙ bit_xor_assoc p bit rest
    ∙ ap (bit_xor p) (
        sym (
          xor_bits-split c left (j + 1) (bit_xor 0 bit)
          ∙ ap (λ n. bit_xor n rest) (zero-bit_xor bit)))

eight_bits : (c : ℕ) → c < 256 → xor_bits c 8 0 0 ≡ c
eight_bits c h = (==_iff _ c).0 (each-at (λ x. xor_bits x 8 0 0 == x) 256 c h eight_bits_table)

pub flipped-byte : (c j : ℕ) → c < 256 → j < 8 → bit_xor c (2 ^ j) < 256
flipped-byte c j p q =
    let row = each-at (λ i. each (λ x. ltb (bit_xor x (2 ^ i)) 256) 256) 8 j q flipped_table in
    ltb→lt _ _ (each-at (λ x. ltb (bit_xor x (2 ^ j)) 256) 256 c p row)

pub power-positive : (j : ℕ) → j < 8 → 0 < 2 ^ j
power-positive j h = ltb→lt _ _ (each-at (λ i. ltb 0 (2 ^ i)) 8 j h power_table)

xor_bytes-split : (cs : List ℕ) (p : ℕ) → xor_bytes cs p ≡ bit_xor p (xor_bytes cs 0)
unfolding xor_bytes
xor_bytes-split [] p = sym (bit_xor_comm p 0 ∙ zero-bit_xor p)
xor_bytes-split (c ∷ cs) p =
    let bits = xor_bits c 8 0 0 in
    let rest = xor_bytes cs 0 in
    xor_bytes-split cs (xor_bits c 8 0 p)
    ∙ ap (λ n. bit_xor n rest) (xor_bits-split c 8 0 p)
    ∙ bit_xor_assoc p bits rest
    ∙ ap (bit_xor p) (sym (xor_bytes-split cs bits))

xor_bytes-cons : (c : ℕ) (cs : List ℕ) → c < 256 → xor_bytes (c ∷ cs) 0 ≡ bit_xor c (xor_bytes cs 0)
unfolding xor_bytes
xor_bytes-cons c cs h =
    xor_bytes-split cs (xor_bits c 8 0 0) ∙ ap (λ n. bit_xor n (xor_bytes cs 0)) (eight_bits c h)

-- `m'` is `m` with the byte at `k` changed by `^ e`.
pub record Flipped (m m' : Memory) (k e : ℕ) : Type 0 where
  pub there : m' k ≡ bit_xor (m k) e
  pub bytes : IsBytes m
  pub still_byte : m' k < 256
  pub elsewhere : (i : ℕ) → i ≢ k → m' i ≡ m i

module _ (m m' : Memory) (k e : ℕ) (f : Flipped m m' k e) where
  at_flip :
      (n : ℕ)
      → xor_bytes (read_bytes m' k (suc n)) 0 ≡ bit_xor (xor_bytes (read_bytes m k (suc n)) 0) e
  unfolding read_bytes
  at_flip n =
      let rest = xor_bytes (read_bytes m (k + 1) n) 0 in
      xor_bytes-cons (m' k) (read_bytes m' (k + 1) n) f.still_byte
      ∙ ap (λ r. bit_xor (m' k) (xor_bytes r 0))
          (read_bytes-ext m m' (k + 1) n (λ i p q. f.elsewhere i (omega arith)))
      ∙ ap (λ c. bit_xor c rest) (f.there ∙ bit_xor_comm (m k) e)
      ∙ bit_xor_assoc e (m k) rest
      ∙ bit_xor_comm e (bit_xor (m k) rest)
      ∙ ap (λ c. bit_xor c e) (sym (xor_bytes-cons (m k) (read_bytes m (k + 1) n) (f.bytes k)))

  ahead_of_flip :
      (n at : ℕ)
      → at ≢ k
      → xor_bytes (read_bytes m' (at + 1) n) 0 ≡ bit_xor (xor_bytes (read_bytes m (at + 1) n) 0) e
      → xor_bytes (read_bytes m' at (suc n)) 0 ≡ bit_xor (xor_bytes (read_bytes m at (suc n)) 0) e
  unfolding read_bytes
  ahead_of_flip n at before rest =
      let byte = f.elsewhere at before in
      xor_bytes-cons (m' at) (read_bytes m' (at + 1) n)
        (subst (λ c. c < 256) (sym byte) (f.bytes at))
      ∙ ap (λ c. bit_xor c (xor_bytes (read_bytes m' (at + 1) n) 0)) byte
      ∙ ap (bit_xor (m at)) rest
      ∙ sym (bit_xor_assoc (m at) (xor_bytes (read_bytes m (at + 1) n) 0) e)
      ∙ ap (λ c. bit_xor c e) (sym (xor_bytes-cons (m at) (read_bytes m (at + 1) n) (f.bytes at)))

  flipped-xor_bytes :
      (n at : ℕ)
      → at ≤ k
      → k < at + n
      → xor_bytes (read_bytes m' at n) 0 ≡ bit_xor (xor_bytes (read_bytes m at n) 0) e
  flipped-xor_bytes zero at p q = absurd (omega arith)
  flipped-xor_bytes (suc n) at p q = elim (ℕ_discrete at k) [
    | yes same ↦
        subst
          (λ a.
            xor_bytes (read_bytes m' a (suc n)) 0
            ≡ bit_xor (xor_bytes (read_bytes m a (suc n)) 0) e)
          (sym same) (at_flip n)
    | no before ↦
        ahead_of_flip n at before (flipped-xor_bytes n (at + 1) (omega arith) (omega arith))
  ]

  pub flipped-parity_of : (n : ℕ) → k < n → parity_of m' n ≡ bit_xor (parity_of m n) e
  unfolding parity_of
  flipped-parity_of n h =
      xor_bytes-split (read_bytes m' 0 n) 48
      ∙ ap (bit_xor 48) (flipped-xor_bytes n 0 (omega arith) (omega arith))
      ∙ sym (bit_xor_assoc 48 (xor_bytes (read_bytes m 0 n) 0) e)
      ∙ ap (λ c. bit_xor c e) (sym (xor_bytes-split (read_bytes m 0 n) 48))
