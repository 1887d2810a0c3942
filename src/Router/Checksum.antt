-- ===== src/Router/Checksum.antt =====
-- `checksum` of tema1/skel.c: the Internet checksum of a block of bytes, 32 bits at a time.
pub mod Sum16
pub mod Accumulate
pub mod Carries
pub mod Internet
use protocoale.Base.{
  ℕ, zero, suc, ◌+◌, ◌-◌, ◌*◌, ◌/◌, ◌%◌, ◌^◌, Bool, true, false, ltb, ◌==◌, if◌then◌else◌, bit_or,
}
use protocoale.Bytes.{Memory, load32, htons, htonl}

-- `acc += n` on a `uint64_t`.
unfoldable pub add64 : ℕ → ℕ → ℕ
add64 acc n = (acc + n) % 2 ^ 64

-- `word = 0; memcpy(shift + (char*)&word, at, count)`, read back as a `uint32_t`.
unfoldable pub partial_word : Memory → (at shift count : ℕ) → ℕ
partial_word m at shift zero = 0
partial_word m at shift (suc count) = m at * 256 ^ shift + partial_word m (at + 1) (shift + 1) count

-- The loop over the complete 32-bit blocks, `blocks` of them.
unfoldable pub add_blocks : Memory → (blocks at acc : ℕ) → ℕ
unfolding add64
add_blocks m zero at acc = acc
add_blocks m (suc blocks) at acc = add_blocks m blocks (at + 4) (add64 acc (htonl (load32 m at)))

-- `while (acc>>16) acc=(acc&0xffff)+(acc>>16);` on fuel.
unfoldable pub fold_carries : (fuel acc : ℕ) → ℕ
fold_carries zero acc = acc
fold_carries (suc fuel) acc = elim (acc / 2 ^ 16 == 0) [
  | true ↦ acc
  | false ↦ fold_carries fuel (acc % 2 ^ 16 + acc / 2 ^ 16)
]

-- The deferred carries: 32 bits at once, then 16 bits at a time. Four rounds are enough.
unfoldable pub defer_carries : ℕ → ℕ
unfolding fold_carries
defer_carries acc = fold_carries 4 (acc % 2 ^ 32 + acc / 2 ^ 32)

-- The blocks from `at` on, and the partial block at the end.
unfoldable pub add_rest : Memory → (at length acc : ℕ) → ℕ
unfolding add_blocks partial_word
add_rest m at length acc =
    let done = add_blocks m (length / 4) at acc in
    if length % 4 == 0
    then done
    else add64 done (htonl (partial_word m (at + length / 4 * 4) 0 (length % 4)))

-- How many bytes the partial block at the start has.
unfoldable pub head_count : (offset length : ℕ) → ℕ
head_count offset length = if ltb length (4 - offset) then length else 4 - offset

-- The sum before the carries. `offset` is `at & 3`.
unfoldable pub accumulate : Memory → (offset at length : ℕ) → ℕ
unfolding add_rest head_count
accumulate m offset at length =
    if offset == 0
    then add_rest m at length 0xffff
    else let count = head_count offset length in
      add_rest m (at + count) (length - count)
        (add64 0xffff (htonl (partial_word m at offset count)))

-- `((acc&0xff00)>>8)|((acc&0x00ff)<<8)`.
unfoldable pub swap_bytes : ℕ → ℕ
swap_bytes acc = bit_or (acc / 2 ^ 8 % 2 ^ 8) (acc % 2 ^ 8 * 2 ^ 8)

-- `base` is the address of the array `m`, `at` the offset of the block in it. `htons(~acc)`
-- takes the low 16 bits.
unfoldable pub checksum : (base : ℕ) → Memory → (at length : ℕ) → ℕ
unfolding accumulate defer_carries swap_bytes
checksum base m at length =
    let offset = (base + at) % 4 in
    let acc = defer_carries (accumulate m offset at length) in
    htons ((2 ^ 64 - 1 - (if offset % 2 == 0 then acc else swap_bytes acc)) % 2 ^ 16)
