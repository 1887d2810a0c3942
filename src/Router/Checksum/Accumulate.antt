-- ===== src/Router/Checksum/Accumulate.antt =====
-- The sum before the carries, modulo 2^16 - 1: whole words, and the partial blocks at both ends.
use protocoale.Base.{
  ℕ, zero, suc, ◌+◌, ◌-◌, ◌*◌, ◌/◌, ◌%◌, ◌^◌, ◌≤◌, ◌<◌, ◌≡◌, if◌then◌else◌, refl, sym, subst, inl,
  inr, arith, ◌==◌, ==_iff, Bool-cases,
}
use protocoale.Bytes.{Memory, IsBytes, load32, htonl}
use protocoale.Router.Checksum.{add64, partial_word, add_blocks, add_rest, head_count, accumulate}
use protocoale.Router.Checksum.Sum16.{sum16, odd_sum, sum16-blocks}

module _ (m : Memory) (bytes : IsBytes m) where
  htonl-load32 :
      (at : ℕ)
      → htonl (load32 m at) ≡ m at * 16777216 + m (at + 1) * 65536 + m (at + 2) * 256 + m (at + 3)
  unfolding htonl load32
  htonl-load32 at = omega (arith, bytes at, bytes (at + 1), bytes (at + 2), bytes (at + 3))

  -- Every round adds two words, and less than 2^32.
  add_blocks-sum16 :
      (k at acc : ℕ)
      → acc + k * 2 ^ 32 < 2 ^ 64
      → (add_blocks m k at acc % 65535 ≡ (acc + sum16 m at (k * 4)) % 65535)
        × (add_blocks m k at acc ≤ acc + k * 2 ^ 32)
        × (acc ≤ add_blocks m k at acc)
  unfolding add_blocks sum16
  add_blocks-sum16 zero at acc h = omega arith
  add_blocks-sum16 (suc k) at acc h =
      let g : suc k * 4 ≡ suc (suc (suc (suc (k * 4)))) = omega arith in
      let e : at + 2 + 2 ≡ at + 4 = omega arith in
      let e' : at + 2 + 1 ≡ at + 3 = omega arith in
      let word = htonl (load32 m at) in
      let b0 = bytes at in
      let b1 = bytes (at + 1) in
      let b2 = bytes (at + 2) in
      let b3 = bytes (at + 3) in
      let small : word < 2 ^ 32 = omega (arith, htonl-load32 at) in
      let wrap : add64 acc word ≡ acc + word = omega arith in
      rw (g, e, e', wrap) (omega (arith, htonl-load32 at, add_blocks-sum16 k (at + 4) (acc + word)))

  -- The partial block at the end, padded with zeros.
  tail-sum16 :
      (at r : ℕ)
      → r < 4
      → (htonl (partial_word m at 0 r) % 65535 ≡ sum16 m at r % 65535)
        × (htonl (partial_word m at 0 r) < 2 ^ 32)
  unfolding htonl partial_word sum16
  tail-sum16 at zero h = omega arith
  tail-sum16 at (suc zero) h = omega (arith, bytes at)
  tail-sum16 at (suc (suc zero)) h = omega (arith, bytes at, bytes (at + 1))
  tail-sum16 at (suc (suc (suc zero))) h =
      let e : at + 1 + 1 ≡ at + 2 = omega arith in
      rw e (omega (arith, bytes at, bytes (at + 1), bytes (at + 2)))
  tail-sum16 at (suc (suc (suc (suc r)))) h = absurd (omega arith)

  sum16-split :
      (at length : ℕ)
      → sum16 m at length ≡ sum16 m at (length / 4 * 4) + sum16 m (at + length / 4 * 4) (length % 4)
  sum16-split at length =
      let e : length ≡ length / 4 * 4 + length % 4 = omega arith in
      subst
        (λ n.
          sum16 m at n ≡ sum16 m at (length / 4 * 4) + sum16 m (at + length / 4 * 4) (length % 4))
        (sym e) (sum16-blocks m (length / 4) at (length % 4))

  pub add_rest-sum16 :
      (at length acc : ℕ)
      → length < 2 ^ 32
      → acc < 2 ^ 33
      → (add_rest m at length acc % 65535 ≡ (acc + sum16 m at length) % 65535)
        × (add_rest m at length acc < 2 ^ 64)
        × (acc ≤ add_rest m at length acc)
  unfolding add_rest add64
  add_rest-sum16 at length acc h k =
      let blocks = add_blocks-sum16 (length / 4) at acc (omega arith) in
      let tail = tail-sum16 (at + length / 4 * 4) (length % 4) (omega arith) in
      let split = sum16-split at length in
      elim (Bool-cases (length % 4 == 0)) [
        | inl e ↦
            let none_left : length % 4 ≡ 0 = (==_iff (length % 4) 0).0 e in
            let zero_sum : sum16 m (at + length / 4 * 4) (length % 4) ≡ 0 =
              rw none_left (unfold sum16 in refl) in
            rw e (omega arith)
        | inr e ↦ rw e (omega arith)
      ]

  -- The partial block at the start, for each offset within a word.
  head-two :
      (at c : ℕ)
      → c ≤ 2
      → (htonl (partial_word m at 2 c) % 65535 ≡ sum16 m at c % 65535)
        × (htonl (partial_word m at 2 c) < 2 ^ 32)
  unfolding htonl partial_word sum16
  head-two at zero h = omega arith
  head-two at (suc zero) h = omega (arith, bytes at)
  head-two at (suc (suc zero)) h = omega (arith, bytes at, bytes (at + 1))
  head-two at (suc (suc (suc c))) h = absurd (omega arith)

  head-one :
      (at c : ℕ)
      → c ≤ 3
      → (htonl (partial_word m at 1 c) % 65535 ≡ odd_sum m at c % 65535)
        × (htonl (partial_word m at 1 c) < 2 ^ 32)
  unfolding htonl partial_word odd_sum
  head-one at zero h = omega arith
  head-one at (suc zero) h = omega (arith, bytes at)
  head-one at (suc (suc zero)) h = omega (arith, bytes at, bytes (at + 1))
  head-one at (suc (suc (suc zero))) h = omega (arith, bytes at, bytes (at + 1), bytes (at + 1 + 1))
  head-one at (suc (suc (suc (suc c)))) h = absurd (omega arith)

  head-three :
      (at c : ℕ)
      → c ≤ 1
      → (htonl (partial_word m at 3 c) % 65535 ≡ odd_sum m at c % 65535)
        × (htonl (partial_word m at 3 c) < 2 ^ 32)
  unfolding htonl partial_word odd_sum
  head-three at zero h = omega arith
  head-three at (suc zero) h = omega (arith, bytes at)
  head-three at (suc (suc c)) h = absurd (omega arith)

  -- The head and the rest make up the block.
  join-two :
      (at length : ℕ)
      → let c = head_count 2 length in
        sum16 m at c + sum16 m (at + c) (length - c) ≡ sum16 m at length
  unfolding head_count sum16
  join-two at zero = refl
  join-two at (suc zero) = omega arith
  join-two at (suc (suc n)) =
      let c : head_count 2 (suc (suc n)) ≡ 2 = ground arith in
      let l : suc (suc n) - 2 ≡ n = omega arith in rw (c, l) (omega arith)

  join-one :
      (at length : ℕ)
      → let c = head_count 1 length in
        odd_sum m at c + sum16 m (at + c) (length - c) ≡ odd_sum m at length
  unfolding head_count odd_sum
  join-one at zero = refl
  join-one at (suc zero) = omega arith
  join-one at (suc (suc zero)) = omega arith
  join-one at (suc (suc (suc n))) =
      let c : head_count 1 (suc (suc (suc n))) ≡ 3 = ground arith in
      let l : suc (suc (suc n)) - 3 ≡ n = omega arith in
      let e : at + 1 + 2 ≡ at + 3 = omega arith in rw (c, l, e) (omega arith)

  join-three :
      (at length : ℕ)
      → let c = head_count 3 length in
        odd_sum m at c + sum16 m (at + c) (length - c) ≡ odd_sum m at length
  unfolding head_count odd_sum
  join-three at zero = refl
  join-three at (suc n) =
      let c : head_count 3 (suc n) ≡ 1 = ground arith in
      let l : suc n - 1 ≡ n = omega arith in rw (c, l) (omega arith)

  -- The sum of a block at any alignment: its 16-bit words if it begins at an even address, and
  -- the same sum half a word off if it begins at an odd one.
  pub accumulate-sum16 :
      (offset at length : ℕ)
      → offset < 4
      → length < 2 ^ 32
      → (accumulate m offset at length % 65535
          ≡ (if offset % 2 == 0 then sum16 m at length else odd_sum m at length) % 65535)
        × (accumulate m offset at length < 2 ^ 64)
        × (65535 ≤ accumulate m offset at length)
  unfolding accumulate add64
  accumulate-sum16 zero at length o h = omega (arith, add_rest-sum16 at length 0xffff h)
  accumulate-sum16 (suc zero) at length o h =
      let c = head_count 1 length in
      let small : c ≤ 3 = unfold head_count in ground arith in
      let head = head-one at c small in
      let join = join-one at length in
      omega (
        arith,
        add_rest-sum16 (at + c) (length - c) (add64 0xffff (htonl (partial_word m at 1 c)))
            (omega arith) (omega arith),
      )
  accumulate-sum16 (suc (suc zero)) at length o h =
      let c = head_count 2 length in
      let small : c ≤ 2 = unfold head_count in ground arith in
      let head = head-two at c small in
      let join = join-two at length in
      omega (
        arith,
        add_rest-sum16 (at + c) (length - c) (add64 0xffff (htonl (partial_word m at 2 c)))
            (omega arith) (omega arith),
      )
  accumulate-sum16 (suc (suc (suc zero))) at length o h =
      let c = head_count 3 length in
      let small : c ≤ 1 = unfold head_count in ground arith in
      let head = head-three at c small in
      let join = join-three at length in
      omega (
        arith,
        add_rest-sum16 (at + c) (length - c) (add64 0xffff (htonl (partial_word m at 3 c)))
            (omega arith) (omega arith),
      )
  accumulate-sum16 (suc (suc (suc (suc o)))) at length h l = absurd (omega arith)
