-- ===== src/Router/Checksum/Internet.antt =====
-- The result of `checksum` against the Internet checksum of RFC 1071.
use protocoale.Base.{ℕ, ◌+◌, ◌-◌, ◌%◌, ◌^◌, ◌<◌, ◌≡◌, ◌↔◌, ap, inl, inr, arith, ◌==◌, Bool-cases}
use protocoale.Bytes.{Memory, IsBytes, htons}
use protocoale.Router.Checksum.{swap_bytes, defer_carries, accumulate, checksum}
use protocoale.Router.Checksum.Sum16.{sum16, odd_sum-mod}
use protocoale.Router.Checksum.Accumulate.{accumulate-sum16}
use protocoale.Router.Checksum.Carries.{defer_carries-mod, swap_bytes-mod}

-- The complement of a sum in ones' complement arithmetic.
unfoldable pub internet_checksum : ℕ → ℕ
internet_checksum sum = (65535 - sum % 65535) % 65535

-- The complement is what a `uint16_t` keeps of `~acc`.
complement :
    (acc sum : ℕ)
    → 0 < acc
    → acc < 2 ^ 16
    → acc % 65535 ≡ sum % 65535
    → (2 ^ 64 - 1 - acc) % 2 ^ 16 ≡ internet_checksum sum
unfolding internet_checksum
complement acc sum p h e = omega arith

module _ (m : Memory) (bytes : IsBytes m) (base at length : ℕ) (short : length < 2 ^ 32) where
  -- Wherever the block lies in memory, `checksum` is the Internet checksum of its big-endian
  -- 16-bit words, in network byte order.
  pub checksum-internet_checksum :
      checksum base m at length ≡ htons (internet_checksum (sum16 m at length))
  unfolding checksum
  checksum-internet_checksum =
      let offset = (base + at) % 4 in
      let total = accumulate-sum16 m bytes offset at length (omega arith) short in
      let carried = defer_carries-mod (accumulate m offset at length) (omega arith) (omega arith) in
      let acc = defer_carries (accumulate m offset at length) in
      let swapped = swap_bytes-mod acc (omega arith) (omega arith) in
      ap htons (elim (Bool-cases (offset % 2 == 0)) [
        | inl e ↦ rw e (
            complement acc (sum16 m at length) (omega arith) (omega arith)
              ((omega (arith, rw e at total.0))))
        | inr e ↦ rw e (
            complement (swap_bytes acc) (sum16 m at length) (omega arith) (omega arith)
              (omega (arith, rw e at total.0, odd_sum-mod m at length)))
      ])

  -- So a block passes the test `checksum(...) == 0` exactly when its words sum to a multiple of
  -- 2^16 - 1.
  pub checksum-zero_iff : (checksum base m at length ≡ 0) ↔ (sum16 m at length % 65535 ≡ 0)
  unfolding internet_checksum htons
  checksum-zero_iff = (
    λ e. omega (arith, checksum-internet_checksum),
    λ e. omega (arith, checksum-internet_checksum),
  )
