-- ===== src/Router/Packet/Checks.antt =====
-- A header whose checksum field has just been set passes the checksum test.
use protocoale.Base.{ℕ, ◌+◌, ◌%◌, ◌^◌, ◌<◌, ◌≡◌, arith}
use protocoale.Bytes.{Memory, IsBytes, store16, htons}
use protocoale.Bytes.Copy.{store16-IsBytes}
use protocoale.Router.Checksum.{checksum}
use protocoale.Router.Checksum.Sum16.{sum16}
use protocoale.Router.Checksum.Internet.{
  internet_checksum, checksum-internet_checksum, checksum-zero_iff,
}
use protocoale.Router.Layout.Ip
use protocoale.Router.Layout.Icmp
use protocoale.Router.Packet.{set_check, ip_header_len, icmp_header_len}

-- The field is one of the words that are summed up.
ip_sum :
    (m : Memory) (v : ℕ)
    → v < 2 ^ 16
    → sum16 (store16 (store16 m Ip.check 0) Ip.check (htons v)) Ip.version ip_header_len
      ≡ sum16 (store16 m Ip.check 0) Ip.version ip_header_len + v
unfolding sum16 store16 htons
ip_sum m v h = omega arith

icmp_sum :
    (m : Memory) (v : ℕ)
    → v < 2 ^ 16
    → sum16 (store16 (store16 m Icmp.check 0) Icmp.check (htons v)) Icmp.type icmp_header_len
      ≡ sum16 (store16 m Icmp.check 0) Icmp.type icmp_header_len + v
unfolding sum16 store16 htons
icmp_sum m v h = omega arith

complement_sum : (sum : ℕ) → (sum + internet_checksum sum) % 65535 ≡ 0
unfolding internet_checksum
complement_sum sum = omega arith

complement_small : (sum : ℕ) → internet_checksum sum < 2 ^ 16
unfolding internet_checksum
complement_small sum = omega arith

-- For a header of `length` bytes whose checksum `field` counts as a word.
passes :
    (base : ℕ) (m : Memory) (header length field : ℕ)
    → IsBytes m
    → length < 2 ^ 32
    → ((v : ℕ)
        → v < 2 ^ 16
        → sum16 (store16 (store16 m field 0) field (htons v)) header length
          ≡ sum16 (store16 m field 0) header length + v)
    → checksum base (set_check base m header length field) header length ≡ 0
unfolding set_check
passes base m header length field b short counts =
    let cleared = store16 m field 0 in
    let bytes = store16-IsBytes m field 0 b in
    let sum = sum16 cleared header length in
    let computed = checksum-internet_checksum cleared bytes base header length short in
    let result = store16 cleared field (checksum base cleared header length) in
    (checksum-zero_iff result
        (store16-IsBytes cleared field (checksum base cleared header length) bytes) base header
        length short).1
      (rw (computed, counts (internet_checksum sum) (complement_small sum)) (complement_sum sum))

module _ (base : ℕ) (m : Memory) (bytes : IsBytes m) where
  pub set_check-ip :
      checksum base (set_check base m Ip.version ip_header_len Ip.check) Ip.version ip_header_len
      ≡ 0
  set_check-ip = passes base m Ip.version ip_header_len Ip.check bytes (omega arith) (ip_sum m)

  pub set_check-icmp :
      checksum base
        (set_check base m Icmp.type icmp_header_len Icmp.check)
        Icmp.type
        icmp_header_len
      ≡ 0
  set_check-icmp =
      passes base m Icmp.type icmp_header_len Icmp.check bytes (omega arith) (icmp_sum m)
