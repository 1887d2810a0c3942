-- ===== src/Router/Packet/Reply.antt =====
-- The IP header that `complete_ip_icmp` writes passes the checksum test.
use protocoale.Base.{ℕ, ◌+◌, ◌-◌, ◌*◌, ◌/◌, ◌<◌, ◌≡◌, arith, length, ◌∙◌}
use protocoale.Bytes.{Memory, IsBytes, load16, load32, store8, store16, store32, htons}
use protocoale.Bytes.Copy.{store16-IsBytes}
use protocoale.Router.Checksum.{checksum}
use protocoale.Router.Layout.Ip
use protocoale.Router.Packet.{set_check, complete_ip_icmp, ip_header_len}
use protocoale.Router.Packet.Checks.{set_check-ip}

pub store8-IsBytes : (m : Memory) (at v : ℕ) → IsBytes m → IsBytes (store8 m at v)
unfolding store8
store8-IsBytes m at v b i = ground (arith, b i)

pub store32-IsBytes : (m : Memory) (at v : ℕ) → IsBytes m → IsBytes (store32 m at v)
unfolding store32
store32-IsBytes m at v b =
    store16-IsBytes (store16 m at v) (at + 2) (v / 65536) (store16-IsBytes m at v b)

pub set_check-IsBytes :
    (base : ℕ) (m : Memory) (header length field : ℕ)
    → IsBytes m
    → IsBytes (set_check base m header length field)
unfolding set_check
set_check-IsBytes base m header length field b =
    store16-IsBytes _ field _ (store16-IsBytes m field 0 b)

pub store8_below : (m : Memory) (at v i : ℕ) → i < at → store8 m at v i ≡ m i
unfolding store8
store8_below m at v i h = ground arith

pub store16_below : (m : Memory) (at v i : ℕ) → i < at → store16 m at v i ≡ m i
unfolding store16
store16_below m at v i h = ground arith

pub set_check_below :
    (base : ℕ) (m : Memory) (header length field i : ℕ)
    → i < field
    → set_check base m header length field i ≡ m i
unfolding set_check
set_check_below base m header length field i h =
    store16_below _ field _ i h ∙ store16_below m field 0 i h

-- `complete_ip_icmp` before the checksum.
unnumbered : (m from : Memory) (len : ℕ) → Memory
unnumbered m from len =
    let m1 = store8 (store8 m Ip.version (4 * 16 + 5)) Ip.tos 0 in
    let m2 = store16 m1 Ip.tot_len (htons (len - 14)) in
    let m3 = store16 (store16 m2 Ip.id (htons (load16 from Ip.id))) Ip.frag_off 0 in
    let m4 = store8 (store8 m3 Ip.ttl (from Ip.ttl)) Ip.protocol 1 in
    let m5 = store32 m4 Ip.saddr (load32 from Ip.daddr) in
    store32 m5 Ip.daddr (load32 from Ip.saddr)

module _ (base : ℕ) (m from : Memory) (len : ℕ) (bytes : IsBytes m) where
  unnumbered-IsBytes : IsBytes (unnumbered m from len)
  unfolding unnumbered
  unnumbered-IsBytes = store32-IsBytes _ Ip.daddr _ (
      store32-IsBytes _ Ip.saddr _ (
        store8-IsBytes _ Ip.protocol 1 (
          store8-IsBytes _ Ip.ttl _ (
            store16-IsBytes _ Ip.frag_off 0 (
              store16-IsBytes _ Ip.id _ (
                store16-IsBytes _ Ip.tot_len _
                  (store8-IsBytes _ Ip.tos 0 (store8-IsBytes m Ip.version 69 bytes))))))))

  pub complete_ip_icmp-IsBytes : IsBytes (complete_ip_icmp base m from len)
  unfolding complete_ip_icmp unnumbered
  complete_ip_icmp-IsBytes =
      set_check-IsBytes base (unnumbered m from len) Ip.version ip_header_len Ip.check
        unnumbered-IsBytes

  pub complete_ip_icmp-checksum :
      checksum base (complete_ip_icmp base m from len) Ip.version ip_header_len ≡ 0
  unfolding complete_ip_icmp unnumbered
  complete_ip_icmp-checksum = set_check-ip base (unnumbered m from len) unnumbered-IsBytes
