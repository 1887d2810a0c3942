-- ===== src/Router/Packet.antt =====
-- `packet` of tema1/include/skel.h, and the headers that the router lays over its payload, as byte
-- offsets: Ethernet at 0, IPv4 at 14, ICMP at 34, and `struct arpPkt` at 14 as the compiler pads it.
pub mod Checks
pub mod Reply
use protocoale.Base.{ℕ, ◌+◌, ◌-◌, ◌*◌}
use protocoale.Bytes.{Memory, load16, load32, store8, store16, store32, htons}
use protocoale.Router.Checksum.{checksum}
use protocoale.Router.Layout.Ip

pub record Packet : Type 0 where
  pub len : ℕ
  pub payload : Memory
  pub interface : ℕ

-- `init_packet`.
unfoldable pub init_packet : Packet
init_packet = record { len = 0; payload = λ i. 0; interface = 0 }

abbrev pub max_len : ℕ
max_len = 1600

abbrev pub ether_header_len : ℕ
ether_header_len = 14

abbrev pub ip_header_len : ℕ
ip_header_len = 20

abbrev pub icmp_header_len : ℕ
icmp_header_len = 8

-- `sizeof(struct arpPkt)`, with two bytes of padding before each address.
abbrev pub arp_packet_len : ℕ
arp_packet_len = 32

abbrev pub ethertype_arp : ℕ
ethertype_arp = 0x0806

abbrev pub ethertype_ip : ℕ
ethertype_ip = 0x0800

-- `ip_hdr->check = 0; ip_hdr->check = checksum(ip_hdr, sizeof(struct iphdr));`
unfoldable pub set_check : (base : ℕ) → Memory → (header length field : ℕ) → Memory
set_check base m header length field =
    let cleared = store16 m field 0 in store16 cleared field (checksum base cleared header length)

-- `complete_ip_icmp(ip_icmp, ip_hdr, len)`: `m` is the reply's payload and `from` the received one.
unfoldable pub complete_ip_icmp : (base : ℕ) → (m from : Memory) → (len : ℕ) → Memory
complete_ip_icmp base m from len =
    let m1 = store8 (store8 m Ip.version (4 * 16 + 5)) Ip.tos 0 in
    let m2 = store16 m1 Ip.tot_len (htons (len - ether_header_len)) in
    let m3 = store16 (store16 m2 Ip.id (htons (load16 from Ip.id))) Ip.frag_off 0 in
    let m4 = store8 (store8 m3 Ip.ttl (from Ip.ttl)) Ip.protocol 1 in
    let m5 = store32 m4 Ip.saddr (load32 from Ip.daddr) in
    let m6 = store32 m5 Ip.daddr (load32 from Ip.saddr) in
    set_check base m6 Ip.version ip_header_len Ip.check
