-- ===== src/Router/Layout/Ip.antt =====
-- Payload offsets of `struct iphdr`, behind the Ethernet header.
use protocoale.Base.{ℕ}

abbrev pub version : ℕ
version = 14

abbrev pub tos : ℕ
tos = 15

abbrev pub tot_len : ℕ
tot_len = 16

abbrev pub id : ℕ
id = 18

abbrev pub frag_off : ℕ
frag_off = 20

abbrev pub ttl : ℕ
ttl = 22

abbrev pub protocol : ℕ
protocol = 23

abbrev pub check : ℕ
check = 24

abbrev pub saddr : ℕ
saddr = 26

abbrev pub daddr : ℕ
daddr = 30
