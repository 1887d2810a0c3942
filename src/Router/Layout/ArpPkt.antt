-- ===== src/Router/Layout/ArpPkt.antt =====
-- Payload offsets of `struct arpPkt`, behind the Ethernet header. The compiler puts two bytes of padding before each
-- address.
use protocoale.Base.{ℕ}

abbrev pub hw_type : ℕ
hw_type = 14

abbrev pub prot_type : ℕ
prot_type = 16

abbrev pub hw_len : ℕ
hw_len = 18

abbrev pub prot_len : ℕ
prot_len = 19

abbrev pub operation : ℕ
operation = 20

abbrev pub sender_hw : ℕ
sender_hw = 22

abbrev pub sender_ip : ℕ
sender_ip = 30

abbrev pub target_hw : ℕ
target_hw = 34

abbrev pub target_ip : ℕ
target_ip = 42
