-- ===== src/Router/Layout/Icmp.antt =====
-- Payload offsets of `struct icmphdr`, behind the IPv4 header.
use protocoale.Base.{ℕ}

abbrev pub type : ℕ
type = 34

abbrev pub code : ℕ
code = 35

abbrev pub check : ℕ
check = 36

abbrev pub id : ℕ
id = 38

abbrev pub sequence : ℕ
sequence = 40
