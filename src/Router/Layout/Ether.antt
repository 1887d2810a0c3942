-- ===== src/Router/Layout/Ether.antt =====
-- Payload offsets of `struct ether_header`, at the start of the payload.
use protocoale.Base.{ℕ}

abbrev pub dhost : ℕ
dhost = 0

abbrev pub shost : ℕ
shost = 6

abbrev pub ether_type : ℕ
ether_type = 12
