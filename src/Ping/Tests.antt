-- ===== src/Ping/Tests.antt =====
-- The theorems on lab5 at concrete packets.
use protocoale.Base.{ℕ, arith, List, [], ◌∷◌, ◌++◌, replicate}
use protocoale.Base.Int.{pos}
use protocoale.Ping.{Host, ping, traceroute}
use protocoale.Ping.Replies.{relevant_of}
use protocoale.Ping.Requests.{IsHost}
use protocoale.Ping.Probes.{Pinged, Traced, ping-Pinged, traceroute-Traced}

abbrev host : Host
host = record {
  base = 0;
  own_mac = 2 ∷ 0 ∷ 0 ∷ 0 ∷ 0 ∷ 5 ∷ [];
  own_ip = 192;
  gateway_mac = 2 ∷ 0 ∷ 0 ∷ 0 ∷ 0 ∷ 1 ∷ [];
  pid = 70000;
  reply = λ i k. 255;
}

-- An ICMP packet of this type from the gateway, with an IP header that is empty but for the protocol.
abbrev icmp : (type : ℕ) → List ℕ
icmp type =
    (2 ∷ 0 ∷ 0 ∷ 0 ∷ 0 ∷ 5 ∷ 2 ∷ 0 ∷ 0 ∷ 0 ∷ 0 ∷ 1 ∷ 8 ∷ 0 ∷ [])
    ++ (replicate 9 0 ++ 1 ∷ replicate 10 0)
    ++ type ∷ replicate 7 0

-- The time to live of the first probe is exceeded; then the destination answers.
abbrev incoming : List (List ℕ)
incoming = icmp 11 ∷ icmp 0 ∷ []

host-IsHost : IsHost host 8
host-IsHost = record {
  own_bytes = ground arith;
  gateway_bytes = ground arith;
  own_width = omega arith;
  dest_width = omega arith;
}

ping-Pinged_example : Pinged host 8 1 3 (relevant_of host incoming) (ping host 8 (pos 3) incoming)
ping-Pinged_example =
    ping-Pinged host 8 host-IsHost (pos 3) incoming (omega arith, (omega arith, tt))

traceroute-Traced_example : Traced host 8 2 (relevant_of host incoming) (traceroute host 8 incoming)
traceroute-Traced_example =
    traceroute-Traced host 8 host-IsHost incoming (omega arith, (omega arith, tt))
