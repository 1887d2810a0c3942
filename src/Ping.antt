-- ===== src/Ping.antt =====
-- lab5/icmp.c: `ping` and `traceroute`, with `relevant_packet` and `time_packet` of lab5/utils.c.
pub mod Replies
pub mod Requests
pub mod Probes
mod Tests
use protocoale.Base.{
  ℕ, zero, suc, ◌+◌, ◌-◌, ◌*◌, Bool, true, false, not, ◌&&◌, Option, none, some, List, [], ◌∷◌,
  length, take, ltb, ◌==◌, if◌then◌else◌,
}
use protocoale.Base.Int.{ℤ, pos, negsuc}
use protocoale.Bytes.{Memory, load16, store8, store16, store32, read_bytes, write_bytes, htons}
use protocoale.Text.{same_text}
use protocoale.Router.Layout.Ether
use protocoale.Router.Layout.Ip
use protocoale.Router.Layout.Icmp
use protocoale.Router.Packet.{init_packet, set_check, ip_header_len, icmp_header_len, ethertype_ip}

-- What the system says: the address of the packet's payload, the hardware address and the address of
-- the interface, the hardware address of the gateway as `arp_resolve` finds it, the process id, and
-- what `reply` holds when it comes into being for the `i`-th packet.
pub record Host : Type 0 where
  pub base : ℕ
  pub own_mac : List ℕ
  pub own_ip : ℕ
  pub gateway_mac : List ℕ
  pub pid : ℕ
  pub reply : (i : ℕ) → Memory

abbrev pub packet_len : ℕ
packet_len = 1500

abbrev pub request_len : ℕ
request_len = 14 + 20 + 8

unfoldable pub init_eth_hdr : Host → Memory → Memory
init_eth_hdr host m =
    let m1 = write_bytes m Ether.dhost (take 6 host.gateway_mac) in
    store16 (write_bytes m1 Ether.shost (take 6 host.own_mac)) Ether.ether_type (htons ethertype_ip)

-- Whether a packet is for this machine, and an ICMP packet.
unfoldable pub relevant_packet : Host → (reply : Memory) → Bool
relevant_packet host reply =
    if not (same_text (read_bytes reply Ether.dhost 6) (take 6 host.own_mac))
    then false
    else if not (htons (load16 reply Ether.ether_type) == ethertype_ip)
    then false
    else reply Ip.protocol == 1

-- The loop of `time_packet` over the packets that arrive: the first relevant one and those behind
-- it, `none` if it still waits.
unfoldable pub time_packet :
    Host → (reply : Memory) → (incoming : List (List ℕ)) → Option (Memory × List (List ℕ))
time_packet host reply [] = none
time_packet host reply (received ∷ rest) =
    let filled = write_bytes reply 0 (take packet_len received) in
    if relevant_packet host filled then some (filled, rest) else time_packet host filled rest

-- The header up to the time to live, and from there on.
abbrev pub ip_start : Host → Memory → Memory
ip_start host m =
    let m1 = store8 (store8 m Ip.version (4 * 16 + 5)) Ip.tos 0 in
    let m2 = store16 m1 Ip.tot_len (htons (request_len - 14)) in
    store16 (store16 m2 Ip.id (htons host.pid)) Ip.frag_off 0

abbrev pub ip_addressed : Host → (dest : ℕ) → Memory → Memory
ip_addressed host dest m =
    store32 (store32 (store8 m Ip.protocol 1) Ip.saddr host.own_ip) Ip.daddr dest

-- The ICMP header before its checksum; `sequence` is stored as it is.
abbrev pub icmp_start : Host → (sequence : ℕ) → Memory → Memory
icmp_start host sequence m =
    let m1 = store8 (store8 (store8 m Icmp.code 0) Icmp.type 8) Icmp.code 0 in
    store16 (store16 m1 Icmp.id host.pid) Icmp.sequence sequence

-- A header before its checksum, then the checksum, then the ICMP header behind it.
unfoldable pub complete : Host → (sequence : ℕ) → Memory → Memory
complete host sequence m =
    let m1 = set_check host.base m Ip.version ip_header_len Ip.check in
    set_check host.base (icmp_start host sequence m1) Icmp.type icmp_header_len Icmp.check

-- The payload of round `i` of `ping`.
unfoldable pub request : Host → (dest i : ℕ) → Memory → Memory
request host dest i m =
    complete host (htons (i + 1)) (ip_addressed host dest (store8 (ip_start host m) Ip.ttl 64))

-- The payload of a round of `traceroute`.
unfoldable pub probe : Host → (dest : ℕ) → Memory → Memory
probe host dest m =
    complete host (htons 13)
      (ip_addressed host dest (ip_start host (store8 m Ip.ttl (m Ip.ttl + 1))))

-- How a run has ended, or that it waits for a packet; and the payloads that were sent, in their
-- order, each of `request_len` bytes.
pub data Ending : Type 0 where
  ended : Ending
  waiting : Ending
  out_of_fuel : Ending

pub record Run : Type 0 where
  pub ending : Ending
  pub sent : List Memory

abbrev pub behind : Memory → Run → Run
behind m run = record { ending = run.ending; sent = m ∷ run.sent }

-- The loop of `ping`, from round `i` on, with `left` rounds to go.
unfoldable pub ping_from : Host → (dest left i : ℕ) → Memory → (incoming : List (List ℕ)) → Run
ping_from host dest zero i m incoming = record { ending = ended; sent = [] }
ping_from host dest (suc left) i m incoming =
    let m' = request host dest i m in
    behind m' (elim (time_packet host (host.reply i) incoming) [
      | none ↦ record { ending = waiting; sent = [] }
      | some (reply, rest) ↦ ping_from host dest left (i + 1) m' rest
    ])

-- A count of -1 is INT32_MAX rounds.
abbrev pub rounds : (count : ℤ) → ℕ
rounds (pos n) = n
rounds (negsuc zero) = 2147483647
rounds (negsuc (suc n)) = 0

unfoldable pub ping : Host → (dest : ℕ) → (count : ℤ) → (incoming : List (List ℕ)) → Run
ping host dest count incoming =
    ping_from host dest (rounds count) 0 (init_eth_hdr host init_packet.payload) incoming

-- The loop of `traceroute` on fuel, in round `i`. 11 is ICMP_TIME_EXCEEDED.
unfoldable pub trace_from : Host → (dest fuel i : ℕ) → Memory → (incoming : List (List ℕ)) → Run
trace_from host dest zero i m incoming = record { ending = out_of_fuel; sent = [] }
trace_from host dest (suc fuel) i m incoming =
    let m' = probe host dest m in
    behind m' (elim (time_packet host (host.reply i) incoming) [
      | none ↦ record { ending = waiting; sent = [] }
      | some (reply, rest) ↦
          let more = trace_from host dest fuel (i + 1) m' rest in
          if reply Icmp.type == 11 then more else record { ending = ended; sent = [] }
    ])

-- One round more than packets arrive is enough.
unfoldable pub traceroute : Host → (dest : ℕ) → (incoming : List (List ℕ)) → Run
traceroute host dest incoming =
    trace_from host dest (length incoming + 1) 0
      (store8 (init_eth_hdr host init_packet.payload) Ip.ttl 1) incoming
