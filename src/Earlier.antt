-- ===== src/Earlier.antt =====
-- mizerie/router.c: the router before tema1, with a routing table that is searched from end to end
-- and a fixed table of hardware addresses. Headers, checksum and packets are those of tema1, whose
-- `checksum` has the text of `ip_checksum` here, and whose `get_arp_entry` that of the one here.
pub mod Longest
pub mod Handled
pub mod Tests
use protocoale.Base.{
  ℕ, ◌+◌, ◌-◌, ◌^◌, Option, none, some, List, [], ◌∷◌, length, get_elem?, bit_and, ltb, ◌==◌, ◌&&◌,
  not, if◌then◌else◌,
}
use protocoale.Bytes.{Memory, load32, store8, store16, write_bytes}
use protocoale.Router.Checksum.{checksum}
use protocoale.Router.Layout.Ether
use protocoale.Router.Layout.Ip
use protocoale.Router.Route.{RouteEntry}
use protocoale.Router.Arp.{ArpTable, get_arp_entry}
use protocoale.Router.Packet.{Packet, ip_header_len}

-- `max`, read as unsigned as in the comparison with a mask, and `max_index`, which has no value
-- before the first match.
pub record Best : Type 0 where
  pub max : ℕ
  pub max_index : Option ℕ

-- The round of the loop for the entry `e` at index `i`.
unfoldable pub better : RouteEntry → (dest_ip i : ℕ) → Best → Best
better e dest_ip i best =
    if bit_and dest_ip e.mask == e.prefix && ltb best.max e.mask
    then record { max = e.mask; max_index = some i }
    else best

unfoldable pub best_from : List RouteEntry → (dest_ip i : ℕ) → Best → Best
unfolding better
best_from [] dest_ip i best = best
best_from (e ∷ rtable) dest_ip i best = best_from rtable dest_ip (i + 1) (better e dest_ip i best)

-- The entry at an index, `NULL`, or an address computed from a variable without a value.
pub data Lookup : Type 0 where
  route : ℕ → Lookup
  null : Lookup
  undefined : Lookup

unfoldable pub result_of : Best → Lookup
result_of best =
    if best.max == 2 ^ 32 - 1
    then null
    else elim best.max_index [ some j ↦ route j | none ↦ undefined ]

-- `rtable` is the table up to `rtable_size`.
unfoldable pub get_best_route : List RouteEntry → (dest_ip : ℕ) → Lookup
unfolding best_from result_of
get_best_route rtable dest_ip =
    result_of (best_from rtable dest_ip 0 (record { max = 0; max_index = none }))

-- One round of the loop of `main`: `continue`, a packet sent on an interface, the read through
-- `NULL` when no hardware address is known, or the use of the variable without a value.
pub data Round : Type 0 where
  continues : Round
  sends : ℕ → Packet → Round
  null_read : Round
  no_value : Round

-- `(ip_hdr->ttl)--` and the new checksum; `base` is the address of the payload.
unfoldable pub decrement : (base : ℕ) → Packet → Packet
decrement base m =
    let lower = store8 m.payload Ip.ttl (m.payload Ip.ttl + 255) in
    let cleared = store16 lower Ip.check 0 in
    record m { payload = store16 cleared Ip.check (checksum base cleared Ip.version ip_header_len) }

unfoldable pub address_and_send : ArpTable → RouteEntry → Packet → Round
address_and_send table best m = elim (get_arp_entry table (load32 m.payload Ip.daddr)) [
  | none ↦ null_read
  | some e ↦ sends best.interface (record m { payload = write_bytes m.payload Ether.dhost e.mac })
]

unfoldable pub with_route : (base : ℕ) → List RouteEntry → ArpTable → Packet → Lookup → Round
unfolding decrement address_and_send
with_route base rtable table m null = continues
with_route base rtable table m undefined = no_value
with_route base rtable table m (route j) = elim (get_elem? rtable j) [
  | some best ↦ address_and_send table best (decrement base m)
  | none ↦ no_value
]

unfoldable pub handle : (base : ℕ) → List RouteEntry → ArpTable → Packet → Round
unfolding with_route get_best_route
handle base rtable table m =
    if not (checksum base m.payload Ip.version ip_header_len == 0)
    then continues
    else if ltb (m.payload Ip.ttl) 1
    then continues
    else with_route base rtable table m (get_best_route rtable (load32 m.payload Ip.daddr))
