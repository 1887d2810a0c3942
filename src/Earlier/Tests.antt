-- ===== src/Earlier/Tests.antt =====
-- The theorems on mizerie/router.c at concrete tables.
use protocoale.Base.{ℕ, ◌≡◌, refl, subst, length, arith, Option, some, none, List, [], ◌∷◌}
use native.Mathlib.Decide.{ℕ_discrete}
use protocoale.Bytes.{Memory, IsBytes, write_bytes, load16, load32, store8, store16, htons, htonl}
use protocoale.Bytes.Copy.{AllBytes, write_bytes-IsBytes, store16-IsBytes}
use protocoale.Router.Layout.Ip
use protocoale.Router.Checksum.{
  add64, partial_word, add_blocks, fold_carries, defer_carries, add_rest, head_count, accumulate,
  swap_bytes, checksum,
}
use protocoale.Router.Route.{RouteEntry}
use protocoale.Router.Arp.{ArpEntry, ArpTable, get_arp_entry}
use protocoale.Router.Packet.{Packet, set_check, ip_header_len}
use protocoale.Earlier.{
  Round, sends, continues, null_read, no_value, decrement, address_and_send, with_route, better,
  best_from, result_of, route, null, undefined, get_best_route, handle,
}
use protocoale.Earlier.Longest.{Selects, get_best_route-Selects}
use protocoale.Earlier.Handled.{HasAddresses, Handled, handle-Handled}

abbrev to : (prefix mask interface : ℕ) → RouteEntry
to prefix mask interface = record {
  prefix = prefix;
  next_hop = 0;
  mask = mask;
  interface = interface;
}

-- 10.0.0.0/8, 10.1.0.0/16, 10.1.1.5/32 and 0.0.0.0/0, in network order.
abbrev routes : List RouteEntry
routes =
    to 0x0000000a 0x000000ff 0
    ∷ to 0x0000010a 0x0000ffff 1
    ∷ to 0x0501010a 0xffffffff 2
    ∷ to 0 0 3
    ∷ []

longest : get_best_route routes 0x0601010a ≡ route 1
unfolding better best_from result_of get_best_route
longest = refl

host_lost : get_best_route routes 0x0501010a ≡ null
unfolding better best_from result_of get_best_route
host_lost = refl

default_lost : get_best_route routes 0x0101a8c0 ≡ undefined
unfolding better best_from result_of get_best_route
default_lost = refl

get_best_route-Selects_example : Selects routes 0x0601010a (get_best_route routes 0x0601010a)
get_best_route-Selects_example = get_best_route-Selects routes 0x0601010a

abbrev zeros : Memory
zeros = λ i. 0

-- From 10.0.0.1 to 10.1.1.6, with a time to live of 64.
abbrev header : List ℕ
header = 69 ∷ 0 ∷ 0 ∷ 20 ∷ 0 ∷ 0 ∷ 0 ∷ 0 ∷ 64 ∷ 17 ∷ 0 ∷ 0 ∷ 10 ∷ 0 ∷ 0 ∷ 1 ∷ 10 ∷ 1 ∷ 1 ∷ 6 ∷ []

abbrev packet : Packet
packet = record {
  len = 34;
  payload = set_check 0 (write_bytes zeros Ip.version header) Ip.version ip_header_len Ip.check;
  interface = 0;
}

packet-IsBytes : IsBytes packet.payload
unfolding set_check
packet-IsBytes =
    let written = write_bytes-IsBytes zeros Ip.version header (λ i. omega arith) (ground arith) in
    store16-IsBytes _ Ip.check _ (store16-IsBytes _ Ip.check 0 written)

abbrev neighbour : ArpEntry
neighbour = record { ip = 0x0601010a; mac = 2 ∷ 0 ∷ 0 ∷ 0 ∷ 0 ∷ 9 ∷ [] }

abbrev neighbours : ArpTable
neighbours = neighbour ∷ []

neighbours-HasAddresses : HasAddresses neighbours
unfolding get_arp_entry
neighbours-HasAddresses ip e h = elim (ℕ_discrete 0x0601010a ip) [
  | yes known ↦
      let found : neighbour ≡ e = ground arith in
      subst (λ (n : ArpEntry). (length n.mac ≡ 6) × AllBytes n.mac) found (refl, ground arith)
  | no other ↦ absurd (ground arith)
]

abbrev interface_of : Round → Option ℕ
interface_of (sends i pkt) = some i
interface_of continues = none
interface_of null_read = none
interface_of no_value = none

forwarded : interface_of (handle 0 routes neighbours packet) ≡ some 1
unfolding write_bytes load16 load32 store8 store16 htons htonl add64 partial_word add_blocks
    fold_carries defer_carries add_rest head_count accumulate swap_bytes checksum set_check
    get_arp_entry better best_from result_of get_best_route decrement address_and_send with_route
    handle
forwarded = refl

handle-Handled_example : Handled 0 routes neighbours packet (handle 0 routes neighbours packet)
handle-Handled_example =
    handle-Handled 0 routes neighbours packet packet-IsBytes neighbours-HasAddresses
