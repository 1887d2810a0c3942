-- ===== src/Router/Tests.antt =====
-- The router's theorems at concrete packets and tables, and runs of its functions.
use protocoale.Base.{
  ℕ, zero, suc, ◌+◌, ◌*◌, ◌≡◌, ◌≢◌, ◌⊎◌, inl, refl, arith, none, some, List, [], ◌∷◌, if◌then◌else◌,
  ltb, ◌==◌,
}
use protocoale.Base.Int.{pos}
use protocoale.Bytes.{
  Memory, IsBytes, load16, load32, store8, store16, store32, read_bytes, write_bytes, htons, htonl,
}
use protocoale.Bytes.Copy.{AllBytes}
use protocoale.Router.Checksum.{
  add64, partial_word, add_blocks, fold_carries, defer_carries, add_rest, head_count, accumulate,
  swap_bytes, checksum,
}
use protocoale.Router.Checksum.Sum16.{sum16}
use protocoale.Router.Checksum.Internet.{internet_checksum, checksum-internet_checksum}
use protocoale.Router.Layout.ArpPkt
use protocoale.Router.Route
use protocoale.Router.Route.{
  RouteEntry, Table, masked, binary_search, run_end, from_index, last_of_run, get_best_route,
  compare_func,
}
use protocoale.Router.Route.Uniform.{IsUniform, IsZeroBehind, Decides, get_best_route-Decides}
use protocoale.Router.Arp.{
  ArpTable, get_arp_entry, set_mac, add_arp_entry, update_arp_table, complete_arp_pack,
}
use protocoale.Router.Arp.Laws.{entry, IsValid, get_arp_entry-update_arp_table}
use protocoale.Router.Packet.{Packet, init_packet, set_check, complete_ip_icmp}
use protocoale.Router.Step.{
  System, fault, send_packet, arp_packet, after_update, handle_arp, handle_ip, forward, resolve,
  icmp_packet, send_icmp, decrement_ttl, step,
}
use protocoale.Router.Step.Forwarded.{Forwarded, step-Forwarded}
use protocoale.Router.Step.Replies.{echo, IsReply, step-IsReply}
use protocoale.Router.Step.ArpTraffic.{IsTakenReply, step-get_arp_entry, step-ne-fault}
use protocoale.Router.Hwaddr.{hwaddr_aton}
use protocoale.Router.Hwaddr.Format.{format_mac, hwaddr_aton-format}

-- Everything that a run computes with.
program : Unit {0}
unfolding load16 load32 store8 store16 store32 read_bytes write_bytes htons htonl add64 partial_word
    add_blocks fold_carries defer_carries add_rest head_count accumulate swap_bytes checksum masked
    binary_search run_end from_index last_of_run get_best_route get_arp_entry set_mac add_arp_entry
    update_arp_table complete_arp_pack init_packet set_check complete_ip_icmp arp_packet
    after_update handle_arp handle_ip forward resolve icmp_packet send_icmp decrement_ttl step
program = tt

-- A payload that starts with the given bytes and is zero behind them.
from_list : List ℕ → Memory
from_list [] i = 0
from_list (x ∷ xs) zero = x
from_list (x ∷ xs) (suc i) = from_list xs i

from_list-IsBytes : (xs : List ℕ) → AllBytes xs → IsBytes (from_list xs)
unfolding from_list
from_list-IsBytes [] a i = omega arith
from_list-IsBytes (x ∷ xs) a zero = a.0
from_list-IsBytes (x ∷ xs) a (suc i) = from_list-IsBytes xs a.1 i

-- UDP from 192.0.1.1 to 192.0.2.7, time to live 64.
abbrev frame : ℕ → List ℕ
frame type =
    2 ∷ 0 ∷ 0 ∷ 0 ∷ 0 ∷ 1 ∷ 2 ∷ 0 ∷ 0 ∷ 0 ∷ 0 ∷ 9 ∷ 8 ∷ 0 ∷ 0x45 ∷ 0 ∷ 0 ∷ 28 ∷ 0 ∷ 1 ∷ 0 ∷ 0 ∷ 64
    ∷ 17 ∷ 0xf7 ∷ 0xc7 ∷ 192 ∷ 0 ∷ 1 ∷ 1 ∷ 192 ∷ 0 ∷ 2 ∷ 7 ∷ type ∷ 0 ∷ 0 ∷ 0 ∷ 0 ∷ 5 ∷ 0 ∷ 1 ∷ []

abbrev udp : Packet
udp = record { len = 42; payload = from_list (frame 3); interface = 0 }

abbrev ping : Packet
ping = record { len = 42; payload = from_list (frame 8); interface = 2 }

-- 192.0.2.7, 192.0.2.0 and 255.255.255.0 in network order on a little-endian host.
abbrev host : ℕ
host = 192 + 2 * 65536 + 7 * 16777216

abbrev net : ℕ
net = 192 + 2 * 65536

abbrev mask : ℕ
mask = 255 + 255 * 256 + 255 * 65536

abbrev system : System
system = record {
  interface_ip = λ i. if i == 2 then host else 192 + 16777216;
  interface_mac = λ i. 2 ∷ 0 ∷ 0 ∷ 0 ∷ 0 ∷ i ∷ [];
  received_base = 4;
  sent_base = 4;
}

abbrev cell : ℕ → ℕ → RouteEntry
cell p m = record { prefix = p; next_hop = 0; mask = m; interface = 1 }

abbrev routes : Table
routes = record {
  cells =
      λ i. if i == 0 then cell (192 + 65536) mask else if i == 1 then cell net mask else cell 0 0;
  capacity = 65000;
  size = 2;
}

abbrev neighbours : ArpTable
neighbours = entry host (2 ∷ 0 ∷ 0 ∷ 0 ∷ 0 ∷ 7 ∷ []) ∷ []

checksum_good : checksum 4 udp.payload 14 20 ≡ 0
unfolding program from_list
checksum_good = refl

checksum-internet_checksum_example :
    checksum 3 udp.payload 15 19 ≡ htons (internet_checksum (sum16 udp.payload 15 19))
checksum-internet_checksum_example =
    checksum-internet_checksum udp.payload (from_list-IsBytes (frame 3) (omega arith)) 3 15 19
      (omega arith)

routes-IsUniform : IsUniform routes mask
unfolding masked
routes-IsUniform = record { one_mask = λ i h. ground arith; ascending = λ i j p q. ground arith }

routes-IsZeroBehind : IsZeroBehind routes
routes-IsZeroBehind = record { prefixes = λ i p q. ground arith; masks = λ i p q. ground arith }

get_best_route-Decides_example : Decides routes mask host (Route.route 1)
unfolding program
get_best_route-Decides_example =
    get_best_route-Decides routes mask host (omega arith) routes-IsUniform routes-IsZeroBehind
      (omega arith)

neighbours-IsValid : IsValid neighbours
unfolding get_arp_entry
neighbours-IsValid = record { distinct = (refl, tt); bounded = omega arith }

get_arp_entry-update_arp_table_example :
    get_arp_entry (entry host (3 ∷ 4 ∷ []) ∷ []) host ≡ some (entry host (3 ∷ 4 ∷ []))
unfolding program
get_arp_entry-update_arp_table_example =
    get_arp_entry-update_arp_table neighbours (entry host (3 ∷ 4 ∷ []) ∷ []) host (3 ∷ 4 ∷ []) host
      refl

step-Forwarded_example :
    (pkt : Packet) × (step system routes neighbours udp ≡ send_packet neighbours 1 pkt)
    × Forwarded 4 udp (2 ∷ 0 ∷ 0 ∷ 0 ∷ 0 ∷ 7 ∷ []) pkt
unfolding program from_list
step-Forwarded_example =
    step-Forwarded system udp (from_list-IsBytes (frame 3) (omega arith)) routes neighbours 1
      (entry host (2 ∷ 0 ∷ 0 ∷ 0 ∷ 0 ∷ 7 ∷ [])) refl (inl (omega arith)) refl (omega arith) refl
      refl refl (omega arith)

step-IsReply_example :
    (pkt : Packet) × (step system routes neighbours ping ≡ send_packet neighbours 2 pkt)
    × IsReply system ping 0 pkt
unfolding program from_list
step-IsReply_example =
    step-IsReply system routes ping 0 neighbours (from_list-IsBytes (frame 8) (omega arith)) refl
      (echo refl refl refl)

-- A reply of 192.0.3.3 that has 1.0.0.192 where the code reads the target's address.
abbrev arp_reply : Packet
arp_reply = record {
  len = 46;
  payload = from_list (
      2 ∷ 0 ∷ 0 ∷ 0 ∷ 0 ∷ 0 ∷ 2 ∷ 0 ∷ 0 ∷ 0 ∷ 0 ∷ 9 ∷ 8 ∷ 6 ∷ 0 ∷ 1 ∷ 8 ∷ 0 ∷ 6 ∷ 4 ∷ 0 ∷ 2 ∷ 2 ∷ 0
      ∷ 0 ∷ 0 ∷ 0 ∷ 9 ∷ 0 ∷ 0 ∷ 192 ∷ 0 ∷ 3 ∷ 3 ∷ 2 ∷ 0 ∷ 0 ∷ 0 ∷ 0 ∷ 0 ∷ 0 ∷ 0 ∷ 1 ∷ 0 ∷ 0 ∷ 192
      ∷ []);
  interface = 0;
}

abbrev sender_address : ℕ
sender_address = 192 + 3 * 65536 + 3 * 16777216

abbrev one_more : ArpTable
one_more =
    entry host (2 ∷ 0 ∷ 0 ∷ 0 ∷ 0 ∷ 7 ∷ []) ∷ entry sender_address (2 ∷ 0 ∷ 0 ∷ 0 ∷ 0 ∷ 9 ∷ []) ∷ []

step-get_arp_entry_example :
    (get_arp_entry one_more sender_address ≡ get_arp_entry neighbours sender_address)
    ⊎ (IsTakenReply system routes neighbours arp_reply
        × (load32 arp_reply.payload ArpPkt.sender_ip ≡ sender_address)
        × (get_arp_entry one_more sender_address
            ≡ some (entry sender_address (read_bytes arp_reply.payload ArpPkt.sender_hw 6))))
unfolding program from_list
step-get_arp_entry_example =
    step-get_arp_entry system routes neighbours arp_reply one_more none sender_address refl

-- The request that asks for the router's address 10.0.0.1, laid out as the protocol says.
abbrev request : Packet
request = record {
  len = 42;
  payload = from_list (
      255 ∷ 255 ∷ 255 ∷ 255 ∷ 255 ∷ 255 ∷ 2 ∷ 0 ∷ 0 ∷ 0 ∷ 0 ∷ 9 ∷ 8 ∷ 6 ∷ 0 ∷ 1 ∷ 8 ∷ 0 ∷ 6 ∷ 4 ∷ 0
      ∷ 1 ∷ 2 ∷ 0 ∷ 0 ∷ 0 ∷ 0 ∷ 9 ∷ 10 ∷ 0 ∷ 0 ∷ 2 ∷ 0 ∷ 0 ∷ 0 ∷ 0 ∷ 0 ∷ 0 ∷ 10 ∷ 0 ∷ 0 ∷ 1 ∷ []);
  interface = 0;
}

step-ne-fault_example : step system routes neighbours udp ≢ fault
unfolding load32 from_list
step-ne-fault_example =
    step-ne-fault system routes neighbours udp mask 1 (omega arith) routes-IsUniform
      routes-IsZeroBehind (omega arith) (omega arith) (omega arith) neighbours-IsValid (omega arith)

abbrev mac : Memory
mac i = 16 * i + 10

hwaddr_aton-format_example :
    ((hwaddr_aton (format_mac mac) (λ i. 0)).result ≡ pos 0)
    × ((k : ℕ) → (hwaddr_aton (format_mac mac) (λ i. 0)).addr k ≡ (if ltb k 6 then mac k else 0))
hwaddr_aton-format_example = hwaddr_aton-format mac (λ i. 0) (λ k h. omega arith)
