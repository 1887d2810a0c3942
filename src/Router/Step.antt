-- ===== src/Router/Step.antt =====
-- The loop body of `main` in tema1/router.c: one received packet, with what it sends and how it
-- changes the ARP table.
pub mod Forwarded
pub mod Replies
pub mod ArpTraffic
use protocoale.Base.{
  ℕ, zero, suc, ◌+◌, ◌-◌, ◌*◌, ◌%◌, Bool, true, false, Option, none, some, List, [], ◌∷◌, ltb, leb,
  ◌==◌, ◌&&◌, if◌then◌else◌,
}
use protocoale.Bytes.{
  Memory, load16, load32, store8, store16, store32, read_bytes, write_bytes, htons, htonl,
}
use protocoale.Router.Checksum.{checksum}
use protocoale.Router.Layout.Ether
use protocoale.Router.Layout.Ip
use protocoale.Router.Layout.Icmp
use protocoale.Router.Layout.ArpPkt
use protocoale.Router.Route
use protocoale.Router.Route.{RouteEntry, Table, get_best_route}
use protocoale.Router.Arp.{ArpEntry, ArpTable, get_arp_entry, update_arp_table, complete_arp_pack}
use protocoale.Router.Packet.{
  Packet, init_packet, ether_header_len, ip_header_len, icmp_header_len, arp_packet_len,
  ethertype_arp, ethertype_ip, set_check, complete_ip_icmp,
}

-- What the router asks the system for: `inet_addr(get_interface_ip(i))`, in network order, and the
-- six bytes of `get_interface_mac(i)`; and the addresses of the payloads of `m` and of `pkt`.
pub record System : Type 0 where
  pub interface_ip : ℕ → ℕ
  pub interface_mac : ℕ → List ℕ
  pub received_base : ℕ
  pub sent_base : ℕ

-- One round: the ARP table, and the packet that was sent with its interface; or an access
-- outside an allocation.
pub data Round : Type 0 where
  next : ArpTable → Option (ℕ × Packet) → Round
  fault : Round

-- The loop ends a round with `continue`, and sends nothing.
abbrev pub drop : ArpTable → Round
drop table = next table none

abbrev pub send_packet : ArpTable → ℕ → Packet → Round
send_packet table interface pkt = next table (some (interface, pkt))

-- The Ethernet and ARP headers of a packet of the router's own. The type goes in as it is.
unfoldable pub arp_packet :
    (interface : ℕ) (dhost local_mac : List ℕ) (local_ip operation : ℕ) (target_ip : ℕ) → Packet
arp_packet interface dhost local_mac local_ip operation target_ip =
    let m1 = write_bytes init_packet.payload Ether.dhost dhost in
    let m2 = store16 (write_bytes m1 Ether.shost local_mac) Ether.ether_type ethertype_arp in
    let m3 = write_bytes (complete_arp_pack m2 operation) ArpPkt.sender_hw local_mac in
    let m4 = write_bytes (store32 m3 ArpPkt.sender_ip local_ip) ArpPkt.target_hw dhost in
    record {
      len = arp_packet_len + ether_header_len;
      payload = store32 m4 ArpPkt.target_ip target_ip;
      interface = interface;
    }

unfoldable pub after_update : Option ArpTable → Round
after_update (some table) = drop table
after_update none = fault

-- `BROADCAST_mac`.
abbrev pub broadcast : List ℕ
broadcast = 255 ∷ 255 ∷ 255 ∷ 255 ∷ 255 ∷ 255 ∷ []

module _ (sys : System) where
  -- `ntohs(arp_pkt->arphdr.arp_operation)` is ARP_REPLY, 2, or ARP_REQUEST, 1.
  unfoldable pub handle_arp : ArpTable → Packet → Round
  handle_arp table m =
      let local_ip = sys.interface_ip m.interface in
      let operation = htons (load16 m.payload ArpPkt.operation) in
      let for_me = local_ip == htonl (load32 m.payload ArpPkt.target_ip) in
      let shost = read_bytes m.payload Ether.shost 6 in
      let sender_ip = load32 m.payload ArpPkt.sender_ip in
      if operation == 2
      then (if for_me
          then after_update
              (update_arp_table table sender_ip (read_bytes m.payload ArpPkt.sender_hw 6))
          else drop table)
      else if operation == 1 && for_me
      then send_packet table m.interface
          (arp_packet m.interface shost (sys.interface_mac m.interface) local_ip 2 sender_ip)
      else drop table

  -- The ICMP packet that is prepared for every IP packet, before its type is known.
  unfoldable pub icmp_packet : Packet → Packet
  icmp_packet m =
      let len = ether_header_len + ip_header_len + icmp_header_len in
      let m1 = write_bytes init_packet.payload Ether.shost (read_bytes m.payload Ether.dhost 6) in
      let m2 = write_bytes m1 Ether.dhost (read_bytes m.payload Ether.shost 6) in
      let m3 = store16 m2 Ether.ether_type (htons ethertype_ip) in
      let m4 = complete_ip_icmp sys.sent_base m3 m.payload len in
      let m5 = store16 (store8 m4 Icmp.code 0) Icmp.id (load16 m.payload Icmp.id) in
      record {
        len = len;
        payload = store16 m5 Icmp.sequence (htons (load16 m.payload Icmp.sequence));
        interface = m.interface;
      }

  -- `icmp_req->type = type;` and the checksum over the ICMP header.
  unfoldable pub send_icmp : ArpTable → (type : ℕ) → Packet → Round
  send_icmp table type m =
      let pkt = icmp_packet m in
      let typed = store8 pkt.payload Icmp.type type in
      send_packet table pkt.interface (record pkt {
        payload = set_check sys.sent_base typed Icmp.type icmp_header_len Icmp.check;
      })

  -- `(ip_hdr->ttl)--` and the new checksum.
  unfoldable pub decrement_ttl : Packet → Packet
  decrement_ttl m =
      let lower = store8 m.payload Ip.ttl (m.payload Ip.ttl + 255) in
      record m { payload = set_check sys.received_base lower Ip.version ip_header_len Ip.check }

  -- The last steps: an ARP request if the address is not known, or the packet on its way.
  unfoldable pub resolve : ArpTable → RouteEntry → Packet → Round
  resolve table best m = elim (get_arp_entry table (load32 m.payload Ip.daddr)) [
    | none ↦ send_packet table m.interface (
        arp_packet m.interface broadcast (sys.interface_mac m.interface)
          (sys.interface_ip m.interface) 1 (load32 m.payload Ip.daddr))
    | some dest ↦
        send_packet table best.interface
          (record m { payload = write_bytes m.payload Ether.dhost dest.mac })
  ]

  unfoldable pub forward : Table → ArpTable → Packet → Route.Lookup → Round
  forward rtable table m (Route.route j) = resolve table (rtable.cells j) (decrement_ttl m)
  forward rtable table m Route.no_route = send_icmp table 3 m
  forward rtable table m Route.fault = fault

  -- Echo requests for the router are answered first; then the checksum, the time to live, the
  -- route and the hardware address are looked at.
  unfoldable pub handle_ip : Table → ArpTable → Packet → Round
  handle_ip rtable table m =
      if m.payload Icmp.type == 8 && load32 m.payload Ip.daddr == sys.interface_ip m.interface
      then send_icmp table 0 m
      else if checksum sys.received_base m.payload Ip.version ip_header_len == 0
      then (if leb (m.payload Ip.ttl) 1
          then send_icmp table 11 m
          else forward rtable table m (get_best_route rtable (load32 m.payload Ip.daddr)))
      else drop table

  unfoldable pub step : Table → ArpTable → Packet → Round
  step rtable table m =
      let type = htons (load16 m.payload Ether.ether_type) in
      if type == ethertype_arp
      then handle_arp table m
      else if type == ethertype_ip
      then handle_ip rtable table m
      else drop table
