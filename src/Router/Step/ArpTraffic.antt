-- ===== src/Router/Step/ArpTraffic.antt =====
-- What ARP packets do to the router, and what becomes of the ones that it sends.
use protocoale.Base.{
  ℕ, bit_and, ◌<◌, ◌≤◌, ◌≡◌, ◌≢◌, ◌⊎◌, inl, inr, arith, refl, Option, none, some, List, length, ap,
  ◌∙◌,
}
use protocoale.Bytes.{load16, load32, read_bytes, store8, store16, store32, htons, htonl}
use protocoale.Bytes.Copy.{write_bytes_outside}
use protocoale.Router.Layout.Ether
use protocoale.Router.Layout.Ip
use protocoale.Router.Layout.ArpPkt
use protocoale.Router.Route.{RouteEntry, Table}
use protocoale.Router.Route.Uniform.{IsUniform, IsZeroBehind, get_best_route-ne-fault}
use protocoale.Router.Arp.{
  ArpTable, arp_capacity, get_arp_entry, update_arp_table, complete_arp_pack,
}
use protocoale.Router.Arp.Laws.{
  entry, get_arp_entry-update_arp_table, IsValid, update_arp_table-IsValid,
}
use protocoale.Router.Packet.{Packet, ethertype_arp}
use protocoale.Router.Step.{
  System, next, fault, drop, send_packet, arp_packet, after_update, handle_arp, handle_ip, forward,
  resolve, send_icmp, step, broadcast,
}

module _ (sys : System) (rtable : Table) (table : ArpTable) (m : Packet) where
  -- What the code takes for an ARP reply to itself: the four bytes where it reads the target's address,
  -- at 42, are the address of the interface in reverse.
  pub record IsTakenReply : Type 0 where
    pub arp : htons (load16 m.payload Ether.ether_type) ≡ ethertype_arp
    pub reply : htons (load16 m.payload ArpPkt.operation) ≡ 2
    pub reversed : htonl (load32 m.payload ArpPkt.target_ip) ≡ sys.interface_ip m.interface

  handle_ip-table :
      (table' : ArpTable) (sent : Option (ℕ × Packet))
      → handle_ip sys rtable table m ≡ next table' sent
      → table' ≡ table
  unfolding handle_ip forward resolve send_icmp
  handle_ip-table table' sent h = ground arith

  -- A round that goes on changes the ARP table only by an ARP reply whose bytes at 42 are the address of
  -- the interface in reverse, and then by its sender's addresses.
  step_table :
      (table' : ArpTable) (sent : Option (ℕ × Packet))
      → step sys rtable table m ≡ next table' sent
      → (table' ≡ table)
        ⊎ (IsTakenReply
            × (update_arp_table table
                  (load32 m.payload ArpPkt.sender_ip)
                  (read_bytes m.payload ArpPkt.sender_hw 6)
                ≡ some table'))
  unfolding step handle_arp after_update
  step_table table' sent h = ground (arith, handle_ip-table table' sent)

  -- A round that goes on changes what the ARP table answers for an address only if its packet is an ARP
  -- reply from that address whose bytes at 42 are the address of the interface in reverse, and then the
  -- answer is the hardware address of the sender.
  pub step-get_arp_entry :
      (table' : ArpTable) (sent : Option (ℕ × Packet)) (ip : ℕ)
      → step sys rtable table m ≡ next table' sent
      → (get_arp_entry table' ip ≡ get_arp_entry table ip)
        ⊎ (IsTakenReply
            × (load32 m.payload ArpPkt.sender_ip ≡ ip)
            × (get_arp_entry table' ip ≡ some (entry ip (read_bytes m.payload ArpPkt.sender_hw 6))))
  step-get_arp_entry table' sent ip h = elim (step_table table' sent h) [
    | inl same ↦ inl (ap (λ t. get_arp_entry t ip) same)
    | inr (taken, updated) ↦
        let answer =
          get_arp_entry-update_arp_table table table' (load32 m.payload ArpPkt.sender_ip)
            (read_bytes m.payload ArpPkt.sender_hw 6) ip updated in
        ground (arith, taken, answer)
  ]

  -- An ARP packet that has the address of its interface there, in the order of the network, is dropped,
  -- unless that address reads the same in reverse.
  step_ordered :
      htons (load16 m.payload Ether.ether_type) ≡ ethertype_arp
      → load32 m.payload ArpPkt.target_ip ≡ sys.interface_ip m.interface
      → htonl (sys.interface_ip m.interface) ≢ sys.interface_ip m.interface
      → step sys rtable table m ≡ drop table
  unfolding step handle_arp
  step_ordered a here ne = ground (arith, ap htonl here)

  -- An ARP packet whose bytes behind the 42 that the protocol defines are zero is never taken to
  -- be for the router, whatever address it asks for.
  step_padded :
      htons (load16 m.payload Ether.ether_type) ≡ ethertype_arp
      → load32 m.payload 42 ≡ 0
      → sys.interface_ip m.interface ≢ 0
      → step sys rtable table m ≡ drop table
  unfolding step handle_arp htonl
  step_padded a z ne = ground arith

  no_fault_ip :
      (mask i : ℕ)
      → rtable.size < rtable.capacity
      → IsUniform rtable mask
      → IsZeroBehind rtable
      → 0 < bit_and mask (load32 m.payload Ip.daddr)
      → i < rtable.size
      → bit_and mask (load32 m.payload Ip.daddr) ≤ (rtable.cells i).prefix
      → handle_ip sys rtable table m ≢ fault
  unfolding handle_ip forward resolve send_icmp
  no_fault_ip mask i fits u z some_key at_i above h =
      let found =
        get_best_route-ne-fault rtable mask (load32 m.payload Ip.daddr) fits u z some_key i at_i
          above in
      ground (arith, found)

  -- The routes have one mask and ascend, the memory behind them is zero, and there is room in the ARP
  -- table. Then a round reads and writes nothing outside an allocation, if the bytes where an IP packet has
  -- its destination are not zero under the mask and compare below or equal to some prefix.
  pub step-ne-fault :
      (mask i : ℕ)
      → rtable.size < rtable.capacity
      → IsUniform rtable mask
      → IsZeroBehind rtable
      → 0 < bit_and mask (load32 m.payload Ip.daddr)
      → i < rtable.size
      → bit_and mask (load32 m.payload Ip.daddr) ≤ (rtable.cells i).prefix
      → IsValid table
      → length table < arp_capacity
      → step sys rtable table m ≢ fault
  unfolding step handle_arp after_update
  step-ne-fault mask i fits u z some_key at_i above v room h = ground (
    arith,
    no_fault_ip mask i fits u z some_key at_i above,
    update_arp_table-IsValid table (load32 m.payload ArpPkt.sender_ip)
        (read_bytes m.payload ArpPkt.sender_hw 6) v,
  )

module _ (interface : ℕ) (dhost local_mac : List ℕ) (local_ip operation target_ip : ℕ) where
  own : Packet
  own = arp_packet interface dhost local_mac local_ip operation target_ip

  type_low : own.payload 12 ≡ 0x06
  unfolding own arp_packet store32 store16 store8 complete_arp_pack
  type_low =
      write_bytes_outside _ ArpPkt.target_hw dhost 12 (inl (omega arith))
      ∙ write_bytes_outside _ ArpPkt.sender_hw local_mac 12 (inl (omega arith))

  type_high : own.payload 13 ≡ 0x08
  unfolding own arp_packet store32 store16 store8 complete_arp_pack
  type_high =
      write_bytes_outside _ ArpPkt.target_hw dhost 13 (inl (omega arith))
      ∙ write_bytes_outside _ ArpPkt.sender_hw local_mac 13 (inl (omega arith))

  -- The type on the wire has its bytes swapped.
  own_type : htons (load16 own.payload Ether.ether_type) ≡ 0x0608
  unfolding load16 htons
  own_type = rw (type_low, type_high) refl

  own_dropped :
      (sys : System) (rtable : Table) (table : ArpTable) → step sys rtable table own ≡ drop table
  unfolding step
  own_dropped sys rtable table = rw own_type refl

-- The ARP request that the router sends for an address that it does not know is one that every
-- router with this code drops, whatever its addresses and tables are.
resolve_unheard :
    (sys : System) (table : ArpTable) (best : RouteEntry) (m : Packet)
    → get_arp_entry table (load32 m.payload Ip.daddr) ≡ none
    → (pkt : Packet) × (resolve sys table best m ≡ send_packet table m.interface pkt)
      × ((other : System) (rtable : Table) (table' : ArpTable)
          → step other rtable table' pkt ≡ drop table')
unfolding resolve own
resolve_unheard sys table best m unknown = (
  own m.interface broadcast (sys.interface_mac m.interface) (sys.interface_ip m.interface) 1
      (load32 m.payload Ip.daddr),
  ground arith,
  own_dropped m.interface broadcast (sys.interface_mac m.interface) (sys.interface_ip m.interface) 1
      (load32 m.payload Ip.daddr),
)
