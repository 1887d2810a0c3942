-- ===== src/Router/Step/Replies.antt =====
-- The ICMP packets that the router sends back: when, to whom, and with which contents.
use protocoale.Base.{ℕ, ◌+◌, ◌≤◌, ◌<◌, ◌≡◌, ◌≢◌, ◌⊎◌, arith, refl, sym, ◌∙◌}
use protocoale.Bytes.{
  Memory, IsBytes, load16, load32, read_bytes, write_bytes, store8, store16, store32, htons,
}
use protocoale.Bytes.Copy.{store16-IsBytes, write_bytes-IsBytes, read_bytes-AllBytes}
use protocoale.Router.Checksum.{checksum}
use protocoale.Router.Checksum.Sum16.{sum16-ext}
use protocoale.Router.Checksum.Internet.{checksum-zero_iff}
use protocoale.Router.Layout.Ether
use protocoale.Router.Layout.Ip
use protocoale.Router.Layout.Icmp
use protocoale.Router.Route
use protocoale.Router.Route.{Table, get_best_route}
use protocoale.Router.Arp.{ArpTable}
use protocoale.Router.Packet.{
  Packet, init_packet, set_check, complete_ip_icmp, ip_header_len, icmp_header_len, ethertype_ip,
}
use protocoale.Router.Packet.Checks.{set_check-icmp}
use protocoale.Router.Step.{System, send_packet, step, handle_ip, forward, icmp_packet, send_icmp}
use protocoale.Router.Packet.Reply.{
  store8-IsBytes, set_check-IsBytes, store8_below, store16_below, set_check_below,
  complete_ip_icmp-IsBytes, complete_ip_icmp-checksum,
}

-- Why the router answers a packet itself, with the type of the ICMP message.
pub data Reason (sys : System) (rtable : Table) (m : Packet) (type : ℕ) : Type 0 where
  echo :
      type ≡ 0
      → m.payload Icmp.type ≡ 8
      → load32 m.payload Ip.daddr ≡ sys.interface_ip m.interface
      → Reason sys rtable m type
  expired :
      type ≡ 11
      → (m.payload Icmp.type ≢ 8) ⊎ (load32 m.payload Ip.daddr ≢ sys.interface_ip m.interface)
      → checksum sys.received_base m.payload Ip.version ip_header_len ≡ 0
      → m.payload Ip.ttl ≤ 1
      → Reason sys rtable m type
  unreachable :
      type ≡ 3
      → (m.payload Icmp.type ≢ 8) ⊎ (load32 m.payload Ip.daddr ≢ sys.interface_ip m.interface)
      → checksum sys.received_base m.payload Ip.version ip_header_len ≡ 0
      → 1 < m.payload Ip.ttl
      → get_best_route rtable (load32 m.payload Ip.daddr) ≡ Route.no_route
      → Reason sys rtable m type

-- `pkt` goes back to the sender of `m`, with both checksums right.
pub record IsReply (sys : System) (m : Packet) (type : ℕ) (pkt : Packet) : Type 0 where
  pub to_sender : load32 pkt.payload Ip.daddr ≡ load32 m.payload Ip.saddr
  pub from_target : load32 pkt.payload Ip.saddr ≡ load32 m.payload Ip.daddr
  pub to_mac : read_bytes pkt.payload Ether.dhost 6 ≡ read_bytes m.payload Ether.shost 6
  pub from_mac : read_bytes pkt.payload Ether.shost 6 ≡ read_bytes m.payload Ether.dhost 6
  pub icmp_type : pkt.payload Icmp.type ≡ type
  pub icmp_id : load16 pkt.payload Icmp.id ≡ load16 m.payload Icmp.id
  pub whole : pkt.len ≡ 14 + htons (load16 pkt.payload Ip.tot_len)
  pub valid_ip : checksum sys.sent_base pkt.payload Ip.version ip_header_len ≡ 0
  pub valid_icmp : checksum sys.sent_base pkt.payload Icmp.type icmp_header_len ≡ 0

module _ (sys : System) (m : Packet) (type : ℕ) (bytes : IsBytes m.payload)
    (small : type < 256) where
  -- The reply's payload before and after the ICMP header is filled in.
  prepared : Memory
  prepared = store8 (icmp_packet sys m).payload Icmp.type type

  finished : Memory
  finished = set_check sys.sent_base prepared Icmp.type icmp_header_len Icmp.check

  header_fields :
      (load32 finished Ip.daddr ≡ load32 m.payload Ip.saddr)
      × (load32 finished Ip.saddr ≡ load32 m.payload Ip.daddr)
      × (finished Icmp.type ≡ type)
      × (load16 finished Icmp.id ≡ load16 m.payload Icmp.id)
      × (14 + htons (load16 finished Ip.tot_len) ≡ 42)
  unfolding finished prepared icmp_packet complete_ip_icmp set_check store8 store16 store32 load16
      load32 write_bytes htons
  header_fields = (
    omega (arith, bytes 26, bytes 27, bytes 28, bytes 29),
    omega (arith, bytes 30, bytes 31, bytes 32, bytes 33),
    omega arith,
    omega (arith, bytes 38, bytes 39),
    refl,
  )

  hosts :
      (read_bytes finished Ether.dhost 6 ≡ read_bytes m.payload Ether.shost 6)
      × (read_bytes finished Ether.shost 6 ≡ read_bytes m.payload Ether.dhost 6)
  unfolding finished prepared icmp_packet complete_ip_icmp set_check store8 store16 store32 load16
      load32 write_bytes read_bytes htons
  hosts = (refl, refl)

  -- The payload with its Ethernet header, and then with its IP header.
  framed : Memory
  framed =
      let m1 = write_bytes init_packet.payload Ether.shost (read_bytes m.payload Ether.dhost 6) in
      let m2 = write_bytes m1 Ether.dhost (read_bytes m.payload Ether.shost 6) in
      store16 m2 Ether.ether_type (htons ethertype_ip)

  headed : Memory
  headed = complete_ip_icmp sys.sent_base framed m.payload 42

  framed-IsBytes : IsBytes framed
  unfolding framed init_packet
  framed-IsBytes = store16-IsBytes _ Ether.ether_type _ (
      write_bytes-IsBytes _ Ether.dhost _
        (write_bytes-IsBytes _ Ether.shost _ (λ i. omega arith)
          (read_bytes-AllBytes m.payload Ether.dhost 6 bytes))
        (read_bytes-AllBytes m.payload Ether.shost 6 bytes))

  headed-IsBytes : IsBytes headed
  unfolding headed
  headed-IsBytes = complete_ip_icmp-IsBytes sys.sent_base framed m.payload 42 framed-IsBytes

  prepared-IsBytes : IsBytes prepared
  unfolding prepared icmp_packet headed framed
  prepared-IsBytes = store8-IsBytes _ Icmp.type type (
      store16-IsBytes _ Icmp.sequence _
        (store16-IsBytes _ Icmp.id _ (store8-IsBytes headed Icmp.code 0 headed-IsBytes)))

  valid_icmp_here : checksum sys.sent_base finished Icmp.type icmp_header_len ≡ 0
  unfolding finished
  valid_icmp_here = set_check-icmp sys.sent_base prepared prepared-IsBytes

  -- The ICMP header is filled in behind the IP header.
  header_untouched : (i : ℕ) → 14 ≤ i → i < 14 + 20 → finished i ≡ headed i
  unfolding finished prepared icmp_packet headed framed
  header_untouched i p q =
      set_check_below sys.sent_base _ Icmp.type icmp_header_len Icmp.check i (omega arith)
      ∙ store8_below _ Icmp.type type i (omega arith)
      ∙ store16_below _ Icmp.sequence _ i (omega arith)
      ∙ store16_below _ Icmp.id _ i (omega arith)
      ∙ store8_below headed Icmp.code 0 i (omega arith)

  valid_ip_here : checksum sys.sent_base finished Ip.version ip_header_len ≡ 0
  valid_ip_here =
      let same = sum16-ext finished headed Ip.version ip_header_len header_untouched in
      let good =
        (checksum-zero_iff headed headed-IsBytes sys.sent_base Ip.version ip_header_len
            (omega arith)).0
          (unfold headed in
            (complete_ip_icmp-checksum sys.sent_base framed m.payload 42 framed-IsBytes)) in
      (checksum-zero_iff finished
          (unfold finished in
            (set_check-IsBytes sys.sent_base prepared Icmp.type icmp_header_len Icmp.check
              prepared-IsBytes))
          sys.sent_base Ip.version ip_header_len (omega arith)).1
        (omega arith)

  reply : Packet
  reply = record { len = 42; payload = finished; interface = m.interface }

  reply-IsReply : IsReply sys m type reply
  unfolding reply
  reply-IsReply = record {
    to_sender = header_fields.0;
    from_target = header_fields.1;
    to_mac = hosts.0;
    from_mac = hosts.1;
    icmp_type = header_fields.2;
    icmp_id = header_fields.3;
    whole = sym header_fields.4;
    valid_ip = valid_ip_here;
    valid_icmp = valid_icmp_here;
  }

  send_icmp-reply :
      (table : ArpTable) → send_icmp sys table type m ≡ send_packet table m.interface reply
  unfolding send_icmp reply finished prepared icmp_packet
  send_icmp-reply table = refl

module _ (sys : System) (rtable : Table) (m : Packet) (type : ℕ) where
  answers :
      (table : ArpTable)
      → Reason sys rtable m type
      → handle_ip sys rtable table m ≡ send_icmp sys table type m
  unfolding handle_ip forward
  answers table (echo t e d) = ground arith
  answers table (expired t e d l) = ground arith
  answers table (unreachable t e d l r) = ground arith

  Reason-small : Reason sys rtable m type → type < 256
  Reason-small (echo t e d) = omega arith
  Reason-small (expired t e d l) = omega arith
  Reason-small (unreachable t e d l r) = omega arith

  -- For each reason to answer an IP packet (an echo request for the router, an expired time to
  -- live, no route) the round sends an ICMP packet of that type back through the interface that
  -- the packet came from: to its sender, from the address that it was sent to, with valid IP and
  -- ICMP checksums and a length that is the one in its IP header; the ARP table stays.
  pub step-IsReply :
      (table : ArpTable)
      → IsBytes m.payload
      → htons (load16 m.payload Ether.ether_type) ≡ ethertype_ip
      → Reason sys rtable m type
      → (pkt : Packet) × (step sys rtable table m ≡ send_packet table m.interface pkt)
        × IsReply sys m type pkt
  unfolding step
  step-IsReply table bytes is_ip why =
      let small = Reason-small why in
      let routed : step sys rtable table m ≡ handle_ip sys rtable table m = ground arith in
      (
        reply sys m type bytes small,
        routed ∙ answers table why ∙ send_icmp-reply sys m type bytes small table,
        reply-IsReply sys m type bytes small,
      )
