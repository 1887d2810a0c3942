-- ===== src/Router/Step/Forwarded.antt =====
-- A packet that is forwarded: its header checksum is right again, its time to live is one less,
-- and nothing but these and the destination's hardware address changes.
use protocoale.Base.{
  ℕ, ◌+◌, ◌≤◌, ◌<◌, ◌≡◌, ◌≢◌, ◌⊎◌, inr, some, arith, refl, List, length, ◌∙◌, subst,
}
use protocoale.Bytes.{IsBytes, load16, load32, read_bytes, write_bytes, store8, store16, htons}
use protocoale.Bytes.Copy.{
  store16-IsBytes, AllBytes, write_bytes_outside, read_bytes-write_bytes, write_bytes-IsBytes,
}
use protocoale.Router.Checksum.{checksum}
use protocoale.Router.Checksum.Sum16.{sum16-ext}
use protocoale.Router.Checksum.Internet.{checksum-zero_iff}
use protocoale.Router.Layout.Ether
use protocoale.Router.Layout.Ip
use protocoale.Router.Layout.Icmp
use protocoale.Router.Route
use protocoale.Router.Route.{RouteEntry, Table, get_best_route}
use protocoale.Router.Arp.{ArpEntry, ArpTable, get_arp_entry}
use protocoale.Router.Packet.{Packet, set_check, ip_header_len, ethertype_ip}
use protocoale.Router.Packet.Checks.{set_check-ip}
use protocoale.Router.Step.{System, send_packet, step, handle_ip, forward, resolve, decrement_ttl}

-- `pkt` is `m` on its way to a neighbour with hardware address `mac`.
pub record Forwarded (base : ℕ) (m : Packet) (mac : List ℕ) (pkt : Packet) : Type 0 where
  pub same_len : pkt.len ≡ m.len
  pub to_mac : read_bytes pkt.payload Ether.dhost 6 ≡ mac
  pub lower_ttl : pkt.payload Ip.ttl + 1 ≡ m.payload Ip.ttl
  pub valid : checksum base pkt.payload Ip.version ip_header_len ≡ 0
  pub others_same :
      (i : ℕ) → 6 ≤ i → i ≢ Ip.ttl → i ≢ Ip.check → i ≢ Ip.check + 1 → pkt.payload i ≡ m.payload i

module _ (sys : System) (m : Packet) (bytes : IsBytes m.payload) where
  decrement_ttl-IsBytes : IsBytes (decrement_ttl sys m).payload
  unfolding decrement_ttl set_check store8
  decrement_ttl-IsBytes =
      store16-IsBytes _ Ip.check _ (store16-IsBytes _ Ip.check 0 (λ i. ground (arith, bytes i)))

  decrement_ttl-checksum :
      checksum sys.received_base (decrement_ttl sys m).payload Ip.version ip_header_len ≡ 0
  unfolding decrement_ttl store8
  decrement_ttl-checksum = set_check-ip sys.received_base _ (λ i. ground (arith, bytes i))

  decrement_ttl-ttl :
      0 < m.payload Ip.ttl → (decrement_ttl sys m).payload Ip.ttl + 1 ≡ m.payload Ip.ttl
  unfolding decrement_ttl set_check store8 store16
  decrement_ttl-ttl h = omega (arith, bytes Ip.ttl)

  decrement_ttl_same :
      (i : ℕ)
      → i ≢ Ip.ttl
      → i ≢ Ip.check
      → i ≢ Ip.check + 1
      → (decrement_ttl sys m).payload i ≡ m.payload i
  unfolding decrement_ttl set_check store8 store16
  decrement_ttl_same i p q r = ground arith

  pub decrement_ttl-daddr :
      load32 (decrement_ttl sys m).payload Ip.daddr ≡ load32 m.payload Ip.daddr
  unfolding load32 decrement_ttl set_check store8 store16
  decrement_ttl-daddr = refl

  -- Writing the destination's hardware address leaves the IP header alone.
  addressed-checksum :
      (mac : List ℕ)
      → length mac ≡ 6
      → AllBytes mac
      → checksum sys.received_base
          (write_bytes (decrement_ttl sys m).payload Ether.dhost mac)
          Ip.version
          ip_header_len
        ≡ 0
  addressed-checksum mac l a =
      let before = (decrement_ttl sys m).payload in
      let after = write_bytes before Ether.dhost mac in
      let same =
        sum16-ext after before Ip.version ip_header_len
          (λ i p q. write_bytes_outside before Ether.dhost mac i (inr (omega arith))) in
      let good =
        (checksum-zero_iff before decrement_ttl-IsBytes sys.received_base Ip.version ip_header_len
            (omega arith)).0
          decrement_ttl-checksum in
      (checksum-zero_iff after (write_bytes-IsBytes before Ether.dhost mac decrement_ttl-IsBytes a)
          sys.received_base Ip.version ip_header_len (omega arith)).1
        (omega arith)

  unfoldable pub sent_on : ArpEntry → Packet
  sent_on dest =
      let lower = decrement_ttl sys m in
      record lower { payload = write_bytes lower.payload Ether.dhost dest.mac }

  pub sent_on-Forwarded :
      (dest : ArpEntry)
      → 0 < m.payload Ip.ttl
      → length dest.mac ≡ 6
      → AllBytes dest.mac
      → Forwarded sys.received_base m dest.mac (sent_on dest)
  unfolding sent_on
  sent_on-Forwarded dest t l a =
      let lower = (decrement_ttl sys m).payload in
      let outside = write_bytes_outside lower Ether.dhost dest.mac in
      record {
        same_len = unfold decrement_ttl in refl;
        to_mac =
            subst
              (λ n. read_bytes (write_bytes lower Ether.dhost dest.mac) Ether.dhost n ≡ dest.mac) l
              (read_bytes-write_bytes lower Ether.dhost dest.mac);
        lower_ttl = omega (arith, outside Ip.ttl (inr (omega arith)), decrement_ttl-ttl t);
        valid = addressed-checksum dest.mac l a;
        others_same = λ i low p q r. outside i (inr (omega arith)) ∙ decrement_ttl_same i p q r;
      }

  -- An IP packet that is not an echo request for the router, with a good header checksum, a time
  -- to live above 1, a route and a known hardware address, goes out through the interface of
  -- the route, with the time to live lowered by one, a good header checksum and the neighbour's
  -- hardware address, and is otherwise the packet that came in; the ARP table stays.
  pub step-Forwarded :
      (rtable : Table) (table : ArpTable) (j : ℕ) (dest : ArpEntry)
      → htons (load16 m.payload Ether.ether_type) ≡ ethertype_ip
      → (m.payload Icmp.type ≢ 8) ⊎ (load32 m.payload Ip.daddr ≢ sys.interface_ip m.interface)
      → checksum sys.received_base m.payload Ip.version ip_header_len ≡ 0
      → 1 < m.payload Ip.ttl
      → get_best_route rtable (load32 m.payload Ip.daddr) ≡ Route.route j
      → get_arp_entry table (load32 m.payload Ip.daddr) ≡ some dest
      → length dest.mac ≡ 6
      → AllBytes dest.mac
      → (pkt : Packet) × (step sys rtable table m
          ≡ send_packet table (rtable.cells j).interface pkt)
        × Forwarded sys.received_base m dest.mac pkt
  unfolding step handle_ip forward resolve sent_on
  step-Forwarded rtable table j dest is_ip not_echo good t best known l a =
      (sent_on dest, ground (arith, decrement_ttl-daddr), sent_on-Forwarded dest (omega arith) l a)
