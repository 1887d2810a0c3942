-- ===== src/Earlier/Handled.antt =====
-- One round of the loop of `main`, whatever the packet is.
use protocoale.Base.{
  ℕ, ◌-◌, ◌^◌, ◌<◌, ◌≡◌, ◌≢◌, ◌⊎◌, inl, inr, none, some, List, get_elem?, length, arith, refl, sym,
  ap, ◌∙◌, subst, Option-cases,
}
use native.Mathlib.Decide.{ℕ_discrete}
use protocoale.Bytes.{IsBytes, load32, write_bytes}
use protocoale.Bytes.Copy.{AllBytes}
use protocoale.Router.Checksum.{checksum}
use protocoale.Router.Layout.Ether
use protocoale.Router.Layout.Ip
use protocoale.Router.Route.{RouteEntry}
use protocoale.Router.Arp.{ArpEntry, ArpTable, get_arp_entry}
use protocoale.Router.Packet.{Packet, ip_header_len, set_check}
use protocoale.Router.Step.{System, decrement_ttl}
use protocoale.Router.Step.Forwarded.{Forwarded, sent_on, sent_on-Forwarded, decrement_ttl-daddr}
use protocoale.Earlier.{
  Lookup, route, null, undefined, get_best_route, Round, continues, sends, null_read, no_value,
  decrement, address_and_send, with_route, handle,
}
use protocoale.Earlier.Longest.{Bounds, IsFirst, Selects, get_best_route-Selects}

-- Every hardware address in the table has six bytes.
abbrev pub HasAddresses : ArpTable → Type 0
HasAddresses table =
    (ip : ℕ) (e : ArpEntry) → get_arp_entry table ip ≡ some e → (length e.mac ≡ 6) × AllBytes e.mac

module _ (base : ℕ) (rtable : List RouteEntry) (table : ArpTable) (m : Packet) where
  abbrev pub destination : ℕ
  destination = load32 m.payload Ip.daddr

  -- A packet that the router would send on.
  abbrev pub IsGood : Type 0
  IsGood = (checksum base m.payload Ip.version ip_header_len ≡ 0) × (0 < m.payload Ip.ttl)

  -- What the outcome of a round says of the packet and the tables.
  abbrev pub Handled : Round → Type 0
  Handled continues =
      (checksum base m.payload Ip.version ip_header_len ≢ 0)
      ⊎ (m.payload Ip.ttl ≡ 0)
      ⊎ ((j : ℕ) × IsFirst rtable destination j (2 ^ 32 - 1))
  Handled (sends interface pkt) =
      IsGood
      × (j : ℕ) × (best : RouteEntry) × (get_elem? rtable j ≡ some best)
      × (best.interface ≡ interface)
      × Selects rtable destination (route j)
      × (e : ArpEntry) × (get_arp_entry table destination ≡ some e)
      × Forwarded base m e.mac pkt
  Handled null_read = IsGood × (get_arp_entry table destination ≡ none)
  Handled no_value = IsGood × Bounds rtable destination 0

  module _ (bytes : IsBytes m.payload) (addresses : HasAddresses table) (good : IsGood) where
    abbrev sys : System
    sys = record {
      interface_ip = λ i. 0;
      interface_mac = λ i. List.[];
      received_base = base;
      sent_base = 0;
    }

    abbrev addressed : Packet → ArpEntry → Packet
    addressed p e = record p { payload = write_bytes p.payload Ether.dhost e.mac }

    decrement-same : decrement base m ≡ decrement_ttl sys m
    unfolding decrement decrement_ttl set_check
    decrement-same = refl

    same_destination : load32 (decrement base m).payload Ip.daddr ≡ destination
    same_destination =
        subst (λ (p : Packet). load32 p.payload Ip.daddr ≡ destination) (sym decrement-same)
          (decrement_ttl-daddr sys m bytes)

    address_and_send-Handled :
        (j : ℕ) (best : RouteEntry)
        → get_elem? rtable j ≡ some best
        → Selects rtable destination (route j)
        → Handled (address_and_send table best (decrement base m))
    unfolding address_and_send sent_on
    address_and_send-Handled j best there d =
        elim (Option-cases (get_arp_entry table destination)) [
          | inl missing ↦
              let outcome : address_and_send table best (decrement base m) ≡ null_read =
                ground (arith, same_destination) in
              subst Handled (sym outcome) (good, missing)
          | inr (e, found) ↦
              let whole = addresses destination e found in
              let outcome : address_and_send table best (decrement base m)
                  ≡ sends best.interface (sent_on sys m bytes e) =
                ground (arith, same_destination)
                ∙ ap (λ p. sends best.interface (addressed p e)) decrement-same in
              subst Handled (sym outcome) (
                good,
                j,
                best,
                there,
                refl,
                d,
                e,
                found,
                sent_on-Forwarded sys m bytes e good.1 whole.0 whole.1,
              )
        ]

    with_route-Handled :
        (r : Lookup) → Selects rtable destination r → Handled (with_route base rtable table m r)
    unfolding with_route
    with_route-Handled null d = inr (inr d)
    with_route-Handled undefined d = (good, d)
    with_route-Handled (route j) d =
        let (max, above, other, bounds, f) = d in
        let outcome : with_route base rtable table m (route j)
            ≡ address_and_send table f.entry (decrement base m) =
          ground (arith, f.there) in
        subst Handled (sym outcome) (address_and_send-Handled j f.entry f.there d)

  -- A round drops a packet with a bad checksum, a time to live of 0, or whose longest matching mask
  -- is 255.255.255.255; it forwards a packet as `Forwarded` says, through the interface of the first
  -- route with the longest matching mask; it reads through `NULL` if it knows no hardware address for
  -- the destination; and it uses a variable without a value if only masks of 0.0.0.0 match, or none.
  pub handle-Handled : IsBytes m.payload → HasAddresses table → Handled (handle base rtable table m)
  unfolding handle
  handle-Handled bytes addresses =
      let sum = checksum base m.payload Ip.version ip_header_len in
      elim (ℕ_discrete sum 0) [
        | no wrong ↦
            let outcome : handle base rtable table m ≡ continues = ground arith in
            subst Handled (sym outcome) (inl wrong)
        | yes right ↦ elim (ℕ_discrete (m.payload Ip.ttl) 0) [
          | yes over ↦
              let outcome : handle base rtable table m ≡ continues = ground arith in
              subst Handled (sym outcome) (inr (inl over))
          | no alive ↦
              let r = get_best_route rtable destination in
              let outcome : handle base rtable table m ≡ with_route base rtable table m r =
                ground arith in
              subst Handled (sym outcome) (
                with_route-Handled bytes addresses (right, omega arith) r
                  (get_best_route-Selects rtable destination))
        ]
      ]
