-- ===== src/Router/Arp.antt =====
-- tema1/arp.c: the ARP table, and the fixed fields of an ARP packet.
pub mod Laws
use protocoale.Base.{ℕ, Option, none, some, List, [], ◌∷◌, ◌++◌, length, ltb, ◌==◌, if◌then◌else◌}
use protocoale.Bytes.{Memory, store8, store16, htons}
use protocoale.Router.Layout.ArpPkt.{hw_type, prot_type, hw_len, prot_len, operation}

pub record ArpEntry : Type 0 where
  pub ip : ℕ
  pub mac : List ℕ

-- The cells of `arp_table` up to `arp_table_len`.
abbrev pub ArpTable : Type 0
ArpTable = List ArpEntry

-- `malloc(sizeof(struct arp_entry) * 100)`.
abbrev pub arp_capacity : ℕ
arp_capacity = 100

unfoldable pub get_arp_entry : ArpTable → ℕ → Option ArpEntry
get_arp_entry [] ip = none
get_arp_entry (e ∷ table) ip = if e.ip == ip then some e else get_arp_entry table ip

-- The write through the pointer that `get_arp_entry` returned.
unfoldable pub set_mac : ArpTable → ℕ → List ℕ → ArpTable
set_mac [] ip mac = []
set_mac (e ∷ table) ip mac =
    if e.ip == ip then record e { mac = mac } ∷ table else e ∷ set_mac table ip mac

-- `none` is a write behind the allocation.
unfoldable pub add_arp_entry : ArpTable → ℕ → List ℕ → Option ArpTable
add_arp_entry table ip mac =
    if ltb (length table) arp_capacity
    then some (table ++ record { ip = ip; mac = mac } ∷ [])
    else none

-- The address and the hardware address are those of the packet's sender.
unfoldable pub update_arp_table : ArpTable → (ip : ℕ) → (mac : List ℕ) → Option ArpTable
unfolding get_arp_entry set_mac add_arp_entry
update_arp_table table ip mac = elim (get_arp_entry table ip) [
  | some e ↦ some (set_mac table ip mac)
  | none ↦ add_arp_entry table ip mac
]

-- `complete_arp_pack(arp_pkt, operation)`.
unfoldable pub complete_arp_pack : Memory → (operation : ℕ) → Memory
complete_arp_pack m op =
    let m1 = store16 (store16 m hw_type (htons 1)) prot_type (htons 0x800) in
    let m2 = store8 (store8 m1 hw_len 6) prot_len 4 in store16 m2 operation (htons op)
