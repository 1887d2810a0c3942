-- ===== src/Router/Arp/Laws.antt =====
-- `update_arp_table` is a map update that keeps one entry for each address.
use protocoale.Base.{
  ℕ, ◌+◌, ◌≤◌, ◌≡◌, ◌≢◌, Option, none, some, List, [], ◌∷◌, ◌++◌, length, arith, ◌==◌,
  if◌then◌else◌, length-append, refl, Option-cases, inl, inr, sym, subst,
}
use protocoale.Router.Arp.{
  ArpEntry, ArpTable, arp_capacity, get_arp_entry, set_mac, add_arp_entry, update_arp_table,
}

abbrev pub entry : ℕ → List ℕ → ArpEntry
entry ip mac = record { ip = ip; mac = mac }

-- An entry that is found has the address that was asked for.
pub get_arp_entry-ip :
    (table : ArpTable) (ip : ℕ) (e : ArpEntry) → get_arp_entry table ip ≡ some e → e.ip ≡ ip
unfolding get_arp_entry
get_arp_entry-ip [] ip e h = absurd (cc)
get_arp_entry-ip (x ∷ table) ip e h = ground (arith, get_arp_entry-ip table ip e)

get_arp_entry-set_mac :
    (table : ArpTable) (ip : ℕ) (mac : List ℕ) (e : ArpEntry) (j : ℕ)
    → get_arp_entry table ip ≡ some e
    → get_arp_entry (set_mac table ip mac) j
      ≡ (if ip == j then some (entry ip mac) else get_arp_entry table j)
unfolding get_arp_entry set_mac
get_arp_entry-set_mac [] ip mac e j h = absurd (cc)
get_arp_entry-set_mac (x ∷ table) ip mac e j h =
    ground (arith, get_arp_entry-set_mac table ip mac e j)

get_arp_entry-append :
    (table : ArpTable) (ip : ℕ) (mac : List ℕ) (j : ℕ)
    → get_arp_entry table ip ≡ none
    → get_arp_entry (table ++ entry ip mac ∷ []) j
      ≡ (if ip == j then some (entry ip mac) else get_arp_entry table j)
unfolding get_arp_entry
get_arp_entry-append [] ip mac j h = refl
get_arp_entry-append (x ∷ table) ip mac j h = ground (arith, get_arp_entry-append table ip mac j)

-- After an update the table answers with the new hardware address for that address, and as
-- before for every other one.
pub get_arp_entry-update_arp_table :
    (table table' : ArpTable) (ip : ℕ) (mac : List ℕ) (j : ℕ)
    → update_arp_table table ip mac ≡ some table'
    → get_arp_entry table' j ≡ (if ip == j then some (entry ip mac) else get_arp_entry table j)
unfolding update_arp_table
get_arp_entry-update_arp_table table table' ip mac j h =
    elim (Option-cases (get_arp_entry table ip)) [
      | inl missing ↦ ground (arith, get_arp_entry-append table ip mac j)
      | inr (e, found) ↦ ground (arith, get_arp_entry-set_mac table ip mac e j)
    ]

-- No address has two entries.
abbrev pub IsDistinct : ArpTable → Type 0
IsDistinct [] = Unit {0}
IsDistinct (e ∷ table) = (get_arp_entry table e.ip ≡ none) × IsDistinct table

pub record IsValid (table : ArpTable) : Type 0 where
  pub distinct : IsDistinct table
  pub bounded : length table ≤ arp_capacity

missing-set_mac :
    (table : ArpTable) (ip : ℕ) (mac : List ℕ) (j : ℕ)
    → get_arp_entry table j ≡ none
    → get_arp_entry (set_mac table ip mac) j ≡ none
unfolding get_arp_entry set_mac
missing-set_mac [] ip mac j h = refl
missing-set_mac (e ∷ table) ip mac j h = ground (arith, missing-set_mac table ip mac j)

set_mac-IsDistinct :
    (table : ArpTable) (ip : ℕ) (mac : List ℕ)
    → IsDistinct table
    → IsDistinct (set_mac table ip mac) × (length (set_mac table ip mac) ≡ length table)
unfolding set_mac
set_mac-IsDistinct [] ip mac d = (tt, refl)
set_mac-IsDistinct (e ∷ table) ip mac d =
    ground (arith, missing-set_mac table ip mac e.ip, set_mac-IsDistinct table ip mac)

missing-append :
    (table : ArpTable) (ip : ℕ) (mac : List ℕ) (j : ℕ)
    → get_arp_entry table j ≡ none
    → ip ≢ j
    → get_arp_entry (table ++ entry ip mac ∷ []) j ≡ none
unfolding get_arp_entry
missing-append [] ip mac j h ne = ground arith
missing-append (e ∷ table) ip mac j h ne = ground (arith, missing-append table ip mac j)

append-IsDistinct :
    (table : ArpTable) (ip : ℕ) (mac : List ℕ)
    → IsDistinct table
    → get_arp_entry table ip ≡ none
    → IsDistinct (table ++ entry ip mac ∷ [])
unfolding get_arp_entry
append-IsDistinct [] ip mac d h = (refl, tt)
append-IsDistinct (e ∷ table) ip mac d h =
    ground (arith, missing-append table ip mac e.ip, append-IsDistinct table ip mac)

-- What an update of a valid table comes to.
abbrev pub Updates : ArpTable → ℕ → Option ArpTable → Type 0
Updates table ip (some table') = IsValid table' × (length table' ≤ length table + 1)
Updates table ip none = (length table ≡ arp_capacity) × (get_arp_entry table ip ≡ none)

add_arp_entry-IsValid :
    (table : ArpTable) (ip : ℕ) (mac : List ℕ)
    → IsValid table
    → get_arp_entry table ip ≡ none
    → Updates table ip (add_arp_entry table ip mac)
unfolding add_arp_entry
add_arp_entry-IsValid table ip mac v missing = ground (
  arith,
  v.bounded,
  length-append table (entry ip mac ∷ []),
  append-IsDistinct table ip mac v.distinct missing,
)

-- An update keeps one entry for each address within the allocation; it writes behind the
-- allocation only if a hundred other addresses are known.
pub update_arp_table-IsValid :
    (table : ArpTable) (ip : ℕ) (mac : List ℕ)
    → IsValid table
    → Updates table ip (update_arp_table table ip mac)
unfolding update_arp_table
update_arp_table-IsValid table ip mac v = elim (Option-cases (get_arp_entry table ip)) [
  | inr (e, found) ↦
      let kept = set_mac-IsDistinct table ip mac v.distinct in
      let returned : update_arp_table table ip mac ≡ some (set_mac table ip mac) = ground arith in
      subst (Updates table ip) (sym returned) (
        record { distinct = kept.0; bounded = omega (arith, kept, v.bounded) },
        omega (arith, kept),
      )
  | inl missing ↦
      let returned : update_arp_table table ip mac ≡ add_arp_entry table ip mac = ground arith in
      subst (Updates table ip) (sym returned) (add_arp_entry-IsValid table ip mac v missing)
]
