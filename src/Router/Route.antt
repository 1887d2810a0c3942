-- ===== src/Router/Route.antt =====
-- tema1/route.c: the routing table, its order, and the search for a route.
pub mod Order
pub mod Search
pub mod Best
pub mod Uniform
use protocoale.Base.{
  ℕ, zero, suc, ◌+◌, ◌-◌, ◌/◌, ◌%◌, ◌^◌, Bool, true, false, Option, none, some, List, [], ◌∷◌,
  bit_and, ltb, leb, ◌==◌, if◌then◌else◌,
}
use protocoale.Base.Int.{ℤ, pos, negsuc, sub_ℕ}

-- `struct route_table_entry`. Addresses are `uint32_t` in network order.
pub record RouteEntry : Type 0 where
  pub prefix : ℕ
  pub next_hop : ℕ
  pub mask : ℕ
  pub interface : ℕ

-- The globals `rtable`, an allocation of `capacity` cells, and `rtable_size`.
pub record Table : Type 0 where
  pub cells : ℕ → RouteEntry
  pub capacity : ℕ
  pub size : ℕ

-- `int diff = p - q` of two `uint32_t`: the difference wraps and is read as signed.
unfoldable pub int_diff : ℕ → ℕ → ℤ
int_diff p q =
    let d = (p + 2 ^ 32 - q) % 2 ^ 32 in if ltb d (2 ^ 31) then pos d else negsuc (2 ^ 32 - d - 1)

unfoldable pub compare_masks : ℕ → ℕ → ℤ
compare_masks m n = if ltb m n then negsuc 0 else if ltb n m then pos 1 else pos 0

unfoldable pub by_diff : ℤ → ℤ → ℤ
by_diff (pos zero) masks = masks
by_diff (pos (suc d)) masks = pos (suc d)
by_diff (negsuc d) masks = negsuc d

-- The comparison that `qsort` sorts the table with.
unfoldable pub compare_func : RouteEntry → RouteEntry → ℤ
unfolding int_diff compare_masks by_diff
compare_func a b = by_diff (int_diff a.prefix b.prefix) (compare_masks a.mask b.mask)

-- What one line of the file holds after `sscanf`, `inet_addr` and `atoi`: these are `scan`.
-- A line past the allocation faults.
module _ {Line : Type 0} (scan : Line → RouteEntry) where
  unfoldable pub parse_lines : List Line → (i : ℕ) → Table → Option Table
  parse_lines [] i t = some (record t { size = i })
  parse_lines (line ∷ lines) i t = elim (ltb i t.capacity) [
    | true ↦
        parse_lines lines (i + 1)
          (record t { cells = λ j. if j == i then scan line else t.cells j })
    | false ↦ none
  ]

  unfoldable pub parse_route_table : List Line → Table → Option Table
  unfolding parse_lines
  parse_route_table lines t = parse_lines lines 0 t

-- The key that a cell is compared by: `rtable[mid].mask & dest_ip`.
unfoldable pub masked : RouteEntry → ℕ → ℕ
masked e dest = bit_and e.mask dest

-- `none` is a read outside the allocation, or fuel that ran out. `left` is never negative.
unfoldable pub binary_search : Table → (dest fuel left : ℕ) (right : ℤ) → Option ℤ
unfolding masked
binary_search t dest zero left right = none
binary_search t dest (suc fuel) left (negsuc r) = some (negsuc 0)
binary_search t dest (suc fuel) left (pos right) = elim (leb left right) [
  | false ↦ some (negsuc 0)
  | true ↦
      let mid = left + (right - left) / 2 in
      elim (ltb mid t.capacity) [
        | false ↦ none
        | true ↦
            let cell = t.cells mid in
            elim (cell.prefix == masked cell dest) [
              | true ↦ some (pos mid)
              | false ↦ elim (ltb (masked cell dest) cell.prefix) [
                | true ↦ binary_search t dest fuel left (sub_ℕ mid 1)
                | false ↦ binary_search t dest fuel (mid + 1) (pos right)
              ]
            ]
      ]
]

-- `while (rtable[i].prefix == prefix) i++;`, with `left` cells of the allocation from `i` on.
-- `none` is a read behind the allocation.
unfoldable pub run_end : Table → (prefix left i : ℕ) → Option ℕ
run_end t prefix zero i = none
run_end t prefix (suc left) i = elim ((t.cells i).prefix == prefix) [
  | true ↦ run_end t prefix left (i + 1)
  | false ↦ some i
]

pub data Lookup : Type 0 where
  route : ℕ → Lookup
  no_route : Lookup
  fault : Lookup

unfoldable pub last_of_run : Option ℕ → Lookup
last_of_run none = fault
last_of_run (some i) = route (i - 1)

unfoldable pub from_index : Table → Option ℤ → Lookup
unfolding run_end last_of_run
from_index t none = fault
from_index t (some (negsuc n)) = no_route
from_index t (some (pos index)) =
    last_of_run (run_end t (t.cells index).prefix (t.capacity - (index + 1)) (index + 1))

-- The index of the returned entry; `no_route` is `NULL`. The search covers cell `size` too.
unfoldable pub get_best_route : Table → ℕ → Lookup
unfolding binary_search run_end from_index last_of_run
get_best_route t dest = from_index t (binary_search t dest (t.size + 2) 0 (pos t.size))
