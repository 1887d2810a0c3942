-- ===== src/Router/Route/Uniform.antt =====
-- `get_best_route` on the tables that it serves, those with one mask, and on one that it does not. The
-- cell behind the routes, which the search reads too, and those behind it are taken to hold zeros, as
-- the fresh pages of a large `malloc` do.
use protocoale.Base.{
  ℕ, zero, suc, ◌+◌, ◌-◌, ◌/◌, ◌≤◌, ◌<◌, ◌≡◌, ◌≢◌, ◌⊎◌, inl, inr, Option, none, some, arith, ap,
  sym, ◌∙◌, bit_and, refl, subst,
}
use protocoale.Base.Int.{ℤ, pos, negsuc, sub_ℕ}
use native.Mathlib.Decide.{ℕ_discrete, dec_lt}
use protocoale.Bits.{zero-bit_and}
use protocoale.Router.Route.{
  RouteEntry, Table, masked, Lookup, route, no_route, fault, last_of_run, from_index, binary_search,
  run_end, get_best_route,
}
use protocoale.Router.Route.Search.{cells_to, Matches, Answers, Guides, binary_search_complete}
use protocoale.Router.Route.Best.{run_end-EndsRun, search, search-Answers, run_end_total}

-- Every route has the mask `mask`, and the prefixes ascend.
pub record IsUniform (t : Table) (mask : ℕ) : Type 0 where
  pub one_mask : (i : ℕ) → i < t.size → (t.cells i).mask ≡ mask
  pub ascending : (i j : ℕ) → i ≤ j → j < t.size → (t.cells i).prefix ≤ (t.cells j).prefix

-- The cells of the allocation that no route was written to hold zeros.
pub record IsZeroBehind (t : Table) : Type 0 where
  pub prefixes : (i : ℕ) → t.size ≤ i → i < t.capacity → (t.cells i).prefix ≡ 0
  pub masks : (i : ℕ) → t.size ≤ i → i < t.capacity → (t.cells i).mask ≡ 0

-- The route found covers the destination. A miss means that no route does, and that some prefix
-- compares above the destination; a read behind the allocation, that all of them compare below.
abbrev pub Decides : Table → (mask dest : ℕ) → Lookup → Type 0
Decides t mask dest (route j) = (j < t.size) × Matches t dest j
Decides t mask dest no_route =
    ((i : ℕ) → i < t.size → ¬ Matches t dest i)
    × (i : ℕ) × (i < t.size)
    × (bit_and mask dest < (t.cells i).prefix)
Decides t mask dest fault = (i : ℕ) → i < t.size → (t.cells i).prefix < bit_and mask dest

-- A run of zero prefixes goes to the end of the allocation.
run_of_zeros :
    (t : Table) (prefix left i : ℕ)
    → IsZeroBehind t
    → prefix ≡ 0
    → i + left ≡ t.capacity
    → t.size ≤ i
    → run_end t prefix left i ≡ none
unfolding run_end
run_of_zeros t prefix zero i z e c p = refl
run_of_zeros t prefix (suc left) i z e c p =
    let here = z.prefixes i p (omega arith) in
    ground (arith, here, run_of_zeros t prefix left (i + 1) z)

module _ (t : Table) (mask dest : ℕ) (fits : t.size < t.capacity) (u : IsUniform t mask)
    (z : IsZeroBehind t) (some_key : 0 < bit_and mask dest) where
  masked_here : (i : ℕ) → i < t.size → masked (t.cells i) dest ≡ bit_and mask dest
  unfolding masked
  masked_here i h = ap (λ (n : ℕ). bit_and n dest) (u.one_mask i h)

  cell_behind-Matches : Matches t dest t.size
  unfolding masked
  cell_behind-Matches =
      let p = z.prefixes t.size (omega arith) fits in
      let m = z.masks t.size (omega arith) fits in
      p ∙ sym (ap (λ (n : ℕ). bit_and n dest) m ∙ zero-bit_and dest)

  uniform-Guides : (i : ℕ) → i < t.size → Guides t dest t.size i
  uniform-Guides i h = record {
    below = λ mid p low q m. elim (ℕ_discrete mid t.size) [
      | yes e ↦ absurd (
          omega (
            arith,
            subst (λ k. (t.cells k).prefix < masked (t.cells k) dest) e low,
            cell_behind-Matches,
          ))
      | no ne ↦ absurd (
          omega (
            arith,
            masked_here mid (omega arith),
            masked_here i h,
            u.ascending i mid q (omega arith),
          ))
    ];
    above = λ mid p high q m.
        absurd
          (omega (arith, masked_here mid (omega arith), masked_here i h, u.ascending mid i q h));
  }

  -- The search ends at the cell behind the routes if all of them compare below.
  goes_behind :
      ((i : ℕ) → i < t.size → (t.cells i).prefix < bit_and mask dest)
      → (fuel left : ℕ) → t.size < left + fuel
      → left ≤ t.size
      → binary_search t dest fuel left (pos t.size) ≡ some (pos t.size)
  unfolding binary_search
  goes_behind low zero left f p = absurd (omega arith)
  goes_behind low (suc fuel) left f p =
      let mid = left + (t.size - left) / 2 in
      elim (ℕ_discrete mid t.size) [
        | yes e ↦ ground (arith, subst (Matches t dest) (sym e) cell_behind-Matches)
        | no ne ↦
            let below = low mid (omega arith) in
            let masked_mid = masked_here mid (omega arith) in
            let rest = goes_behind low fuel (mid + 1) in ground arith
      ]

  -- It does not if the last of them does not.
  stays_before :
      (last : ℕ)
      → suc last ≡ t.size
      → bit_and mask dest ≤ (t.cells last).prefix
      → (fuel left : ℕ) (right : ℤ) → cells_to right ≤ suc t.size
      → left < t.size
      → binary_search t dest fuel left right ≢ some (pos t.size)
  unfolding binary_search
  stays_before last l high zero left right c p e = absurd (cc)
  stays_before last l high (suc fuel) left (negsuc n) c p e = absurd (cc)
  stays_before last l high (suc fuel) left (pos right) c p e =
      let mid = left + (right - left) / 2 in
      ground (
        arith,
        masked_here mid,
        u.ascending last mid,
        stays_before last l high fuel left (sub_ℕ mid 1),
        stays_before last l high fuel (mid + 1) (pos right),
      )

  -- From a matching route on the run of its prefix ends within the table.
  route-Decides :
      (index : ℕ)
      → index < t.size
      → Matches t dest index
      → Decides t mask dest (from_index t (some (pos index)))
  unfolding from_index last_of_run
  route-Decides index here hit =
      let none = z.prefixes t.size (omega arith) fits in
      let other : (t.cells t.size).prefix ≢ (t.cells index).prefix =
        λ same. omega (arith, none, some_key, same, hit, masked_here index here) in
      let left = t.capacity - (index + 1) in
      let (end, found, after, before) =
        run_end_total t (t.cells index).prefix left (index + 1) t.size (omega arith) (omega arith)
          other in
      let returned : from_index t (some (pos index)) ≡ route (end - 1) = ap last_of_run found in
      let run = run_end-EndsRun t (t.cells index).prefix left (index + 1) end (omega arith) found in
      let same : (t.cells (end - 1)).prefix ≡ (t.cells index).prefix =
        (elim (ℕ_discrete index (end - 1)) [
          | yes e ↦ ap (λ k. (t.cells k).prefix) (sym e)
          | no ne ↦ run.same (end - 1) (omega arith) (omega arith)
        ]) in
      let in_table : end - 1 < t.size = omega arith in
      subst (Decides t mask dest) (sym returned)
        (in_table, omega (arith, same, hit, masked_here index here, masked_here (end - 1) in_table))

  behind_faults : from_index t (some (pos t.size)) ≡ fault
  unfolding from_index last_of_run
  behind_faults = ap last_of_run (
      run_of_zeros t (t.cells t.size).prefix (t.capacity - (t.size + 1)) (t.size + 1) z
        (z.prefixes t.size (omega arith) fits) (omega arith) (omega arith))

  -- The last route does not compare below, or all routes do.
  which_side :
      ((last : ℕ) × (suc last ≡ t.size) × (bit_and mask dest ≤ (t.cells last).prefix))
      ⊎ ((i : ℕ) → i < t.size → (t.cells i).prefix < bit_and mask dest)
  which_side = side t.size refl
    where
      side :
          (n : ℕ)
          → n ≡ t.size
          → ((last : ℕ) × (suc last ≡ t.size) × (bit_and mask dest ≤ (t.cells last).prefix))
            ⊎ ((i : ℕ) → i < t.size → (t.cells i).prefix < bit_and mask dest)
      side zero e = inr (λ i h. absurd (omega arith))
      side (suc last) e = elim (dec_lt (t.cells last).prefix (bit_and mask dest)) [
        | yes low ↦ inr (λ i h. omega (arith, u.ascending i last (omega arith) (omega arith)))
        | no high ↦ inl (last, e, omega arith)
      ]

  high_side-Decides :
      (last : ℕ)
      → suc last ≡ t.size
      → bit_and mask dest ≤ (t.cells last).prefix
      → (r : Option ℤ) → Answers t dest 0 (suc t.size) r
      → r ≡ search t dest fits
      → Decides t mask dest (from_index t r)
  unfolding from_index search
  high_side-Decides last l high none a e = absurd a
  high_side-Decides last l high (some (negsuc n)) a e =
      let missed : binary_search t dest (t.size + 2) 0 (pos t.size) ≡ some (negsuc 0) =
        sym e ∙ ap (λ k. some (negsuc k)) a in
      let uncovered : (i : ℕ) → i < t.size → ¬ Matches t dest i = λ i h.
        binary_search_complete t dest t.size i (uniform-Guides i h) (t.size + 2) 0 (pos t.size)
          (omega arith) missed (omega arith) (omega arith) in
      let at_last : last < t.size = omega arith in
      let differs : (t.cells last).prefix ≢ bit_and mask dest =
        λ same. uncovered last at_last (same ∙ sym (masked_here last at_last)) in
      (uncovered, last, at_last, omega arith)
  high_side-Decides last l high (some (pos index)) a e = elim (ℕ_discrete index t.size) [
    | yes behind ↦ absurd (
        stays_before last l high (t.size + 2) 0 (pos t.size) (omega arith) (omega arith)
          (sym e ∙ ap (λ k. some (pos k)) behind))
    | no ne ↦ route-Decides index (omega (arith, a.1)) a.2
  ]

  -- If the table has a route to the destination, a route to it is returned. If not, the answer is that
  -- there is none where some prefix compares above the destination; where all compare below, the
  -- search takes the zeros behind the table for a route and reads to the end of the allocation and on.
  pub get_best_route-Decides : Decides t mask dest (get_best_route t dest)
  unfolding get_best_route search
  get_best_route-Decides = elim which_side [
    | inl (last, l, high) ↦
        high_side-Decides last l high (search t dest fits) (search-Answers t dest fits) refl
    | inr low ↦
        let found = goes_behind low (t.size + 2) 0 (omega arith) (omega arith) in
        subst (Decides t mask dest) (sym (ap (from_index t) found ∙ behind_faults)) low
  ]

  -- While the last prefix does not compare below the destination, there is no such read.
  pub get_best_route-ne-fault :
      (i : ℕ) → i < t.size → bit_and mask dest ≤ (t.cells i).prefix → get_best_route t dest ≢ fault
  get_best_route-ne-fault i h above e =
      let all_below = subst (Decides t mask dest) e get_best_route-Decides in
      omega (arith, all_below i h)

-- Of two routes the first covers the destination, and the second is a narrower one that compares
-- below it: the search goes past the first and reports that there is no route.
get_best_route_overlap :
    (cells : ℕ → RouteEntry) (capacity dest : ℕ)
    → 2 < capacity
    → (cells 1).prefix < masked (cells 1) dest
    → (cells 2).prefix ≢ masked (cells 2) dest
    → Matches (record { cells = cells; capacity = capacity; size = 2 }) dest 0
    → get_best_route (record { cells = cells; capacity = capacity; size = 2 }) dest ≡ no_route
unfolding get_best_route
get_best_route_overlap cells capacity dest c over behind first = ground arith
