-- ===== src/Router/Route/Search.antt =====
-- `binarySearch`: it ends, reads no cell outside the allocation, and what it reports matches.
use protocoale.Base.{ℕ, zero, suc, ◌+◌, ◌-◌, ◌/◌, ◌≤◌, ◌<◌, ◌≡◌, Option, none, some, arith, refl}
use protocoale.Base.Int.{ℤ, pos, negsuc, sub_ℕ}
use protocoale.Router.Route.{Table, masked, binary_search}

-- The number of cells up to and including the right end.
abbrev pub cells_to : ℤ → ℕ
cells_to (pos right) = suc right
cells_to (negsuc n) = 0

-- The cell's prefix is the destination under the cell's mask.
abbrev pub Matches : Table → ℕ → ℕ → Type 0
Matches t dest i = (t.cells i).prefix ≡ masked (t.cells i) dest

module _ (t : Table) (dest : ℕ) where
  -- A reported index lies in the range and matches; a miss is -1; there is no fault.
  abbrev pub Answers : (left cells : ℕ) → Option ℤ → Type 0
  Answers left cells none = ⊥
  Answers left cells (some (negsuc n)) = n ≡ 0
  Answers left cells (some (pos i)) = (left ≤ i) × (i < cells) × Matches t dest i

  pub binary_search-Answers :
      (fuel left : ℕ) (right : ℤ)
      → 0 < fuel
      → cells_to right < left + fuel
      → cells_to right ≤ t.capacity
      → Answers left (cells_to right) (binary_search t dest fuel left right)
  unfolding binary_search
  binary_search-Answers zero left right p f c = absurd (omega arith)
  binary_search-Answers (suc fuel) left (negsuc n) p f c = refl
  binary_search-Answers (suc fuel) left (pos right) p f c = ground (
    arith,
    let mid = left + (right - left) / 2 in binary_search-Answers fuel left (sub_ℕ mid 1),
    let mid = left + (right - left) / 2 in binary_search-Answers fuel (mid + 1) (pos right),
  )

  -- What binary search takes for granted of the cells up to `last`: the cell `i` does not match if a
  -- cell from it on compares below the destination, or one up to it above.
  pub record Guides (last i : ℕ) : Type 0 where
    pub below :
        (mid : ℕ)
        → mid ≤ last
        → (t.cells mid).prefix < masked (t.cells mid) dest
        → i ≤ mid
        → ¬ Matches t dest i
    pub above :
        (mid : ℕ)
        → mid ≤ last
        → masked (t.cells mid) dest < (t.cells mid).prefix
        → mid ≤ i
        → ¬ Matches t dest i

  pub binary_search_complete :
      (last i : ℕ)
      → Guides last i
      → (fuel left : ℕ) (right : ℤ) → cells_to right ≤ suc last
      → binary_search t dest fuel left right ≡ some (negsuc 0)
      → left ≤ i
      → i < cells_to right
      → ¬ Matches t dest i
  unfolding binary_search
  binary_search_complete last i g zero left right c e p q = absurd (cc)
  binary_search_complete last i g (suc fuel) left (negsuc n) c e p q = absurd (omega arith)
  binary_search_complete last i g (suc fuel) left (pos right) c e p q =
      let mid = left + (right - left) / 2 in
      ground (
        arith,
        g.below mid,
        g.above mid,
        binary_search_complete last i g fuel left (sub_ℕ mid 1),
        binary_search_complete last i g fuel (mid + 1) (pos right),
      )
