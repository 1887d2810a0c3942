-- ===== src/Http/Buffer/Find.antt =====
-- The searches return the first occurrence.
use protocoale.Base.{
  ℕ, Bool, zero, suc, ◌+◌, ◌-◌, ◌≤◌, ◌<◌, ◌^◌, ◌≡◌, ◌≢◌, Option, none, some, List, [], ◌∷◌, ltb→lt,
  length, get_elem?, true, false, refl, arith, ltb, Bool-cases, inl, inr, subst, sym, if◌then◌else◌,
}
use native.Mathlib.Decide.{ℕ_discrete}
use protocoale.Base.Int.{ℤ, pos, negsuc, to_int, narrowed-IsInt}
use protocoale.Http.Buffer.{
  Buffer, same_from, find_from, find_with, as_int, buffer_find, buffer_find_insensitive,
}
use protocoale.Http.Buffer.Grow.{contents, Holds}

module _ (key : ℕ → ℕ) where
  -- Every character of `xs` stands at its place from `at` on, up to `key`.
  abbrev pub OccursAt : List ℕ → (at : ℕ) → List ℕ → Type 0
  OccursAt block at [] = Unit {0}
  OccursAt block at (x ∷ xs) =
      ((c : ℕ) × (get_elem? block at ≡ some c) × (key c ≡ key x)) × OccursAt block (at + 1) xs

  -- The answer of a search from `from` on: the first occurrence, or that there is none.
  abbrev pub IsFirst : List ℕ → List ℕ → (from last : ℕ) → Option ℤ → Type 0
  IsFirst block xs from last none = ⊥
  IsFirst block xs from last (some (pos i)) =
      OccursAt block i xs × (i < last) × ((k : ℕ) → from ≤ k → k < i → ¬ OccursAt block k xs)
  IsFirst block xs from last (some (negsuc n)) =
      (n ≡ 0) × ((k : ℕ) → from ≤ k → k < last → ¬ OccursAt block k xs)

  in_range : (block : List ℕ) (i : ℕ) → i < length block → (c : ℕ) × (get_elem? block i ≡ some c)
  in_range [] i h = absurd (omega arith)
  in_range (x ∷ block) zero h = (x, refl)
  in_range (x ∷ block) (suc i) h = in_range block i (omega arith)

  -- What the inner loop decides.
  abbrev Tells : List ℕ → ℕ → List ℕ → Option Bool → Type 0
  Tells block at xs none = ⊥
  Tells block at xs (some true) = OccursAt block at xs
  Tells block at xs (some false) = ¬ OccursAt block at xs

  same_from-Tells :
      (block : List ℕ) (at : ℕ) (xs : List ℕ)
      → at + length xs ≤ length block
      → Tells block at xs (same_from key block at xs)
  unfolding same_from
  same_from-Tells block at [] h = tt
  same_from-Tells block at (x ∷ xs) h =
      let (c, found) = in_range block at (omega arith) in
      ground (arith, same_from-Tells block (at + 1) xs)

  IsFirst-or :
      (block xs : List ℕ) (i last : ℕ) (r : Option Bool) (rest : Option ℤ)
      → Tells block i xs r
      → i < last
      → IsFirst block xs (i + 1) last rest
      → IsFirst block xs i last
          (elim r [ none ↦ none | some true ↦ some (pos i) | some false ↦ rest ])
  IsFirst-or block xs i last none rest t lt h = absurd t
  IsFirst-or block xs i last (some true) rest t lt h = (t, lt, λ k p q. absurd (omega arith))
  IsFirst-or block xs i last (some false) none t lt h = absurd h
  IsFirst-or block xs i last (some false) (some (pos j)) t lt h = (
    h.0,
    h.1,
    λ k p q. elim (ℕ_discrete i k) [
      | yes e ↦ subst (λ n. ¬ OccursAt block n xs) e t
      | no ne ↦ h.2 k (omega arith) q
    ],
  )
  IsFirst-or block xs i last (some false) (some (negsuc n)) t lt h = (
    h.0,
    λ k p q. elim (ℕ_discrete i k) [
      | yes e ↦ subst (λ n. ¬ OccursAt block n xs) e t
      | no ne ↦ h.1 k (omega arith) q
    ],
  )

  find_from-IsFirst :
      (block xs : List ℕ) (left i last : ℕ)
      → i + left ≡ last
      → last + length xs ≤ suc (length block)
      → IsFirst block xs i last (find_from key block xs left i)
  unfolding find_from
  find_from-IsFirst block xs zero i last e h = (refl, λ k p q. absurd (omega arith))
  find_from-IsFirst block xs (suc left) i last e h =
      IsFirst-or block xs i last (same_from key block i xs) (find_from key block xs left (i + 1))
        (same_from-Tells block i xs (omega arith)) (omega arith)
        (find_from-IsFirst block xs left (i + 1) last (omega arith) h)

  -- What is said of a search in a buffer that holds `block`: the first occurrence, or -1 if there is
  -- none at all.
  abbrev pub FindsFirst : List ℕ → List ℕ → Option ℤ → Type 0
  FindsFirst block xs none = ⊥
  FindsFirst block xs (some (pos i)) =
      OccursAt block i xs
      × (i + length xs ≤ length block)
      × ((k : ℕ) → k < i → ¬ OccursAt block k xs)
  FindsFirst block xs (some (negsuc n)) =
      (n ≡ 0) × ((k : ℕ) → k + length xs ≤ length block → ¬ OccursAt block k xs)

  FindsFirst-of :
      (block xs : List ℕ) (last : ℕ) (r : Option ℤ)
      → last + length xs ≡ suc (length block)
      → IsFirst block xs 0 last r
      → FindsFirst block xs r
  FindsFirst-of block xs last none e h = absurd h
  FindsFirst-of block xs last (some (pos i)) e h =
      (h.0, omega (arith, h.1), λ k q. h.2 k (omega arith) q)
  FindsFirst-of block xs last (some (negsuc n)) e h =
      (h.0, λ k p. h.1 k (omega arith) (omega arith))

  found_in_block :
      (block xs : List ℕ)
      → FindsFirst block xs (
          if ltb (length block) (length xs)
          then some (negsuc 0)
          else find_from key block xs (length block - length xs + 1) 0)
  found_in_block block xs = elim (Bool-cases (ltb (length block) (length xs))) [
    | inl longer ↦
        rw longer (refl, λ k p. absurd (omega (arith, ltb→lt (length block) (length xs) longer)))
    | inr fits ↦
        let room : length xs ≤ length block = ground arith in
        let last = length block - length xs + 1 in
        rw fits (
          FindsFirst-of block xs last (find_from key block xs last 0) (omega arith)
            (find_from-IsFirst block xs last 0 last (omega arith) (omega arith)))
  ]

  found_in :
      (bytes : Option (List ℕ)) (block xs : List ℕ)
      → contents (record { bytes = bytes; size = length block }) ≡ block
      → FindsFirst block xs (find_with key (record { bytes = bytes; size = length block }) xs)
  unfolding find_with
  found_in none block xs e =
      subst (λ l. FindsFirst l xs (find_with key (record { bytes = none; size = length l }) xs)) e
        (found_in_block [] xs)
  found_in (some held) block xs e =
      subst
        (λ l. FindsFirst l xs (find_with key (record { bytes = some held; size = length l }) xs)) e
        (found_in_block held xs)

  find_with-FindsFirst :
      (b : Buffer) (block xs : List ℕ) → Holds b block → FindsFirst block xs (find_with key b xs)
  find_with-FindsFirst b block xs h =
      subst (λ n. FindsFirst block xs (find_with key (record { bytes = b.bytes; size = n }) xs))
        (sym h.sized) (found_in b.bytes block xs h.held)

module _ (key : ℕ → ℕ) (b : Buffer) (block xs : List ℕ) (h : Holds b block) where
  -- In a block of less than 2^31 bytes the position is an `int`.
  as_int-FindsFirst :
      length block < 2 ^ 31
      → (r : Option ℤ) → FindsFirst key block xs r
      → FindsFirst key block xs (as_int r)
  as_int-FindsFirst small none f = f
  as_int-FindsFirst small (some (pos i)) f =
      let same : to_int i ≡ pos i = narrowed-IsInt (pos i) (omega (arith, f.1)) in
      subst (λ r. FindsFirst key block xs (some r)) (sym same) f
  as_int-FindsFirst small (some (negsuc n)) f = f

  as_int_with-FindsFirst :
      length block < 2 ^ 31 → FindsFirst key block xs (as_int (find_with key b xs))
  as_int_with-FindsFirst small =
      as_int-FindsFirst small (find_with key b xs) (find_with-FindsFirst key b block xs h)

  -- Whatever the length, there is a result.
  as_int_with-ne-none : as_int (find_with key b xs) ≢ none
  as_int_with-ne-none = some_result (find_with key b xs) (find_with-FindsFirst key b block xs h)
    where
      some_result : (r : Option ℤ) → FindsFirst key block xs r → as_int r ≢ none
      some_result none f e = f
      some_result (some (pos i)) f e = cc
      some_result (some (negsuc n)) f e = cc

-- In a block of less than 2^31 bytes `buffer_find` reads nothing outside it and returns the position of
-- the first occurrence, or -1 if there is none.
pub buffer_find-FindsFirst :
    (b : Buffer) (block xs : List ℕ)
    → Holds b block
    → length block < 2 ^ 31
    → FindsFirst (λ c. c) block xs (buffer_find b xs)
unfolding buffer_find
buffer_find-FindsFirst b block xs h small = as_int_with-FindsFirst (λ c. c) b block xs h small

-- `buffer_find` reads nothing outside a block of any length.
pub buffer_find-ne-none : (b : Buffer) (block xs : List ℕ) → Holds b block → buffer_find b xs ≢ none
unfolding buffer_find
buffer_find-ne-none b block xs h = as_int_with-ne-none (λ c. c) b block xs h

-- `buffer_find_insensitive` does neither.
pub buffer_find_insensitive-ne-none :
    (tolower : ℕ → ℕ) (b : Buffer) (block xs : List ℕ)
    → Holds b block
    → buffer_find_insensitive tolower b xs ≢ none
unfolding buffer_find_insensitive
buffer_find_insensitive-ne-none tolower b block xs h = as_int_with-ne-none tolower b block xs h
