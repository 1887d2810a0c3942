-- ===== src/Http/Buffer.antt =====
-- lab10/buffer.c: a growing byte buffer, and the search for a string in it.
pub mod Grow
pub mod Find
use protocoale.Base.{
  ℕ, zero, suc, ◌+◌, ◌-◌, Bool, true, false, Option, none, some, List, [], ◌∷◌, ◌++◌, length,
  get_elem?, take, drop, replicate, ltb, leb, ◌==◌, if◌then◌else◌,
}
use protocoale.Base.Int.{ℤ, pos, negsuc, to_int}

-- `bytes` is the block that `data` points to, `none` where that is NULL.
pub record Buffer : Type 0 where
  pub bytes : Option (List ℕ)
  pub size : ℕ

unfoldable pub buffer_init : Buffer
buffer_init = record { bytes = none; size = 0 }

unfoldable pub buffer_destroy : Buffer → Buffer
buffer_destroy b = record { bytes = none; size = 0 }

unfoldable pub buffer_is_empty : Buffer → Bool
buffer_is_empty b = elim b.bytes [ none ↦ true | some block ↦ false ]

-- `realloc` keeps what fits; what it adds is unspecified, and zero here. No bytes, which no caller asks
-- for, are a block too.
unfoldable pub realloc : List ℕ → ℕ → List ℕ
realloc block n = take n block ++ replicate (n - length block) 0

-- `memcpy(block + at, xs, length xs)`; `none` is a write outside the block.
unfoldable pub copy_into : List ℕ → ℕ → List ℕ → Option (List ℕ)
copy_into block at xs =
    if leb (at + length xs) (length block)
    then some (take at block ++ xs ++ drop (at + length xs) block)
    else none

unfoldable pub grown : Buffer → ℕ → List ℕ
grown b n = elim b.bytes [ none ↦ replicate n 0 | some block ↦ realloc block (b.size + n) ]

unfoldable pub filled : Buffer → ℕ → Option (List ℕ) → Option Buffer
filled b n none = none
filled b n (some block) = some (record { bytes = some block; size = b.size + n })

-- `none` is a write outside the block. Allocation succeeds.
unfoldable pub buffer_add : Buffer → List ℕ → Option Buffer
buffer_add b xs = filled b (length xs) (copy_into (grown b (length xs)) b.size xs)

-- The loops, with `key` applied to both characters: nothing, or `tolower`.
module _ (key : ℕ → ℕ) where
  -- The inner loop: whether it reaches the end of `xs`. `none` is a read outside the block.
  unfoldable pub same_from : List ℕ → (at : ℕ) → List ℕ → Option Bool
  same_from block at [] = some true
  same_from block at (x ∷ xs) = elim (get_elem? block at) [
    | none ↦ none
    | some c ↦ elim (key c == key x) [ true ↦ same_from block (at + 1) xs | false ↦ some false ]
  ]

  -- The outer loop, with `left` rounds from `i` on.
  unfoldable pub find_from : List ℕ → List ℕ → (left i : ℕ) → Option ℤ
  find_from block xs zero i = some (negsuc 0)
  find_from block xs (suc left) i = elim (same_from block i xs) [
    | none ↦ none
    | some true ↦ some (pos i)
    | some false ↦ find_from block xs left (i + 1)
  ]

  unfoldable pub find_with : Buffer → List ℕ → Option ℤ
  find_with b xs = if ltb b.size (length xs) then some (negsuc 0) else elim b.bytes [
    | none ↦ find_from [] xs (b.size - length xs + 1) 0
    | some block ↦ find_from block xs (b.size - length xs + 1) 0
  ]

-- `return i;` of a `size_t` as an `int`; -1 is one.
abbrev pub as_int : Option ℤ → Option ℤ
as_int none = none
as_int (some (pos i)) = some (to_int i)
as_int (some (negsuc n)) = some (negsuc n)

-- `none` is a read outside the block.
unfoldable pub buffer_find : Buffer → List ℕ → Option ℤ
buffer_find b xs = as_int (find_with (λ c. c) b xs)

-- `tolower` is the C library's.
unfoldable pub buffer_find_insensitive : (tolower : ℕ → ℕ) → Buffer → List ℕ → Option ℤ
buffer_find_insensitive tolower b xs = as_int (find_with tolower b xs)
