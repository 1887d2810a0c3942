-- ===== src/Http/Buffer/Grow.antt =====
-- What a buffer holds, and that `buffer_add` appends to it.
use protocoale.Base.{
  ℕ, ◌+◌, ◌-◌, ◌≡◌, Option, none, some, List, [], ◌++◌, length, length-append, length-replicate,
  drop, replicate, take_all, take-append_self, drop_all, append-nil, refl, true, false, le→leb,
  subst, arith, sym, ap, ◌∙◌, leb,
}
use protocoale.Http.Buffer.{
  Buffer, buffer_init, buffer_is_empty, realloc, copy_into, grown, filled, buffer_add,
}

-- The bytes of the buffer.
abbrev pub contents : Buffer → List ℕ
contents b = elim b.bytes [ none ↦ [] | some block ↦ block ]

-- A valid buffer with these bytes.
pub record Holds (b : Buffer) (xs : List ℕ) : Type 0 where
  pub held : contents b ≡ xs
  pub sized : b.size ≡ length xs

copy_into_end :
    (block tail xs : List ℕ)
    → length tail ≡ length xs
    → copy_into (block ++ tail) (length block) xs ≡ some (block ++ xs)
unfolding copy_into
copy_into_end block tail xs e =
    let fits : leb (length block + length xs) (length (block ++ tail)) ≡ true =
      le→leb (length block + length xs) (length (block ++ tail))
        (omega (arith, length-append block tail)) in
    let none_left : drop (length block + length xs) (block ++ tail) ≡ [] =
      drop_all (length block + length xs) (block ++ tail)
        (omega (arith, length-append block tail)) in
    rw (fits, take-append_self block tail, none_left, append-nil) refl

realloc_longer :
    (block : List ℕ) (n : ℕ) → realloc block (length block + n) ≡ block ++ replicate n 0
unfolding realloc
realloc_longer block n =
    let e : length block + n - length block ≡ n = omega arith in
    rw (take_all (length block + n) block (omega arith), e) refl

abbrev Appends : Option (List ℕ) → (ys xs : List ℕ) → Type 0
Appends bytes ys xs =
    buffer_add (record { bytes = bytes; size = length xs }) ys
    ≡ some (record { bytes = some (xs ++ ys); size = length xs + length ys })

abbrev record_of : List ℕ → Buffer
record_of block = record { bytes = some block; size = length block }

added :
    (bytes : Option (List ℕ)) (xs ys : List ℕ)
    → contents (record { bytes = bytes; size = length xs }) ≡ xs
    → Appends bytes ys xs
unfolding buffer_add grown filled
added none xs ys e = subst (Appends none ys) e (
    ap (filled (record { bytes = none; size = 0 }) (length ys))
      (copy_into_end [] (replicate (length ys) 0) ys (length-replicate (length ys) 0)))
added (some block) xs ys e =
    let b = record_of block in
    subst (Appends (some block) ys) e (
      ap (λ l. filled b (length ys) (copy_into l (length block) ys))
        (realloc_longer block (length ys))
      ∙ ap (filled b (length ys))
          (copy_into_end block (replicate (length ys) 0) ys (length-replicate (length ys) 0)))

-- Adding to a buffer that holds `xs` never writes outside the block, and appends: the buffer then
-- holds `xs ++ ys`, and `buffer_is_empty` answers no.
pub buffer_add-Holds :
    (b : Buffer) (xs ys : List ℕ)
    → Holds b xs
    → (b' : Buffer) × (buffer_add b ys ≡ some b')
      × Holds b' (xs ++ ys)
      × (buffer_is_empty b' ≡ false)
unfolding buffer_is_empty
buffer_add-Holds b xs ys h = (
  record { bytes = some (xs ++ ys); size = length xs + length ys },
  subst
      (λ n.
        buffer_add (record { bytes = b.bytes; size = n }) ys
        ≡ some (record { bytes = some (xs ++ ys); size = length xs + length ys }))
      (sym h.sized) (added b.bytes xs ys h.held),
  record { held = refl; sized = sym (length-append xs ys) },
  refl,
)

pub buffer_init-Holds : Holds buffer_init []
unfolding buffer_init
buffer_init-Holds = record { held = refl; sized = refl }
