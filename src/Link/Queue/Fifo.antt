-- ===== src/Link/Queue/Fifo.antt =====
-- The queue holds a list, first in, first out.
use protocoale.Base.{
  ℕ, suc, ◌+◌, ◌-◌, ◌≤◌, ◌<◌, ◌≡◌, refl, sym, ap, ◌∙◌, subst, arith, true, false, Option, none,
  some, List, [], ◌∷◌, ◌++◌, length, length-append, ◌==◌, ◌⊎◌, inl, inr,
}
use protocoale.Link.Queue.{
  QueueEntry, State, store, create_queue, new_entry, enqueue_at, enqueue, taken, dequeue_at,
  dequeue,
}

-- The entries from the oldest, `p`, to the newest, `f`, hold these pointers, each at an address
-- above the one before it.
abbrev pub Chain : (ℕ → Option QueueEntry) → (next p f : ℕ) → List ℕ → Type 0
Chain cells next p f [] = ⊥
Chain cells next p f (x ∷ []) =
    (cells p ≡ some (record { crt = x; prev = none })) × (p ≡ f) × (p < next)
Chain cells next p f (x ∷ y ∷ xs) =
    (p' : ℕ) × (cells p ≡ some (record { crt = x; prev = some p' }))
    × (p < p')
    × Chain cells next p' f (y ∷ xs)

-- The queue is valid and holds this list, the oldest entry first.
abbrev pub Holds : State → List ℕ → Type 0
Holds s [] = (s.first ≡ none) × (s.last ≡ none) × (s.size ≡ 0)
Holds s (x ∷ xs) =
    (p : ℕ) × (f : ℕ) × (s.last ≡ some p)
    × (s.first ≡ some f)
    × (s.size ≡ suc (length xs))
    × Chain s.cells s.next p f (x ∷ xs)

Chain-bounds :
    (cells : ℕ → Option QueueEntry) (next p f x : ℕ) (xs : List ℕ)
    → Chain cells next p f (x ∷ xs)
    → (p ≤ f) × (f < next)
Chain-bounds cells next p f x [] c = (omega (arith, c.1), omega (arith, c.1, c.2))
Chain-bounds cells next p f x (y ∷ xs) c =
    let (low, high) = Chain-bounds cells next c.0 f y xs c.3 in (omega (arith, c.2), high)

-- What is below the chain does not matter.
Chain-agree :
    (cells cells' : ℕ → Option QueueEntry) (next p f x : ℕ) (xs : List ℕ)
    → ((i : ℕ) → p ≤ i → cells' i ≡ cells i)
    → Chain cells next p f (x ∷ xs)
    → Chain cells' next p f (x ∷ xs)
Chain-agree cells cells' next p f x [] e c = (e p (omega arith) ∙ c.0, c.1, c.2)
Chain-agree cells cells' next p f x (y ∷ xs) e c = (
  c.0,
  e p (omega arith) ∙ c.1,
  c.2,
  Chain-agree cells cells' next c.0 f y xs (λ i h. e i (omega (arith, c.2))) c.3,
)

store_same :
    (cells : ℕ → Option QueueEntry) (at : ℕ) (e : Option QueueEntry) → store cells at e at ≡ e
store_same cells at e = let same : (at == at) ≡ true = ground arith in rw same refl

store_other :
    (cells : ℕ → Option QueueEntry) (at i : ℕ) (e : Option QueueEntry)
    → i < at ⊎ at < i
    → store cells at e i ≡ cells i
store_other cells at i e h = let other : (i == at) ≡ false = ground arith in rw other refl

abbrev entry : ℕ → Option ℕ → QueueEntry
entry m prev = record { crt = m; prev = prev }

-- The heap after `enqueue` behind the entry `e` at `f`.
abbrev linked :
    (ℕ → Option QueueEntry) → (next f : ℕ) → QueueEntry → (m : ℕ) → ℕ → Option QueueEntry
linked cells next f e m =
    store (store cells f (some (record e { prev = some next }))) next (some (entry m none))

linked_below :
    (cells : ℕ → Option QueueEntry) (next f : ℕ) (e : QueueEntry) (m i : ℕ)
    → i < f
    → f < next
    → linked cells next f e m i ≡ cells i
linked_below cells next f e m i h k =
    store_other (store cells f (some (record e { prev = some next }))) next i (some (entry m none))
      (inl (omega arith))
    ∙ store_other cells f i (some (record e { prev = some next })) (inl h)

linked_at :
    (cells : ℕ → Option QueueEntry) (next f : ℕ) (e : QueueEntry) (m : ℕ)
    → f < next
    → linked cells next f e m f ≡ some (record e { prev = some next })
linked_at cells next f e m k =
    store_other (store cells f (some (record e { prev = some next }))) next f (some (entry m none))
      (inl k)
    ∙ store_same cells f (some (record e { prev = some next }))

Chain-linked :
    (cells : ℕ → Option QueueEntry) (next p f x : ℕ) (xs : List ℕ) (m : ℕ)
    → Chain cells next p f (x ∷ xs)
    → (e : QueueEntry) × (cells f ≡ some e)
      × Chain (linked cells next f e m) (next + 1) p next (x ∷ xs ++ m ∷ [])
Chain-linked cells next p f x [] m c =
    let e = entry x none in
    let at_p : linked cells next f e m p ≡ some (entry x (some next)) =
      subst (λ i. linked cells next f e m i ≡ some (entry x (some next))) (sym c.1)
        (linked_at cells next f e m (omega (arith, c.1, c.2))) in
    let newest =
      store_same (store cells f (some (entry x (some next)))) next (some (entry m none)) in
    (e, subst (λ i. cells i ≡ some e) c.1 c.0, (next, at_p, c.2, (newest, refl, omega arith)))
Chain-linked cells next p f x (y ∷ xs) m c =
    let (e, at, chain) = Chain-linked cells next c.0 f y xs m c.3 in
    let (low, high) = Chain-bounds cells next c.0 f y xs c.3 in
    (e, at, (c.0, linked_below cells next f e m p (omega (arith, c.2)) high ∙ c.1, c.2, chain))

-- `enqueue` on a valid queue fails no `assert`, accesses nothing outside an allocation, and puts `m`
-- at the end of the list.
pub enqueue-Holds :
    (s : State) (xs : List ℕ) (m : ℕ)
    → Holds s xs
    → (s' : State) × (enqueue s m ≡ some s') × Holds s' (xs ++ m ∷ [])
unfolding enqueue enqueue_at new_entry
enqueue-Holds s [] m (first, last, size) =
    let newest = store_same s.cells s.next (some (entry m none)) in
    (
      new_entry (record s { last = some s.next }) m,
      rw (first, last) refl,
      (
        s.next,
        s.next,
        refl,
        refl,
        ap (λ n. n + 1) size ∙ (omega arith),
        (newest, refl, omega arith),
      ),
    )
enqueue-Holds s (x ∷ xs) m (p, f, last, first, size, chain) =
    let (e, at, chain') = Chain-linked s.cells s.next p f x xs m chain in
    (
      new_entry (record s { cells = store s.cells f (some (record e { prev = some s.next })) }) m,
      rw (first, at) refl,
      (p, s.next, last, refl, omega (arith, size, length-append xs (m ∷ [])), chain'),
    )

Chain-freed :
    (cells : ℕ → Option QueueEntry) (next p t f x : ℕ) (xs : List ℕ)
    → t < p
    → Chain cells next p f (x ∷ xs)
    → Chain (store cells t none) next p f (x ∷ xs)
Chain-freed cells next p t f x xs h c =
    Chain-agree cells (store cells t none) next p f x xs
      (λ i k. store_other cells t i none (inr (omega arith))) c

-- `dequeue` as it should be on this list.
abbrev pub Dequeues : State → List ℕ → Type 0
Dequeues s [] = dequeue s ≡ some (record { result = none; state = s })
Dequeues s (x ∷ xs) =
    (s' : State) × (dequeue s ≡ some (record { result = some x; state = s' })) × Holds s' xs

-- `dequeue` on a valid queue fails no `assert` and accesses nothing outside an allocation; it
-- returns NULL and leaves the queue as it is if the list is empty, and else takes its first element.
pub dequeue-Dequeues : (s : State) (xs : List ℕ) → Holds s xs → Dequeues s xs
unfolding dequeue dequeue_at taken
dequeue-Dequeues s [] (first, last, size) = rw (first, size) refl
dequeue-Dequeues s (x ∷ []) (p, f, last, first, size, (at, end, low)) =
    let alone : (f == p) ≡ true = ground arith in
    (
      record s { size = s.size - 1; first = none; last = none; cells = store s.cells p none },
      rw (first, last, at, alone) refl,
      (refl, refl, omega (arith, size)),
    )
dequeue-Dequeues s (x ∷ y ∷ xs) (p, f, last, first, size, (p', at, up, chain)) =
    let (low, high) = Chain-bounds s.cells s.next p' f y xs chain in
    let more : (f == p) ≡ false = ground arith in
    (
      record s { size = s.size - 1; first = some f; last = some p'; cells = store s.cells p none },
      rw (first, last, at, more) refl,
      (p', f, refl, refl, omega (arith, size), Chain-freed s.cells s.next p' p f y xs up chain),
    )

pub create_queue-Holds :
    (cells : ℕ → Option QueueEntry) (next : ℕ) → Holds (create_queue cells next) []
unfolding create_queue
create_queue-Holds cells next = (refl, refl, refl)
