-- ===== src/Link/Queue.antt =====
-- 3lab/link_emulator/queue.c: a linked queue on a heap. Entries point to the entry that came after
-- them, `last` is the oldest one and `first` the newest.
pub mod Fifo
pub mod Refined
use protocoale.Base.{ℕ, ◌+◌, ◌-◌, Bool, true, false, Option, none, some, ◌==◌, if◌then◌else◌}

-- `crt` points to what the entry holds.
pub record QueueEntry : Type 0 where
  pub crt : ℕ
  pub prev : Option ℕ

-- The queue, and the heap: `malloc` returns addresses in ascending order from `next` on, and
-- succeeds. `none` is an address that is not allocated.
pub record State : Type 0 where
  pub size : ℕ
  pub first : Option ℕ
  pub last : Option ℕ
  pub cells : ℕ → Option QueueEntry
  pub next : ℕ

abbrev pub store : (ℕ → Option QueueEntry) → ℕ → Option QueueEntry → ℕ → Option QueueEntry
store cells at e i = if i == at then e else cells i

unfoldable pub create_queue : (cells : ℕ → Option QueueEntry) → (next : ℕ) → State
create_queue cells next = record { size = 0; first = none; last = none; cells = cells; next = next }

abbrev pub is_null : Option ℕ → Bool
is_null none = true
is_null (some p) = false

-- `q->first` is the new entry: `prev = NULL; crt = m; size++`.
unfoldable pub new_entry : State → (m : ℕ) → State
new_entry s m = record s {
  size = s.size + 1;
  first = some s.next;
  cells = store s.cells s.next (some (record { crt = m; prev = none }));
  next = s.next + 1;
}

-- `none` is a failed `assert` or an access outside an allocation.
unfoldable pub enqueue_at : (first : Option ℕ) → State → (m : ℕ) → Option State
enqueue_at none s m =
    if is_null s.last then some (new_entry (record s { last = some s.next }) m) else none
enqueue_at (some f) s m = elim (s.cells f) [
  | none ↦ none
  | some e ↦
      some (
        new_entry (record s { cells = store s.cells f (some (record e { prev = some s.next })) }) m)
]

unfoldable pub enqueue : State → (m : ℕ) → Option State
enqueue s m = enqueue_at s.first s m

-- What `dequeue` returns, `none` for `NULL`, and the queue behind it.
pub record Taken : Type 0 where
  pub result : Option ℕ
  pub state : State

-- `m = t->crt; free(t); q->size--;` at the entry `e` at `t`.
unfoldable pub taken : State → (t : ℕ) → QueueEntry → (first last : Option ℕ) → Taken
taken s t e first last = record {
  result = some e.crt;
  state = record s { size = s.size - 1; first = first; last = last; cells = store s.cells t none };
}

unfoldable pub dequeue_at : (first last : Option ℕ) → State → Option Taken
dequeue_at none last s = if s.size == 0 then some (record { result = none; state = s }) else none
dequeue_at (some f) none s = none
dequeue_at (some f) (some l) s = elim (s.cells l) [
  | none ↦ none
  | some e ↦
      if f == l
      then (if is_null e.prev then some (taken s l e none none) else none)
      else some (taken s l e (some f) e.prev)
]

unfoldable pub dequeue : State → Option Taken
dequeue s = dequeue_at s.first s.last s
