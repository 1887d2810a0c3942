-- ===== src/Link/Queue/Refined.antt =====
-- Any sequence of calls on the queue, against a list.
use protocoale.Base.{ℕ, ◌≡◌, refl, ap, Option, none, some, List, [], ◌∷◌, ◌++◌}
use protocoale.Link.Queue.{QueueEntry, State, create_queue, enqueue, dequeue}
use protocoale.Link.Queue.Fifo.{Holds, enqueue-Holds, dequeue-Dequeues, create_queue-Holds}

pub data Call : Type 0 where
  enqueues : ℕ → Call
  dequeues : Call

abbrev answered : Option ℕ → Option (List (Option ℕ)) → Option (List (Option ℕ))
answered r none = none
answered r (some rs) = some (r ∷ rs)

-- What the calls of `dequeue` return, one after the other.
unfoldable pub run : List Call → State → Option (List (Option ℕ))
run [] s = some []
run (enqueues m ∷ calls) s = elim (enqueue s m) [ none ↦ none | some s' ↦ run calls s' ]
run (dequeues ∷ calls) s = elim (dequeue s) [
  | none ↦ none
  | some t ↦ answered t.result (run calls t.state)
]

-- The same on a list, the oldest element first.
abbrev pub answers : List Call → List ℕ → List (Option ℕ)
answers [] xs = []
answers (enqueues m ∷ calls) xs = answers calls (xs ++ m ∷ [])
answers (dequeues ∷ calls) [] = none ∷ answers calls []
answers (dequeues ∷ calls) (x ∷ xs) = some x ∷ answers calls xs

run-answers :
    (calls : List Call) (s : State) (xs : List ℕ)
    → Holds s xs
    → run calls s ≡ some (answers calls xs)
unfolding run
run-answers [] s xs h = refl
run-answers (enqueues m ∷ calls) s xs h =
    let (s', e, held) = enqueue-Holds s xs m h in
    rw (e, run) (run-answers calls s' (xs ++ m ∷ []) held)
run-answers (dequeues ∷ calls) s [] h =
    rw (dequeue-Dequeues s [] h, run) (ap (answered none) (run-answers calls s [] h))
run-answers (dequeues ∷ calls) s (x ∷ xs) h =
    let (s', e, held) = dequeue-Dequeues s (x ∷ xs) h in
    rw (e, run) (ap (answered (some x)) (run-answers calls s' xs held))

-- Any sequence of calls on a new queue fails no `assert`, accesses nothing outside an allocation, and
-- is answered as by a list, first in, first out.
pub create_queue-answers :
    (cells : ℕ → Option QueueEntry) (next : ℕ) (calls : List Call)
    → run calls (create_queue cells next) ≡ some (answers calls [])
create_queue-answers cells next calls =
    run-answers calls (create_queue cells next) [] (create_queue-Holds cells next)
