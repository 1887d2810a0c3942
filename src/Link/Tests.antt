-- ===== src/Link/Tests.antt =====
-- The theorems on 3lab at concrete runs.
use protocoale.Base.{
  false, ap, ◌∙◌, List, Bool, ◌+◌, ◌==◌, ◌&&◌, ℕ, ◌≡◌, ◌≤◌, ◌<◌, refl, arith, inl, true, none, some,
  [], ◌∷◌, ◌++◌, length,
}
use protocoale.Bytes.{Memory, read_bytes}
use protocoale.Link.Params.Named.{lower_case, equal_folded, Without}
use protocoale.Link.Queue.{create_queue}
use protocoale.Link.Queue.Refined.{enqueues, dequeues, run, create_queue-answers}
use protocoale.Link.Reverse.{
  arrives, fails, exited, receive_up, receive_down, receive_message, run_reverse_forwarding,
}
use protocoale.Link.Threads.{
  Msg, State, looked, aborted, buffer_size, Reach, here, later, now, send, look, take, sleep,
  receive, keep, enqueue,
}
use protocoale.Link.Threads.Order.{flying, delivered, Reach-conserved, Reach-bounded}
use protocoale.Link.Threads.Timing.{due_times, Spaced, InTime, Reach-InTime}
use protocoale.Link.Threads.Race.{assert_fails}

create_queue-answers_example :
    run
      (enqueues 1 ∷ dequeues ∷ enqueues 2 ∷ enqueues 3 ∷ dequeues ∷ [])
      (create_queue (λ i. none) 1)
    ≡ some (some 1 ∷ some 2 ∷ [])
create_queue-answers_example =
    create_queue-answers (λ i. none) 1
      (enqueues 1 ∷ dequeues ∷ enqueues 2 ∷ enqueues 3 ∷ dequeues ∷ [])

abbrev packet : Msg
packet = record { len = 4; payload = λ i. i }

-- A packet has been accepted, taken, and sent after it was due.
one_sent :
    (s : State) × Reach 2 3 0 0 s
    × (s.sent ≡ (record { m = packet; finish_time = 6 }, 7) ∷ [])
    × (s.accepted ≡ packet ∷ [])
one_sent = (
  _,
  later
      (later
        (later
          (later
            (later
              (later
                (later (later (later here (receive packet refl)) (keep 99 0 refl refl refl))
                  (enqueue refl))
                (now 1 refl (omega arith)))
              (look refl tt))
            (take refl (omega arith) refl))
          (sleep refl (inl (omega arith))))
        (now 7 refl (omega arith)))
      (send refl refl (omega arith)),
  refl,
  refl,
)

Reach-conserved_example :
    delivered one_sent.0.sent ++ (flying one_sent.0.in_flight ++ one_sent.0.buffer)
    ≡ one_sent.0.accepted
Reach-conserved_example = Reach-conserved 2 3 0 0 one_sent.0 one_sent.1

Reach-bounded_example :
    (length one_sent.0.buffer ≤ buffer_size)
    × ((t : ℕ) → one_sent.0.scheduler ≡ looked t true → 0 < length one_sent.0.buffer)
Reach-bounded_example = Reach-bounded 2 3 0 0 one_sent.0 one_sent.1

Reach-InTime_example : InTime one_sent.0.sent × Spaced 2 (due_times one_sent.0)
Reach-InTime_example = Reach-InTime 2 3 0 0 one_sent.0 one_sent.1

assert_fails_example :
    (s : State) × Reach 1000 1000 0 0 s × (s.scheduler ≡ aborted) × (s.accepted ≡ packet ∷ [])
assert_fails_example = assert_fails 1000 1000 0 packet (omega arith)

-- A `strcasecmp` that goes through both texts.
same_from : Memory → (at : ℕ) → List ℕ → Bool
same_from c at [] = c at == 0
same_from c at (d ∷ ds) = lower_case (c at) == lower_case d && same_from c (at + 1) ds

same_from-equal_folded :
    (c : Memory) (at : ℕ) (text name : List ℕ)
    → read_bytes c at (length text) ≡ text
    → c (at + length text) ≡ 0
    → Without 0 text
    → Without 0 name
    → same_from c at name ≡ equal_folded text name
unfolding same_from read_bytes
same_from-equal_folded c at [] [] r e w v =
    let zero_there : c at ≡ 0 = ap c (omega arith) ∙ e in ground arith
same_from-equal_folded c at [] (d ∷ ds) r e w v =
    let zero_there : c at ≡ 0 = ap c (omega arith) ∙ e in ground arith
same_from-equal_folded c at (x ∷ xs) [] r e w v = let there : c at ≡ x = cc in ground arith
same_from-equal_folded c at (x ∷ xs) (d ∷ ds) r e w v =
    let there : c at ≡ x = cc in
    let stop : c (at + 1 + length xs) ≡ 0 = ap c (omega arith) ∙ e in
    let rest = same_from-equal_folded c (at + 1) xs ds (cc) stop w.1 v.1 in rw (there, rest) refl

-- The first of two messages is thrown away, and a failed call ends the process.
reverse_run :
    run_reverse_forwarding 7 4
      (record { link_up = false; remote_addr = 0 })
      (arrives 5 packet ∷ arrives 5 packet ∷ fails ∷ [])
    ≡ record { sent = (7, packet) ∷ []; ending = exited }
unfolding run_reverse_forwarding receive_message receive_up receive_down
reverse_run = refl
