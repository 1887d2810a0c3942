-- ===== src/Link/Threads/Race.antt =====
-- The look at `buffer` and the `assert` on it are apart: a packet may come between them.
use protocoale.Base.{ℕ, ◌<◌, ◌≡◌, inl, refl, arith, false, [], ◌∷◌, ltb, ◌%◌}
use protocoale.Link.Threads.{
  Msg, aborted, State, now, look, pass, not_empty, receive, keep, enqueue, Reach, here, later,
}

-- Whatever the delays, with a loss below 100 and no corruption: a run in which a single packet comes
-- after `link_scheduler` has seen an empty buffer ends in the failed `assert(!buffer->size)`.
pub assert_fails :
    (serialization_delay delay loss : ℕ) (m : Msg)
    → loss < 100
    → (s : State) × Reach serialization_delay delay loss 0 s
      × (s.scheduler ≡ aborted)
      × (s.accepted ≡ m ∷ [])
assert_fails serialization_delay delay loss m h =
    let kept : ltb (99 % 100) loss ≡ false = ground arith in
    (
      _,
      later
          (later
            (later
              (later
                (later (later (later here (now 0 refl (omega arith))) (look refl tt))
                  (receive m refl))
                (keep 99 0 refl kept refl))
              (enqueue refl))
            (pass refl (inl refl)))
          (not_empty refl (omega arith) (λ e. e) refl),
      refl,
      refl,
    )
