-- ===== src/Window/Ending.antt =====
-- With a window from 1 to COUNT and nothing lost, the exchange can always be brought to its end.
use protocoale.Base.{
  ℕ, zero, suc, ◌+◌, ◌-◌, ◌*◌, ◌≤◌, ◌<◌, ◌≡◌, ◌⊎◌, ◌∙◌, inl, inr, refl, ap, arith, List, [], ◌∷◌,
  length,
}
use protocoale.Bytes.{Memory}
use protocoale.Link.Threads
use protocoale.Window.{Msg, count}
use protocoale.Window.Exchange.{
  Sender, filling, awaiting, sliding, draining, finished, Receiver, waiting, replying, State, start,
  Move, fill, filled, get, slide, slid, drain, drained, receive, respond, Reach, moved, Moves, stop,
  go,
}
use protocoale.Window.Unanswered.{
  rounds, held, Inv, Reach-Inv, at_sender, IsComplete, finished-IsComplete,
}

abbrev receiver_weight : Receiver → ℕ
receiver_weight (waiting n) = 2 * n
receiver_weight (replying n) = 2 * n + 1

module _ (window : ℕ) where
  abbrev sender_weight : Sender → ℕ
  sender_weight (filling n) = n + 2 * (count - window) + window + 3
  sender_weight (awaiting n) = 2 * n + window + 2
  sender_weight (sliding n) = 2 * n + window + 3
  sender_weight (draining n) = n + 1
  sender_weight finished = 0

  -- What the two processes have left to do.
  abbrev weight : State → ℕ
  weight s = sender_weight s.sender + receiver_weight s.receiver

  abbrev CanAdvance : State → Type 0
  CanAdvance s = (s' : State) × Move window s s' × (weight s' < weight s) × (s'.lost ≡ s.lost)

  receiver-CanAdvance :
      (s : State) (w : Receiver) (forth : List Threads.Msg)
      → s.receiver ≡ w
      → s.forth ≡ forth
      → 0 < length forth + held w
      → 0 < rounds w
      → CanAdvance s
  receiver-CanAdvance s (replying n) forth e f some_out left =
      (_, respond e, omega (arith, ap receiver_weight e), refl)
  receiver-CanAdvance s (waiting zero) forth e f some_out left = absurd (omega arith)
  receiver-CanAdvance s (waiting (suc n)) [] e f some_out left = absurd (omega arith)
  receiver-CanAdvance s (waiting (suc n)) (m ∷ rest) e f some_out left =
      (_, receive e f, omega (arith, ap receiver_weight e), refl)

  module _ (s : State) (inv : Inv window s) (low : 0 < window) (high : window ≤ count) where
    -- An answer is there, or the receiver can bring it on.
    awaiting-CanAdvance :
        (n : ℕ) (back : List Threads.Msg)
        → s.sender ≡ awaiting (suc n)
        → s.back ≡ back
        → s.lost ≡ 0
        → CanAdvance s
    awaiting-CanAdvance n (m ∷ rest) e b l = (_, get e b, omega (arith, ap sender_weight e), refl)
    awaiting-CanAdvance n [] e b l =
        let (r, c, a) = at_sender window inv e in
        let none_back = ap length b in
        receiver-CanAdvance s s.receiver s.forth refl refl (omega arith) (omega arith)

    draining-CanAdvance :
        (n : ℕ) (back : List Threads.Msg)
        → s.sender ≡ draining (suc n)
        → s.back ≡ back
        → s.lost ≡ 0
        → CanAdvance s
    draining-CanAdvance n (m ∷ rest) e b l = (_, drain e b, omega (arith, ap sender_weight e), refl)
    draining-CanAdvance n [] e b l =
        let (r, c, a) = at_sender window inv e in
        let none_back = ap length b in
        receiver-CanAdvance s s.receiver s.forth refl refl (omega arith) (omega arith)

    advances : (w : Sender) → s.sender ≡ w → s.lost ≡ 0 → (s.sender ≡ finished) ⊎ CanAdvance s
    advances (filling zero) e l = inr (_, filled e, omega (arith, ap sender_weight e), refl)
    advances (filling (suc n)) e l = inr (_, fill e, omega (arith, ap sender_weight e), refl)
    advances (awaiting zero) e l = inr (_, slid e, omega (arith, ap sender_weight e), refl)
    advances (awaiting (suc n)) e l = inr (awaiting-CanAdvance n s.back e refl l)
    advances (sliding n) e l = inr (_, slide e, omega (arith, ap sender_weight e), refl)
    advances (draining zero) e l = inr (_, drained e, omega (arith, ap sender_weight e), refl)
    advances (draining (suc n)) e l = inr (draining-CanAdvance n s.back e refl l)
    advances finished e l = inl e

  module _ (t r : Msg) (p q : Memory) (low : 0 < window) (high : window ≤ count) where
    abbrev CanEnd : State → Type 0
    CanEnd s = (s' : State) × Moves window s s' × IsComplete window s'

    CanEnd-within :
        (fuel : ℕ) (s : State)
        → weight s ≤ fuel
        → Reach window (start window t r p q) s
        → s.lost ≡ 0
        → CanEnd s
    CanEnd-within zero s h path l =
        let inv = Reach-Inv window t r p q path in
        elim (advances s inv low high s.sender refl l) [
          | inl e ↦ (s, stop, finished-IsComplete window s inv e)
          | inr (s', step, less, same) ↦ absurd (omega arith)
        ]
    CanEnd-within (suc fuel) s h path l =
        let inv = Reach-Inv window t r p q path in
        elim (advances s inv low high s.sender refl l) [
          | inl e ↦ (s, stop, finished-IsComplete window s inv e)
          | inr (s', step, less, same) ↦
              let (s'', rest, ended) =
                CanEnd-within fuel s' (omega arith) (moved path step) (same ∙ l) in
              (s'', go step rest, ended)
        ]

    -- With a window from 1 to COUNT, and as long as the link emulator has lost nothing, the steps of
    -- the two processes can bring the sender to its end, with every message answered and the
    -- receiver at its end too.
    pub Reach-CanEnd : (s : State) → Reach window (start window t r p q) s → s.lost ≡ 0 → CanEnd s
    Reach-CanEnd s path l = CanEnd-within (weight s) s (omega arith) path l
