-- ===== src/Window/Unanswered.antt =====
-- How many messages the sender has out without an answer, and what that means for its end.
use protocoale.Base.{
  ℕ, suc, ◌+◌, ◌-◌, ◌≤◌, ◌<◌, ◌≡◌, refl, ap, subst, arith, [], ◌∷◌, length, length-append,
}
use protocoale.Bytes.{Memory}
use protocoale.Window.{Msg, count, new_msg, send_message}
use protocoale.Window.Exchange.{
  Sender, filling, awaiting, sliding, draining, finished, Receiver, waiting, replying, State, start,
  Move, fill, filled, get, slide, slid, drain, drained, receive, respond, Disturb, lose, damage,
  Reach, here, moved, disturbed,
}

-- The rounds that the receiver has not ended, and whether it holds a message.
abbrev pub rounds : Receiver → ℕ
rounds (waiting n) = n
rounds (replying n) = suc n

abbrev pub held : Receiver → ℕ
held (waiting n) = 0
held (replying n) = 1

-- The messages between the sender's `send_message` and its `recv_message` of the answer.
abbrev pub out : State → ℕ
out s = length s.forth + held s.receiver + length s.back

module _ (window : ℕ) where
  -- Answers read, and messages sent and not answered, as the sender's place tells.
  abbrev pub answers_read : Sender → ℕ
  answers_read (filling n) = 0
  answers_read (awaiting n) = count - window - n
  answers_read (sliding n) = count - window - n
  answers_read (draining n) = count - window + (window - n)
  answers_read finished = count - window + window

  abbrev pub unanswered : Sender → ℕ
  unanswered (filling n) = window - n
  unanswered (awaiting n) = window
  unanswered (sliding n) = window - 1
  unanswered (draining n) = n
  unanswered finished = 0

  abbrev pub InRange : Sender → Type 0
  InRange (filling n) = n ≤ window
  InRange (awaiting n) = n ≤ count - window
  InRange (sliding n) = (n < count - window) × (0 < window)
  InRange (draining n) = n ≤ window
  InRange finished = Unit {0}

  pub record Inv (s : State) : Type 0 where
    pub in_range : InRange s.sender
    pub counted : out s + s.lost ≡ unanswered s.sender
    pub answered : answers_read s.sender + length s.back + rounds s.receiver ≡ count

  abbrev pub SenderAt : (s : State) → Sender → Type 0
  SenderAt s w =
      InRange w
      × (out s + s.lost ≡ unanswered w)
      × (answers_read w + length s.back + rounds s.receiver ≡ count)

  pub at_sender : {s : State} {w : Sender} → Inv s → s.sender ≡ w → SenderAt s w
  at_sender {s} inv e = subst (SenderAt s) e (inv.in_range, inv.counted, inv.answered)

  Move-Inv : {s s' : State} → Inv s → Move window s s' → Inv s'
  Move-Inv {s} inv (fill {n} e) =
      let (r, c, a) = at_sender inv e in
      let longer = length-append s.forth (send_message (new_msg s.p) ∷ []) in
      record { in_range = omega arith; counted = omega arith; answered = omega arith }
  Move-Inv {s} inv (filled e) =
      let (r, c, a) = at_sender inv e in
      record { in_range = omega arith; counted = omega arith; answered = omega arith }
  Move-Inv {s} inv (get {n} {m} {rest} e b) =
      let (r, c, a) = at_sender inv e in
      let one = ap length b in
      record { in_range = omega arith; counted = omega arith; answered = omega arith }
  Move-Inv {s} inv (slide {n} e) =
      let (r, c, a) = at_sender inv e in
      let longer = length-append s.forth (send_message (new_msg s.p) ∷ []) in
      record { in_range = omega arith; counted = omega arith; answered = omega arith }
  Move-Inv {s} inv (slid e) =
      let (r, c, a) = at_sender inv e in
      record { in_range = omega arith; counted = omega arith; answered = omega arith }
  Move-Inv {s} inv (drain {n} {m} {rest} e b) =
      let (r, c, a) = at_sender inv e in
      let one = ap length b in
      record { in_range = omega arith; counted = omega arith; answered = omega arith }
  Move-Inv {s} inv (drained e) =
      let (r, c, a) = at_sender inv e in
      record { in_range = tt; counted = omega arith; answered = omega arith }
  Move-Inv {s} inv (receive {n} {m} {rest} e f) =
      let one = ap length f in
      let h = ap held e in
      let l = ap rounds e in
      record {
        in_range = inv.in_range;
        counted = omega (arith, inv.counted);
        answered = omega (arith, inv.answered);
      }
  Move-Inv {s} inv (respond {n} e) =
      let longer = length-append s.back (send_message s.r ∷ []) in
      let h = ap held e in
      let l = ap rounds e in
      record {
        in_range = inv.in_range;
        counted = omega (arith, inv.counted);
        answered = omega (arith, inv.answered);
      }

  Disturb-Inv : {s s' : State} → Inv s → Disturb s s' → Inv s'
  Disturb-Inv inv (lose f) =
      let one = ap length f in
      record {
        in_range = inv.in_range;
        counted = omega (arith, inv.counted);
        answered = inv.answered;
      }
  Disturb-Inv inv (damage a b f d) =
      let one = ap length f in
      record {
        in_range = inv.in_range;
        counted = omega (arith, inv.counted);
        answered = inv.answered;
      }

  pub Reach-Inv :
      (t r : Msg) (p q : Memory) {s : State} → Reach window (start window t r p q) s → Inv s
  Reach-Inv t r p q here = record { in_range = omega arith; counted = omega arith; answered = refl }
  Reach-Inv t r p q (moved path step) = Move-Inv (Reach-Inv t r p q path) step
  Reach-Inv t r p q (disturbed path step) = Disturb-Inv (Reach-Inv t r p q path) step

  unanswered-window : (w : Sender) → InRange w → unanswered w ≤ window
  unanswered-window (filling n) r = omega arith
  unanswered-window (awaiting n) r = omega arith
  unanswered-window (sliding n) r = omega arith
  unanswered-window (draining n) r = r
  unanswered-window finished r = omega arith

  -- At any time, whatever the link emulator loses or damages, at most a window of messages are on
  -- their way, with the receiver, or answered by an answer on its way.
  pub Reach-InWindow :
      (t r : Msg) (p q : Memory) (s : State)
      → Reach window (start window t r p q) s
      → length s.forth + held s.receiver + length s.back ≤ window
  Reach-InWindow t r p q s path =
      let inv = Reach-Inv t r p q path in
      omega (arith, inv.counted, unanswered-window s.sender inv.in_range)

-- The end of the sender, with all messages sent and answered.
pub record IsComplete (window : ℕ) (s : State) : Type 0 where
  pub at_end : s.sender ≡ finished
  pub none_lost : s.lost ≡ 0
  pub fits : window ≤ count
  pub none_out : out s ≡ 0
  pub receiver_ended : s.receiver ≡ waiting 0

no_rounds : (w : Receiver) → rounds w ≡ 0 → w ≡ waiting 0
no_rounds (waiting n) h = ap waiting h
no_rounds (replying n) h = absurd (omega arith)

-- The sender only ends if nothing was lost and the window is not above the number of messages.
pub finished-IsComplete :
    (window : ℕ) (s : State) → Inv window s → s.sender ≡ finished → IsComplete window s
finished-IsComplete window s inv e =
    let (r, c, a) = at_sender window inv e in
    record {
      at_end = e;
      none_lost = omega arith;
      fits = omega arith;
      none_out = omega arith;
      receiver_ended = no_rounds s.receiver (omega arith);
    }
