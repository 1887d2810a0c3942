-- ===== src/Window/Exchange.antt =====
-- The loops of 3lab/send.c and 3lab/recv.c, with the messages between the two processes in the order
-- in which they were sent. The link emulator may lose the next message or flip a bit of it; the
-- answers go back unharmed. Any side takes the next step.
use protocoale.Base.{ℕ, suc, ◌-◌, ◌≡◌, some, List, [], ◌∷◌, ◌++◌}
use protocoale.Bytes.{Memory}
use protocoale.Link.Threads
use protocoale.Link.Threads.{flip_bit}
use protocoale.Window.{Msg, count, new_msg, reply, send_message, recv_message}

-- Where the sender stands, with the rounds that are left: in the first loop; before `recv_message`
-- and before `send_message` in the second, where `sliding` has the rounds after this one; in the
-- third; or at its end.
pub data Sender : Type 0 where
  filling : ℕ → Sender
  awaiting : ℕ → Sender
  sliding : ℕ → Sender
  draining : ℕ → Sender
  finished : Sender

-- Before `recv_message`, with the rounds that are left, or before `send_message`, with the rounds
-- after this one.
pub data Receiver : Type 0 where
  waiting : ℕ → Receiver
  replying : ℕ → Receiver

-- `t` and `p` are the sender's variables, `r` and `q` the receiver's `r` and `p`; `lost` counts the
-- messages that the link emulator has lost.
pub record State : Type 0 where
  pub sender : Sender
  pub t : Msg
  pub p : Memory
  pub receiver : Receiver
  pub r : Msg
  pub q : Memory
  pub forth : List Threads.Msg
  pub back : List Threads.Msg
  pub lost : ℕ

-- The variables have no value at the start.
abbrev pub start : (window : ℕ) (t r : Msg) (p q : Memory) → State
start window t r p q = record {
  sender = filling window;
  t = t;
  p = p;
  receiver = waiting count;
  r = r;
  q = q;
  forth = [];
  back = [];
  lost = 0;
}

-- The sender builds and sends a message.
abbrev pub sends : State → Sender → State
sends s next =
    let m = new_msg s.p in
    record s { sender = next; t = m; p = m.payload; forth = s.forth ++ send_message m ∷ [] }

-- The sender gets the answer `m`, ahead of `rest`.
abbrev pub gets : State → Threads.Msg → List Threads.Msg → Sender → State
gets s m rest next =
    let t = recv_message s.t m in record s { sender = next; t = t; p = t.payload; back = rest }

module _ (window : ℕ) where
  -- A step of one of the two processes.
  pub data Move (s : State) : State → Type 0 where
    fill : {n : ℕ} → s.sender ≡ filling (suc n) → Move s (sends s (filling n))
    filled : s.sender ≡ filling 0 → Move s (record s { sender = awaiting (count - window) })
    get :
        {n : ℕ} {m : Threads.Msg} {rest : List Threads.Msg}
        → s.sender ≡ awaiting (suc n)
        → s.back ≡ m ∷ rest
        → Move s (gets s m rest (sliding n))
    slide : {n : ℕ} → s.sender ≡ sliding n → Move s (sends s (awaiting n))
    slid : s.sender ≡ awaiting 0 → Move s (record s { sender = draining window })
    drain :
        {n : ℕ} {m : Threads.Msg} {rest : List Threads.Msg}
        → s.sender ≡ draining (suc n)
        → s.back ≡ m ∷ rest
        → Move s (gets s m rest (draining n))
    drained : s.sender ≡ draining 0 → Move s (record s { sender = finished })
    receive :
        {n : ℕ} {m : Threads.Msg} {rest : List Threads.Msg}
        → s.receiver ≡ waiting (suc n)
        → s.forth ≡ m ∷ rest
        → Move s (record s {
          receiver = replying n;
          q = (reply s.q (recv_message s.r m)).0;
          r = (reply s.q (recv_message s.r m)).1;
          forth = rest;
        })
    respond :
        {n : ℕ}
        → s.receiver ≡ replying n
        → Move s (record s { receiver = waiting n; back = s.back ++ send_message s.r ∷ [] })

-- What the link emulator does to the next message.
pub data Disturb (s : State) : State → Type 0 where
  lose :
      {m : Threads.Msg} {rest : List Threads.Msg}
      → s.forth ≡ m ∷ rest
      → Disturb s (record s { forth = rest; lost = suc s.lost })
  damage :
      {m m' : Threads.Msg} {rest : List Threads.Msg} (a b : ℕ)
      → s.forth ≡ m ∷ rest
      → flip_bit m a b ≡ some m'
      → Disturb s (record s { forth = m' ∷ rest })

module _ (window : ℕ) where
  pub data Reach (s0 : State) : State → Type 0 where
    here : Reach s0 s0
    moved : {s s' : State} → Reach s0 s → Move window s s' → Reach s0 s'
    disturbed : {s s' : State} → Reach s0 s → Disturb s s' → Reach s0 s'

  -- Steps of the processes alone.
  pub data Moves : State → State → Type 0 where
    stop : {s : State} → Moves s s
    go : {s s' s'' : State} → Move window s s' → Moves s' s'' → Moves s s''
