-- ===== src/Link/Threads.antt =====
-- The two threads of 3lab/link_emulator/link.c that share the queue `buffer`: `run_forwarding` puts
-- packets into it, `link_scheduler` takes them out and sends them with a delay. The queues are lists
-- here, the oldest packet first, as the theorems on queue.c allow. A section of code under
-- `buffer_lock` is one step; any thread may take the next step.
pub mod Order
pub mod Timing
pub mod Race
use protocoale.Base.{
  ℕ, zero, suc, ◌+◌, ◌-◌, ◌%◌, ◌^◌, ◌≤◌, ◌<◌, ◌≡◌, ◌⊎◌, Bool, true, false, Option, none, some, List,
  [], ◌∷◌, ◌++◌, length, leb, ltb, ◌==◌, ◌||◌, if◌then◌else◌, bit_xor,
}

abbrev pub msgsize : ℕ
msgsize = 1400

abbrev pub buffer_size : ℕ
buffer_size = 1000

pub record Msg : Type 0 where
  pub len : ℕ
  pub payload : ℕ → ℕ

-- `msg_in_flight`.
pub record MsgInFlight : Type 0 where
  pub m : Msg
  pub finish_time : ℕ

-- The flipped bit: `m->payload[a % m->len] ^= 1 << (b % 8)`. `none` is a division by zero, or an
-- access outside the payload.
unfoldable pub flip_bit : Msg → (a b : ℕ) → Option Msg
flip_bit m a b =
    if m.len == 0
    then none
    else if ltb (a % m.len) msgsize
    then some (record m {
      payload = λ i. if i == a % m.len then bit_xor (m.payload i) (2 ^ (b % 8)) else m.payload i;
    })
    else none

-- Where `link_scheduler` stands, with `crt_time` and `stuff` where they are live: before `now`; in
-- the loop that sends; behind the look at `buffer`; behind the packet put in flight; in
-- `pthread_cond_wait`; or ended by an `assert`.
pub data Scheduler : Type 0 where
  top : Scheduler
  sending : (crt_time : ℕ) → Scheduler
  looked : (crt_time : ℕ) → (stuff : Bool) → Scheduler
  measured : (crt_time : ℕ) → Scheduler
  waiting : Scheduler
  aborted : Scheduler

-- Where `run_forwarding` stands: before `receive_message1`; with a packet; with a packet to enqueue;
-- or ended by a fault.
pub data Forwarder : Type 0 where
  receiving : Forwarder
  received : Msg → (overflow : Bool) → Forwarder
  keeping : Msg → Forwarder
  crashed : Forwarder

-- Both threads, what they share, the variables of `link_scheduler`, and the clock. `accepted` are all
-- packets that were ever put into `buffer`, `sent` all that were handed to `send_message2`, with the
-- time.
pub record State : Type 0 where
  pub buffer : List Msg
  pub in_flight : List MsgInFlight
  pub idle_time : ℕ
  pub clock : ℕ
  pub scheduler : Scheduler
  pub forwarder : Forwarder
  pub accepted : List Msg
  pub sent : List (MsgInFlight × ℕ)

abbrev pub start : State
start = record {
  buffer = [];
  in_flight = [];
  idle_time = 0;
  clock = 0;
  scheduler = top;
  forwarder = receiving;
  accepted = [];
  sent = [];
}

-- No packet in flight is due at this time.
abbrev pub NoneDue : List MsgInFlight → ℕ → Type 0
NoneDue [] t = Unit {0}
NoneDue (f ∷ rest) t = t < f.finish_time

-- The oldest packet in flight is due after this time.
abbrev pub DueLater : List MsgInFlight → ℕ → Type 0
DueLater [] t = ⊥
DueLater (f ∷ rest) t = t < f.finish_time

-- `buffer->size > 0`.
abbrev pub stuff_in : List Msg → Bool
stuff_in [] = false
stuff_in (m ∷ ms) = true

module _ (serialization_delay delay loss corrupt : ℕ) where
  -- The clock does not go back. `pthread_cond_wait` may return at any time.
  pub data Step (s : State) : State → Type 0 where
    now :
        (t : ℕ)
        → s.scheduler ≡ top
        → s.clock ≤ t
        → Step s (record s { clock = t; scheduler = sending t })
    send :
        {t : ℕ} {f : MsgInFlight} {rest : List MsgInFlight}
        → s.scheduler ≡ sending t
        → s.in_flight ≡ f ∷ rest
        → f.finish_time ≤ t
        → Step s (record s { in_flight = rest; sent = s.sent ++ (f, t) ∷ [] })
    look :
        {t : ℕ}
        → s.scheduler ≡ sending t
        → NoneDue s.in_flight t
        → Step s (record s { scheduler = looked t (stuff_in s.buffer) })
    take :
        {t : ℕ} {m : Msg} {rest : List Msg}
        → s.scheduler ≡ looked t true
        → s.idle_time ≤ t
        → s.buffer ≡ m ∷ rest
        → Step s (record s {
          buffer = rest;
          in_flight =
              s.in_flight ++ record { m = m; finish_time = t + serialization_delay + delay } ∷ [];
          idle_time = t + serialization_delay;
          scheduler = measured t;
        })
    take_null :
        {t : ℕ}
        → s.scheduler ≡ looked t true
        → s.idle_time ≤ t
        → s.buffer ≡ []
        → Step s (record s { idle_time = t + serialization_delay; scheduler = aborted })
    pass :
        {t : ℕ} {stuff : Bool}
        → s.scheduler ≡ looked t stuff
        → (stuff ≡ false) ⊎ (t < s.idle_time)
        → Step s (record s { scheduler = measured t })
    sleep :
        {t : ℕ}
        → s.scheduler ≡ measured t
        → (t < s.idle_time) ⊎ DueLater s.in_flight t
        → Step s (record s { scheduler = top })
    wait :
        {t : ℕ}
        → s.scheduler ≡ measured t
        → s.idle_time ≤ t
        → ¬ DueLater s.in_flight t
        → s.buffer ≡ []
        → Step s (record s { scheduler = waiting })
    not_empty :
        {t : ℕ} {m : Msg} {rest : List Msg}
        → s.scheduler ≡ measured t
        → s.idle_time ≤ t
        → ¬ DueLater s.in_flight t
        → s.buffer ≡ m ∷ rest
        → Step s (record s { scheduler = aborted })
    wake : s.scheduler ≡ waiting → Step s (record s { scheduler = top })
    receive :
        (m : Msg)
        → s.forwarder ≡ receiving
        → Step s (record s { forwarder = received m (leb buffer_size (length s.buffer)) })
    drop :
        {m : Msg} {overflow : Bool} (r : ℕ)
        → s.forwarder ≡ received m overflow
        → (overflow || ltb (r % 100) loss) ≡ true
        → Step s (record s { forwarder = receiving })
    keep :
        {m : Msg} (r q : ℕ)
        → s.forwarder ≡ received m false
        → ltb (r % 100) loss ≡ false
        → ltb (q % 100) corrupt ≡ false
        → Step s (record s { forwarder = keeping m })
    damage :
        {m m' : Msg} (r q a b : ℕ)
        → s.forwarder ≡ received m false
        → ltb (r % 100) loss ≡ false
        → ltb (q % 100) corrupt ≡ true
        → flip_bit m a b ≡ some m'
        → Step s (record s { forwarder = keeping m' })
    damage_faults :
        {m : Msg} (r q a b : ℕ)
        → s.forwarder ≡ received m false
        → ltb (r % 100) loss ≡ false
        → ltb (q % 100) corrupt ≡ true
        → flip_bit m a b ≡ none
        → Step s (record s { forwarder = crashed })
    enqueue :
        {m : Msg}
        → s.forwarder ≡ keeping m
        → Step s (record s {
          buffer = s.buffer ++ m ∷ [];
          accepted = s.accepted ++ m ∷ [];
          forwarder = receiving;
        })

  pub data Reach : State → Type 0 where
    here : Reach start
    later : {s t : State} → Reach s → Step s t → Reach t
