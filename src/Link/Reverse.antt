-- ===== src/Link/Reverse.antt =====
-- `receive_message1` and `run_reverse_forwarding` of 3lab/link_emulator/link.c, over the results of the
-- calls of `recvfrom`. `receive_message2`, which the second calls, is the first with the other peer.
use protocoale.Base.{
  ℕ, zero, suc, ◌<◌, ◌≡◌, Bool, true, false, List, [], ◌∷◌, map, length, refl, ap, arith,
}
use protocoale.Link.Threads.{Msg}

-- What a call of `recvfrom` gives: -1, or a message and its sender's address.
pub data Arrival : Type 0 where
  fails : Arrival
  arrives : (address : ℕ) → Msg → Arrival

-- `link_up` and `remote_addr` of one side.
pub record Peer : Type 0 where
  pub link_up : Bool
  pub remote_addr : ℕ

-- A message, with the arrivals that are left; `NULL`; or a call that waits.
pub data Received : Type 0 where
  message : Msg → Peer → List Arrival → Received
  null : Received
  waits : Peer → Received

unfoldable pub receive_up : Peer → List Arrival → Received
receive_up peer [] = waits peer
receive_up peer (fails ∷ arrivals) = null
receive_up peer (arrives address m ∷ arrivals) = message m peer arrivals

-- The first message is taken for the peer's address and thrown away.
unfoldable pub receive_down : Peer → List Arrival → Received
unfolding receive_up
receive_down peer [] = waits peer
receive_down peer (fails ∷ arrivals) = null
receive_down peer (arrives address m ∷ arrivals) =
    receive_up (record { link_up = true; remote_addr = address }) arrivals

unfoldable pub receive_message : Peer → List Arrival → Received
unfolding receive_up receive_down
receive_message peer arrivals = elim peer.link_up [
  | true ↦ receive_up peer arrivals
  | false ↦ receive_down peer arrivals
]

-- Whether the loop waits for a message, has ended the process, or has run out of fuel.
pub data Ending : Type 0 where
  waiting : Ending
  exited : Ending
  out_of_fuel : Ending

-- The messages that were sent to the other side's `remote_addr`.
pub record Forwarded : Type 0 where
  pub sent : List (ℕ × Msg)
  pub ending : Ending

abbrev pub send_message : ℕ → Msg → Forwarded → Forwarded
send_message remote_addr m rest = record rest { sent = (remote_addr, m) ∷ rest.sent }

unfoldable pub run_reverse_forwarding : (remote_addr fuel : ℕ) → Peer → List Arrival → Forwarded
unfolding receive_message
run_reverse_forwarding remote_addr zero peer arrivals = record { sent = []; ending = out_of_fuel }
run_reverse_forwarding remote_addr (suc fuel) peer arrivals = elim (receive_message peer arrivals) [
  | null ↦ record { sent = []; ending = exited }
  | waits peer' ↦ record { sent = []; ending = waiting }
  | message m peer' rest ↦
      send_message remote_addr m (run_reverse_forwarding remote_addr fuel peer' rest)
]

abbrev arrivals_of : List (ℕ × Msg) → List Arrival
arrivals_of [] = []
arrivals_of ((address, m) ∷ ms) = arrives address m ∷ arrivals_of ms

abbrev up : ℕ → Peer
up address = record { link_up = true; remote_addr = address }

module _ (remote_addr : ℕ) where
  all_forwarded :
      (fuel address : ℕ) (ms : List (ℕ × Msg))
      → length ms < fuel
      → run_reverse_forwarding remote_addr fuel (up address) (arrivals_of ms)
        ≡ record { sent = map (λ m. (remote_addr, m.1)) ms; ending = waiting }
  unfolding run_reverse_forwarding receive_message receive_up
  all_forwarded zero address ms h = absurd (omega arith)
  all_forwarded (suc fuel) address [] h = refl
  all_forwarded (suc fuel) address ((from, m) ∷ ms) h =
      ap (send_message remote_addr m) (all_forwarded fuel address ms (omega arith))

  -- On a new link all messages but the first are sent on in their order.
  first_dropped :
      (fuel none from : ℕ) (first : Msg) (ms : List (ℕ × Msg))
      → length ms < fuel
      → run_reverse_forwarding remote_addr fuel
          (record { link_up = false; remote_addr = none })
          (arrivals_of ((from, first) ∷ ms))
        ≡ record { sent = map (λ m. (remote_addr, m.1)) ms; ending = waiting }
  unfolding run_reverse_forwarding receive_message receive_up receive_down
  first_dropped zero none from first ms h = absurd (omega arith)
  first_dropped (suc fuel) none from first ms h = all_forwarded (suc fuel) from ms h
