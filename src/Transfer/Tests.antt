-- ===== src/Transfer/Tests.antt =====
-- The theorems on lab3 at a concrete file.
use protocoale.Base.{ℕ, arith, ◌≡◌, ◌≢◌, List, [], ◌∷◌, ◌++◌}
use protocoale.Transfer.{
  Pkt, sender_done, receiver_done, Turn, sender_moves, receiver_moves, moves, start,
}
use protocoale.Transfer.Completion.{transfer_ends, transfer_written, receiver_never_done}

abbrev file : List ℕ
file = b'a' ∷ b'b' ∷ b'c' ∷ []

abbrev empty_pkt : Pkt
empty_pkt = record { type = 0; checksum = 0; payload = λ i. 0 }

abbrev turns : List Turn
turns = sender_moves ∷ receiver_moves ∷ sender_moves ∷ sender_moves ∷ receiver_moves ∷ []

transfer_ends_example :
    (ts : List Turn) × ((moves ts (start file empty_pkt)).sender ≡ sender_done)
    × ((moves ts (start file empty_pkt)).written ≡ file)
transfer_ends_example = transfer_ends file empty_pkt (omega arith)

transfer_written_example :
    ((tail : List ℕ) × ((moves turns (start file empty_pkt)).written ++ tail ≡ file))
    × ((moves turns (start file empty_pkt)).sender ≡ sender_done
        → (moves turns (start file empty_pkt)).written ≡ file)
transfer_written_example = transfer_written file empty_pkt turns

receiver_never_done_example : (moves turns (start file empty_pkt)).receiver ≢ receiver_done
receiver_never_done_example = receiver_never_done file empty_pkt turns (λ e. cc) (omega arith)
