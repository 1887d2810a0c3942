-- ===== src/Window/Tests.antt =====
-- The theorems on the exchange of 3lab at concrete messages.
use protocoale.Base.{◌+◌, ◌≤◌, ◌≡◌, some, refl, arith, length}
use protocoale.Bytes.{Memory}
use protocoale.Link.Threads
use protocoale.Link.Threads.{flip_bit}
use protocoale.Window.{Msg, new_msg, send_message, recv_message, window_size}
use protocoale.Window.Detection.{Acknowledges, Rejects, new_msg-IsSound, flip_bit-Rejects}
use protocoale.Window.Exchange.{State, start, here, moved, Moves, fill, sends, filling}
use protocoale.Window.Unanswered.{held, IsComplete, Reach-InWindow}
use protocoale.Window.Ending.{Reach-CanEnd}

abbrev zeros : Memory
zeros = λ i. 0

abbrev blank_msg : Msg
blank_msg = record { len = 0; parity = 0; payload = zeros }

abbrev two_out : State
two_out = sends (sends (start 2 blank_msg blank_msg zeros zeros) (filling 1)) (filling 0)

-- Bit 3 of the byte that the link emulator has at place 9 is flipped.
flip_bit-Rejects_example :
    Acknowledges zeros (recv_message blank_msg (send_message (new_msg zeros)))
    × (w : Threads.Msg) × (flip_bit (send_message (new_msg zeros)) 9 3 ≡ some w)
    × Rejects zeros (recv_message blank_msg w)
flip_bit-Rejects_example =
    flip_bit-Rejects (new_msg zeros) (new_msg-IsSound zeros (λ i. omega arith)) zeros blank_msg 9 3

-- Two messages are sent.
Reach-InWindow_example : length two_out.forth + held two_out.receiver + length two_out.back ≤ 2
Reach-InWindow_example =
    Reach-InWindow 2 blank_msg blank_msg zeros zeros two_out
      (moved (moved here (fill refl)) (fill refl))

Reach-CanEnd_example : (s' : State) × Moves 2 two_out s' × IsComplete 2 s'
Reach-CanEnd_example =
    Reach-CanEnd 2 blank_msg blank_msg zeros zeros (omega arith) (omega arith) two_out
      (moved (moved here (fill refl)) (fill refl)) refl

no_window : window_size 11 ≡ 0
unfolding window_size
no_window = refl

full_window : window_size 1127 ≡ 100
unfolding window_size
full_window = refl
