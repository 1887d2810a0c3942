-- ===== src/Http/Send.antt =====
-- `send_to_server` of lab10/helpers.c, over the results of its calls of `write`.
pub mod Sent
use protocoale.Base.{
  ℕ, zero, suc, ◌+◌, Bool, true, false, List, [], ◌∷◌, ◌++◌, length, take, drop, ltb, if◌then◌else◌,
}

-- What a call of `write` returns: how many of the bytes it took, or -1.
pub data Write : Type 0 where
  accepted : ℕ → Write
  refused : Write

-- The bytes that were taken when the function returns, exits, or waits in a call of `write`.
pub data Sending : Type 0 where
  returned : List ℕ → Sending
  stopped : List ℕ → Sending
  waiting : List ℕ → Sending

-- The loop, with `sent` bytes written, which are `wire`. A call takes the first of the bytes that
-- it is offered, `message + sent` on.
unfoldable pub send_loop : (message : List ℕ) → List Write → (sent : ℕ) → (wire : List ℕ) → Sending
send_loop message [] sent wire = waiting wire
send_loop message (refused ∷ writes) sent wire = stopped wire
send_loop message (accepted zero ∷ writes) sent wire = returned wire
send_loop message (accepted (suc n) ∷ writes) sent wire =
    let more = wire ++ take (suc n) (drop sent message) in
    let rest = send_loop message writes (sent + suc n) more in
    if ltb (sent + suc n) (length message) then rest else returned more

unfoldable pub send_to_server : (message : List ℕ) → List Write → Sending
send_to_server message writes = send_loop message writes 0 []
