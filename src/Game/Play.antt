-- ===== src/Game/Play.antt =====
-- Two players of training/x_si_0/ and the server between them, which passes each message on to the
-- partner. A message is read by one call of `recv`.
pub mod Turns
pub mod Agree
pub mod Draw
use protocoale.Base.{Bool, true, false, List, [], ◌∷◌, ◌++◌, ℕ}
use protocoale.Game.Client.{
  Client, Key, ignored, exits, draw, sends, on_keyboard, Received, plays, closed, fault, on_message,
  new_client, joined,
}

-- The players with x and o, and the messages on their way to them.
pub record Game : Type 0 where
  pub x_player : Client
  pub o_player : Client
  pub to_x : List (List ℕ)
  pub to_o : List (List ℕ)

-- The loop of one of the players runs once: with a line from the keyboard, or with a message.
pub data Event : Type 0 where
  x_types : (buffer : List ℕ) → Event
  o_types : (buffer : List ℕ) → Event
  x_reads : Event
  o_reads : Event

-- `over` is a player who has left the loop, `crashed` a write outside a board.
pub data Outcome : Type 0 where
  goes : Game → Outcome
  over : Outcome
  crashed : Outcome

unfoldable pub typed : Game → (Client → List ℕ → Game) → Key → Outcome
typed g after ignored = goes g
typed g after exits = over
typed g after (draw c) = over
typed g after (sends c message) = goes (after c message)

unfoldable pub arrived : (Client → Game) → Received → Outcome
arrived after (plays c) = goes (after c)
arrived after closed = over
arrived after fault = crashed

-- Without a message `recv` waits.
unfoldable pub reads : Game → Client → List (List ℕ) → (Client → List (List ℕ) → Game) → Outcome
reads g c [] after = goes g
reads g c (message ∷ rest) after = arrived (λ c'. after c' rest) (on_message c true message)

unfoldable pub play : Event → Game → Outcome
play (x_types buffer) g =
    typed g (λ c m. record g { x_player = c; to_o = g.to_o ++ m ∷ [] })
      (on_keyboard g.x_player buffer)
play (o_types buffer) g =
    typed g (λ c m. record g { o_player = c; to_x = g.to_x ++ m ∷ [] })
      (on_keyboard g.o_player buffer)
play x_reads g = reads g g.x_player g.to_x (λ c rest. record g { x_player = c; to_x = rest })
play o_reads g = reads g g.o_player g.to_o (λ c rest. record g { o_player = c; to_o = rest })

unfoldable pub then_play : List Event → Outcome → Outcome
then_play [] r = r
then_play (e ∷ es) over = over
then_play (e ∷ es) crashed = crashed
then_play (e ∷ es) (goes g) = then_play es (play e g)

-- Both players as they are when they have read the server's `x` and `z`.
abbrev pub joined_by : ℕ → Client
joined_by first = elim (on_message new_client true (first ∷ [])) [
  | plays c ↦ c
  | closed ↦ new_client
  | fault ↦ new_client
]

unfoldable pub new_game : Game
unfolding on_message joined
new_game = record { x_player = joined_by b'x'; o_player = joined_by b'z'; to_x = []; to_o = [] }
