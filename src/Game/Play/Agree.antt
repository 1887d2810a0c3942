-- ===== src/Game/Play/Agree.antt =====
-- Whatever the order of typing and reading, the boards agree and no move leaves a board.
use protocoale.Base.{ℕ, ◌≡◌, refl, ap, List, [], ◌∷◌, ◌++◌}
use protocoale.Game.Client.{Client, Key, ignored, exits, draw, sends, on_keyboard, joined}
use protocoale.Text.Prefix.{Without}
use protocoale.Game.Play.{
  Game, Event, x_types, o_types, x_reads, o_reads, Outcome, goes, over, crashed, typed, arrived,
  reads, play, then_play, new_game,
}
use protocoale.Game.Play.Turns.{MyTurn, Flying, delivered, flies, nothing_sent}

pub data Agrees (g : Game) : Type 0 where
  x_turn : MyTurn g.x_player g.o_player → g.to_x ≡ [] → g.to_o ≡ [] → Agrees g
  o_turn : MyTurn g.o_player g.x_player → g.to_x ≡ [] → g.to_o ≡ [] → Agrees g
  x_moved :
      (message : List ℕ)
      → Flying g.x_player g.o_player message
      → g.to_x ≡ []
      → g.to_o ≡ message ∷ []
      → Agrees g
  o_moved :
      (message : List ℕ)
      → Flying g.o_player g.x_player message
      → g.to_x ≡ message ∷ []
      → g.to_o ≡ []
      → Agrees g

-- The game goes on with boards that agree, or is over; no move has left the board.
abbrev pub Settled : Outcome → Type 0
Settled (goes g) = Agrees g
Settled over = Unit {0}
Settled crashed = ⊥

typed-Settled :
    (g : Game) (after : Client → List ℕ → Game) (key : Key)
    → Agrees g
    → ((c : Client) (message : List ℕ) → key ≡ sends c message → Agrees (after c message))
    → Settled (typed g after key)
unfolding typed
typed-Settled g after ignored a next = a
typed-Settled g after exits a next = tt
typed-Settled g after (draw c) a next = tt
typed-Settled g after (sends c message) a next = next c message refl

no_message :
    (g : Game) (c : Client) (queue : List (List ℕ)) (after : Client → List (List ℕ) → Game)
    → queue ≡ []
    → Agrees g
    → Settled (reads g c queue after)
unfolding reads
no_message g c queue after e a = rw (e, reads) a

one_message :
    (g : Game) (me you : Client) (queue : List (List ℕ)) (after : Client → List (List ℕ) → Game)
    (message : List ℕ)
    → queue ≡ message ∷ []
    → Flying me you message
    → ((you' : Client) → MyTurn you' me → Agrees (after you' []))
    → Settled (reads g you queue after)
unfolding reads arrived
one_message g me you queue after message e f next =
    let (you', plays_on, turn) = delivered me you message f in
    rw (e, reads, plays_on) (next you' turn)

-- What is typed has no zero byte.
abbrev pub IsTyped : Event → Type 0
IsTyped (x_types buffer) = Without 0 buffer
IsTyped (o_types buffer) = Without 0 buffer
IsTyped x_reads = Unit {0}
IsTyped o_reads = Unit {0}

-- Each round of either player keeps the boards in agreement, and no move leaves the board.
play-Settled : (e : Event) (g : Game) → IsTyped e → Agrees g → Settled (play e g)
unfolding play
play-Settled (x_types buffer) g n (x_turn t ex eo) =
    typed-Settled g _ (on_keyboard g.x_player buffer) (x_turn t ex eo) λ c m e.
      x_moved m (flies g.x_player g.o_player buffer c m n t e) ex (ap (λ l. l ++ m ∷ []) eo)
play-Settled (x_types buffer) g n (o_turn t ex eo) =
    typed-Settled g _ (on_keyboard g.x_player buffer) (o_turn t ex eo)
      λ c m e. absurd (nothing_sent g.x_player buffer c m t.waits e)
play-Settled (x_types buffer) g n (x_moved m f ex eo) =
    typed-Settled g _ (on_keyboard g.x_player buffer) (x_moved m f ex eo)
      λ c m e. absurd (nothing_sent g.x_player buffer c m f.moved e)
play-Settled (x_types buffer) g n (o_moved m f ex eo) =
    typed-Settled g _ (on_keyboard g.x_player buffer) (o_moved m f ex eo)
      λ c m e. absurd (nothing_sent g.x_player buffer c m f.waits e)
play-Settled (o_types buffer) g n (x_turn t ex eo) =
    typed-Settled g _ (on_keyboard g.o_player buffer) (x_turn t ex eo)
      λ c m e. absurd (nothing_sent g.o_player buffer c m t.waits e)
play-Settled (o_types buffer) g n (o_turn t ex eo) =
    typed-Settled g _ (on_keyboard g.o_player buffer) (o_turn t ex eo) λ c m e.
      o_moved m (flies g.o_player g.x_player buffer c m n t e) (ap (λ l. l ++ m ∷ []) ex) eo
play-Settled (o_types buffer) g n (x_moved m f ex eo) =
    typed-Settled g _ (on_keyboard g.o_player buffer) (x_moved m f ex eo)
      λ c m e. absurd (nothing_sent g.o_player buffer c m f.waits e)
play-Settled (o_types buffer) g n (o_moved m f ex eo) =
    typed-Settled g _ (on_keyboard g.o_player buffer) (o_moved m f ex eo)
      λ c m e. absurd (nothing_sent g.o_player buffer c m f.moved e)
play-Settled x_reads g n (x_turn t ex eo) = no_message g g.x_player g.to_x _ ex (x_turn t ex eo)
play-Settled x_reads g n (o_turn t ex eo) = no_message g g.x_player g.to_x _ ex (o_turn t ex eo)
play-Settled x_reads g n (x_moved m f ex eo) =
    no_message g g.x_player g.to_x _ ex (x_moved m f ex eo)
play-Settled x_reads g n (o_moved m f ex eo) =
    one_message g g.o_player g.x_player g.to_x _ m ex f λ c t. x_turn t refl eo
play-Settled o_reads g n (x_turn t ex eo) = no_message g g.o_player g.to_o _ eo (x_turn t ex eo)
play-Settled o_reads g n (o_turn t ex eo) = no_message g g.o_player g.to_o _ eo (o_turn t ex eo)
play-Settled o_reads g n (x_moved m f ex eo) =
    one_message g g.x_player g.o_player g.to_o _ m eo f λ c t. o_turn t ex refl
play-Settled o_reads g n (o_moved m f ex eo) =
    no_message g g.o_player g.to_o _ eo (o_moved m f ex eo)

abbrev pub AllTyped : List Event → Type 0
AllTyped [] = Unit {0}
AllTyped (e ∷ es) = IsTyped e × AllTyped es

then_play-Settled :
    (es : List Event) (r : Outcome) → AllTyped es → Settled r → Settled (then_play es r)
unfolding then_play
then_play-Settled [] r n s = s
then_play-Settled (e ∷ es) over n s = tt
then_play-Settled (e ∷ es) crashed n s = absurd s
then_play-Settled (e ∷ es) (goes g) n s =
    then_play-Settled es (play e g) n.1 (play-Settled e g n.0 s)

-- From the start of a game, in whatever order the players type lines without zero bytes and read
-- messages: no move is written outside a board, never both players have the turn, and the boards
-- agree, up to one move on its way from the player who has made it to a blank cell.
pub new_game-Settled : (es : List Event) → AllTyped es → Settled (then_play es (goes new_game))
unfolding new_game joined
new_game-Settled es n = then_play-Settled es (goes new_game) n (
    x_turn
      (record {
        opponents = record { mine = refl; yours = refl; in_game = refl; also_in_game = refl };
        turn = refl;
        waits = refl;
        same_board = refl;
      })
      refl refl)
