-- ===== src/Game/Client.antt =====
-- training/x_si_0/client.c: a player. What it prints is not part of the model.
pub mod Board
pub mod Moves
use protocoale.Base.{
  ℕ, zero, suc, ◌+◌, ◌-◌, Bool, true, false, not, ◌&&◌, ◌||◌, List, [], ◌∷◌, ltb, leb, ◌==◌,
  if◌then◌else◌,
}
use protocoale.Text.{text, same_text}

abbrev pub x : ℕ
x = 1

abbrev pub o : ℕ
o = 0

abbrev pub blank : ℕ
blank = 3

abbrev pub board_size : ℕ
board_size = 3

abbrev pub Board : Type 0
Board = ℕ → ℕ → ℕ

-- The variables of `main` that live from one round to the next.
pub record Client : Type 0 where
  pub symbol : ℕ
  pub in_game : Bool
  pub turn : Bool
  pub board : Board

abbrev pub new_client : Client
new_client = record { symbol = blank; in_game = false; turn = false; board = λ i j. blank }

-- `verify_finish`: whether a cell is blank, first in the rest of a row.
unfoldable pub verify_row : Board → (i left j : ℕ) → Bool
verify_row board i zero j = false
verify_row board i (suc left) j = (board i j == blank) || verify_row board i left (j + 1)

unfoldable pub verify_rows : Board → (left i : ℕ) → Bool
verify_rows board zero i = false
verify_rows board (suc left) i = verify_row board i board_size 0 || verify_rows board left (i + 1)

unfoldable pub verify_finish : Board → Bool
verify_finish board = verify_rows board board_size 0

-- `board[i][j] = value`.
unfoldable pub place : Board → (i j value : ℕ) → Board
place board i j value r c = if r == i && c == j then value else board r c

-- A byte of a buffer that was zeroed before it was filled.
abbrev pub byte : List ℕ → ℕ → ℕ
byte [] k = 0
byte (c ∷ cs) zero = c
byte (c ∷ cs) (suc k) = byte cs k

-- "exit\n"
abbrev pub exit_text : List ℕ
exit_text = 101 ∷ 120 ∷ 105 ∷ 116 ∷ 10 ∷ []

-- `0 <= c - '0' && c - '0' < 3`.
unfoldable pub is_index : ℕ → Bool
is_index c = leb b'0' c && ltb c (b'0' + board_size)

-- What a line from the keyboard leads to: nothing, the end of the game, or a message to the server.
pub data Key : Type 0 where
  ignored : Key
  exits : Key
  draw : Client → Key
  sends : Client → (message : List ℕ) → Key

-- The move is written down, and sent unless the board is full.
unfoldable pub moved : Client → (buffer : List ℕ) → (i j : ℕ) → Key
moved c buffer i j =
    let board = place c.board i j c.symbol in
    if verify_finish board
    then sends (record c { board = board; turn = false }) (text buffer)
    else draw (record c { board = board })

-- The branch of the keyboard; `buffer` is what `fgets` has put there.
unfoldable pub on_keyboard : Client → (buffer : List ℕ) → Key
on_keyboard c buffer =
    if same_text (text buffer) exit_text
    then exits
    else if not c.in_game
    then ignored
    else if not c.turn
    then ignored
    else if not (is_index (byte buffer 0) && is_index (byte buffer 2))
    then ignored
    else if not (c.board (byte buffer 0 - b'0') (byte buffer 2 - b'0') == blank)
    then ignored
    else moved c buffer (byte buffer 0 - b'0') (byte buffer 2 - b'0')

-- What a message from the server leads to; `fault` is a write outside the board.
pub data Received : Type 0 where
  plays : Client → Received
  closed : Received
  fault : Received

-- `!symbol`.
abbrev pub other_symbol : ℕ → ℕ
other_symbol zero = 1
other_symbol (suc n) = 0

unfoldable pub joined : Client → (first : ℕ) → Client
joined c first =
    if first == b'x'
    then record c { symbol = x; turn = true; in_game = true }
    else if first == b'z'
    then record c { symbol = o; turn = false; in_game = true }
    else record c { in_game = true }

-- `received` is `rec_msg`, 0 if the server has closed; a failed `recv` leaves `message` zeroed and
-- goes on.
unfoldable pub on_message : Client → (received : Bool) → (message : List ℕ) → Received
on_message c false message = closed
on_message c true message =
    if not c.in_game
    then plays (joined c (byte message 0))
    else if is_index (byte message 0) && is_index (byte message 2)
    then plays (record c {
      turn = true;
      board = place c.board (byte message 0 - b'0') (byte message 2 - b'0') (other_symbol c.symbol);
    })
    else fault
