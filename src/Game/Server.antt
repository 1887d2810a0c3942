-- ===== src/Game/Server.antt =====
-- training/x_si_0/server.c: the server pairs the players, and passes on what one of a pair sends to
-- the other.
pub mod Pairs
pub mod Joining
use protocoale.Base.{
  ℕ, zero, suc, ◌+◌, Bool, true, false, Option, none, some, List, [], ◌∷◌, length, take, ltb, ◌==◌,
  ◌||◌, ◌&&◌, not, if◌then◌else◌,
}
use protocoale.Base.Int.{ℤ, pos, negsuc}
use protocoale.Select.{watch}
use protocoale.Text.{text}

pub record Player : Type 0 where
  pub player1 : ℕ
  pub player2 : ℕ

-- The array `p` of 25 games, `j` full games, whether a player waits for a partner (`k`), and the
-- descriptors in `read_fds`. What a cell holds before it is written is not specified.
pub record Server : Type 0 where
  pub p : ℕ → Player
  pub j : ℕ
  pub k : Bool
  pub read_fds : ℕ → Bool

abbrev pub max_games : ℕ
max_games = 25

abbrev pub buflen : ℕ
buflen = 10

-- The loop from `i` on, with `left` games to look at.
unfoldable pub find_from : (sockfd : ℕ) → (players : ℕ → Player) → (left i : ℕ) → ℤ
find_from sockfd players zero i = negsuc 0
find_from sockfd players (suc left) i =
    if ((players i).player1 == sockfd) || ((players i).player2 == sockfd)
    then pos i
    else find_from sockfd players left (i + 1)

unfoldable pub find_game : (sockfd : ℕ) → (players : ℕ → Player) → (len : ℕ) → ℤ
find_game sockfd players len = find_from sockfd players len 0

-- A round for one descriptor: the server goes on or exits, after it has sent these bytes to these
-- sockets; or it accesses memory outside an array.
pub data Round : Type 0 where
  next : Server → (sent : List (ℕ × List ℕ)) → Round
  exits : (sent : List (ℕ × List ℕ)) → Round
  fault : Round

abbrev pub set_game : (ℕ → Player) → ℕ → Player → ℕ → Player
set_game p j game i = if i == j then game else p i

-- The second player of a game has come: both are told their symbols, `x` and `z`.
unfoldable pub second_player : Server → (newsockfd : ℕ) → Round
second_player s newsockfd =
    let game = record (s.p s.j) { player2 = newsockfd } in
    next
      (record s {
        p = set_game s.p s.j game;
        j = s.j + 1;
        k = false;
        read_fds = watch s.read_fds newsockfd true;
      })
      ((game.player1, b'x' ∷ []) ∷ (newsockfd, b'z' ∷ []) ∷ [])

unfoldable pub first_player : Server → (newsockfd : ℕ) → Round
first_player s newsockfd =
    let game = record (s.p s.j) { player1 = newsockfd } in
    next
      (record s { p = set_game s.p s.j game; k = true; read_fds = watch s.read_fds newsockfd true })
      []

-- A connection; `accept` that fails ends the server, after the waiting player has been told `x`.
unfoldable pub on_connection : Server → (newsockfd : Option ℕ) → Round
on_connection s none =
    if not (ltb s.j max_games)
    then fault
    else if s.k
    then exits (((s.p s.j).player1, b'x' ∷ []) ∷ [])
    else exits []
on_connection s (some newsockfd) =
    if not (ltb s.j max_games)
    then fault
    else if s.k
    then second_player s newsockfd
    else first_player s newsockfd

-- The bytes before the terminator in a buffer of BUFLEN bytes that held zeros; `none` is a read
-- behind the buffer.
unfoldable pub text_of : (received : List ℕ) → Option (List ℕ)
text_of received =
    if ltb (length (text (take buflen received))) buflen
    then some (text (take buflen received))
    else none

-- The message goes to the partner. Then, if the peer has closed, both are closed.
unfoldable pub pass_on : Server → (i : ℕ) → (game : Player) → (peer_closed : Bool) → List ℕ → Round
pass_on s i game peer_closed message =
    let partner = if game.player1 == i then game.player2 else game.player1 in
    let fds = watch (watch s.read_fds game.player1 false) game.player2 false in
    next (record s { read_fds = if peer_closed then fds else s.read_fds }) ((partner, message) ∷ [])

unfoldable pub at_index : Server → (i : ℕ) → List ℕ → Option (List ℕ) → ℤ → Round
at_index s i received message (negsuc n) = fault
at_index s i received none (pos index) = fault
at_index s i received (some message) (pos index) =
    pass_on s i (s.p index) (length received == 0) message

-- Data on the socket `i`; no data means that the peer has closed, and `none` that `recv` has failed.
unfoldable pub on_data : Server → (i : ℕ) → (received : Option (List ℕ)) → Round
on_data s i none = exits []
on_data s i (some received) = at_index s i received (text_of received) (find_game i s.p s.j)
