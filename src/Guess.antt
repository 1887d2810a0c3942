-- ===== src/Guess.antt =====
-- training/practic/server.cpp: the first player chooses a number, and the others guess it.
-- `boost::split` is the parameter `split`.
pub mod Atoi
pub mod Players
pub mod Game
mod Tests
use protocoale.Base.{
  ℕ, zero, suc, ◌+◌, Bool, true, false, not, Option, none, some, List, [], ◌∷◌, map, ltb, leb, ◌==◌,
  if◌then◌else◌, ◌||◌,
}
use protocoale.Base.Int.{ℤ, pos, negsuc, incremented, decremented, eq_ℤ, ltb_ℤ}
use protocoale.Select.{watch, higher, first_of, is_first, close_all_sock}
use protocoale.Text.{same_text, starts_with, string_in}
use protocoale.Hangman.Scan.{String}
use protocoale.Guess.Atoi.{atoi}

-- The variables of `main`; `none` is a `first_player` of -1.
pub record Server : Type 0 where
  pub first_player : Option ℕ
  pub guess_number : ℤ
  pub players : List ℕ
  pub no_clients : ℤ
  pub read_fds : ℕ → Bool
  pub fdmax : ℕ

abbrev pub start : (sockfd : ℕ) → Server
start sockfd = record {
  first_player = none;
  guess_number = negsuc 0;
  players = [];
  no_clients = pos 0;
  read_fds = λ i. (i == sockfd) || (i == 0);
  fdmax = sockfd;
}

abbrev pub buflen : ℕ
buflen = 1024

-- "set "
abbrev pub set_text : String
set_text = b's' ∷ b'e' ∷ b't' ∷ 32 ∷ []

-- "WRONG!"
abbrev pub wrong : String
wrong = b'W' ∷ b'R' ∷ b'O' ∷ b'N' ∷ b'G' ∷ b'!' ∷ []

-- "Felicitari! Numarul a fost ghicit! Ne revedem curand!\n"
abbrev pub right : String
right =
    b'F' ∷ b'e' ∷ b'l' ∷ b'i' ∷ b'c' ∷ b'i' ∷ b't' ∷ b'a' ∷ b'r' ∷ b'i' ∷ b'!' ∷ 32 ∷ b'N' ∷ b'u'
    ∷ b'm' ∷ b'a' ∷ b'r' ∷ b'u' ∷ b'l' ∷ 32 ∷ b'a' ∷ 32 ∷ b'f' ∷ b'o' ∷ b's' ∷ b't' ∷ 32 ∷ b'g'
    ∷ b'h' ∷ b'i' ∷ b'c' ∷ b'i' ∷ b't' ∷ b'!' ∷ 32 ∷ b'N' ∷ b'e' ∷ 32 ∷ b'r' ∷ b'e' ∷ b'v' ∷ b'e'
    ∷ b'd' ∷ b'e' ∷ b'm' ∷ 32 ∷ b'c' ∷ b'u' ∷ b'r' ∷ b'a' ∷ b'n' ∷ b'd' ∷ b'!' ∷ 10 ∷ []

-- "CHOOSED"
abbrev pub choosed : String
choosed = b'C' ∷ b'H' ∷ b'O' ∷ b'O' ∷ b'S' ∷ b'E' ∷ b'D' ∷ []

-- "ACCESS"
abbrev pub access : String
access = b'A' ∷ b'C' ∷ b'C' ∷ b'E' ∷ b'S' ∷ b'S' ∷ []

-- A round for one descriptor that is ready. The server has sent these bytes to these sockets and
-- closed these descriptors, and goes on or leaves its loop; or a call of it has failed and it exits;
-- or it accesses memory outside an object.
pub data Round : Type 0 where
  next : Server → (sent : List (ℕ × String)) → (closed : List ℕ) → Round
  stops : (sent : List (ℕ × String)) → (closed : List ℕ) → Round
  exits : Round
  fault : Round

unfoldable pub send_to_all_players : (players : List ℕ) → String → List (ℕ × String)
send_to_all_players players msg = map (λ player. (player, msg)) players

-- `players.push_back(newsockfd)`.
unfoldable pub push_player : List ℕ → ℕ → List ℕ
push_player [] newsockfd = newsockfd ∷ []
push_player (p ∷ ps) newsockfd = p ∷ push_player ps newsockfd

-- A connection; `none` is a failed `accept`.
unfoldable pub on_connection : Server → (newsockfd : Option ℕ) → Round
on_connection s none = exits
on_connection s (some newsockfd) =
    next
      (record s {
        no_clients = incremented s.no_clients;
        first_player = first_of s.first_player newsockfd;
        read_fds = watch s.read_fds newsockfd true;
        fdmax = higher s.fdmax newsockfd;
        players = push_player s.players newsockfd;
      })
      (if ltb_ℤ (pos 0) s.guess_number then (newsockfd, choosed) ∷ [] else []) []

-- The loop that erases a player. `skip` holds in the round behind an erasure, whose player has moved to
-- a place that the loop has passed.
unfoldable pub erase_from : (i : ℕ) → (skip : Bool) → (players : List ℕ) → List ℕ
erase_from i skip [] = []
erase_from i true (p ∷ ps) = p ∷ erase_from i false ps
erase_from i false (p ∷ ps) =
    let erased = erase_from i true ps in
    let kept = p ∷ erase_from i false ps in if p == i then erased else kept

unfoldable pub on_close : Server → (i : ℕ) → Round
on_close s i =
    if is_first s.first_player i
    then stops [] (close_all_sock s.read_fds s.fdmax)
    else next
        (record s {
          players = erase_from i false s.players;
          no_clients = decremented s.no_clients;
          read_fds = watch s.read_fds i false;
        })
        [] (i ∷ [])

-- `tokenize`: the second word, if there is one; `none` is a read behind `results`.
unfoldable pub tokenize : (results : List String) → Option String
tokenize [] = none
tokenize (s1 ∷ []) = some []
tokenize (s1 ∷ s2 ∷ more) = some s2

unfoldable pub set_number : Server → (i : ℕ) → Option String → Round
set_number s i none = fault
set_number s i (some s2) =
    if is_first s.first_player i
    then next (record s { guess_number = atoi s2 }) (send_to_all_players s.players choosed) []
    else next s ((i, access) ∷ []) []

unfoldable pub guess : Server → (i : ℕ) → (buffer : String) → Round
guess s i buffer =
    if is_first s.first_player i
    then next s [] []
    else if eq_ℤ (atoi buffer) s.guess_number
    then stops (send_to_all_players s.players right) (close_all_sock s.read_fds s.fdmax)
    else next s ((i, wrong) ∷ []) []

abbrev pub with_string : (split : String → List String) → Server → (i : ℕ) → Option String → Round
with_string split s i none = fault
with_string split s i (some buffer) =
    if starts_with buffer set_text
    then set_number s i (tokenize (split buffer))
    else guess s i buffer

-- Data on the socket of a client; no data means that it has closed, and `none` that `recv` failed.
unfoldable pub on_data :
    (split : String → List String) → Server → (i : ℕ) → (received : Option (List ℕ)) → Round
on_data split s i none = exits
on_data split s i (some []) = on_close s i
on_data split s i (some (c ∷ cs)) = with_string split s i (string_in buflen (c ∷ cs))

-- "quit\n"
abbrev pub quit : String
quit = b'q' ∷ b'u' ∷ b'i' ∷ b't' ∷ 10 ∷ []

-- A line from the keyboard; what is printed is not part of the model.
unfoldable pub on_keyboard : Server → (line : String) → Round
on_keyboard s line =
    if same_text line quit then next s [] (close_all_sock s.read_fds s.fdmax) else next s [] []

-- What is ready.
pub data Event : Type 0 where
  connection : (newsockfd : Option ℕ) → Event
  data_on : (i : ℕ) → (received : Option (List ℕ)) → Event
  typed : (line : String) → Event

abbrev pub on_event : (split : String → List String) → Server → Event → Round
on_event split s (connection newsockfd) = on_connection s newsockfd
on_event split s (data_on i received) = on_data split s i received
on_event split s (typed line) = on_keyboard s line
