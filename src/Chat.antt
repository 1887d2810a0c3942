-- ===== src/Chat.antt =====
-- training/multi_chat/server.cpp: the server keeps a list of its clients and sends it to those that
-- ask for it.
pub mod Listed
mod Tests
use protocoale.Base.{
  ℕ, ◌+◌, Bool, true, false, Option, none, some, List, [], ◌∷◌, ◌++◌, map, length, ltb, ◌==◌,
  if◌then◌else◌, ◌||◌,
}
use protocoale.Select.{watch, higher}
use protocoale.Text.{same_text, string_in}
use protocoale.Hangman.Scan.{String}

pub record Client : Type 0 where
  pub name : String
  pub ip : String
  pub port : ℕ
  pub sockfd : ℕ

abbrev pub buflen : ℕ
buflen = 256

pub record Server : Type 0 where
  pub clients : List Client
  pub read_fds : ℕ → Bool
  pub fdmax : ℕ

abbrev pub start : (sockfd : ℕ) → Server
start sockfd = record { clients = []; read_fds = λ i. i == sockfd; fdmax = sockfd }

-- A round for one descriptor that is ready. The server goes on after it has sent these entries to
-- this socket, a block for each; or a call of it has failed and it exits; or it accesses memory
-- outside an array.
pub data Round : Type 0 where
  next : Server → (sent : List (ℕ × Client)) → Round
  exits : Round
  fault : Round

-- What `accept` returns, the peer's address as `inet_ntoa` prints it, its port, and the first bytes
-- it sends, none if their `recv` has failed.
pub record Arrival : Type 0 where
  pub newsockfd : ℕ
  pub ip : String
  pub port : ℕ
  pub user : List ℕ

abbrev pub client_of : Arrival → (name : String) → Client
client_of a name = record { name = name; ip = a.ip; port = a.port; sockfd = a.newsockfd }

-- The two `strcpy` write into arrays of 12 and 30 bytes.
unfoldable pub add_client : Server → Arrival → (user_name : Option String) → Round
add_client s a none = fault
add_client s a (some name) =
    if ltb (length name) 30
    then next
        (record s {
          clients = s.clients ++ client_of a name ∷ [];
          read_fds = watch s.read_fds a.newsockfd true;
          fdmax = higher s.fdmax a.newsockfd;
        })
        []
    else fault

-- A connection; `none` is a failed `accept`.
unfoldable pub on_connection : Server → (arrival : Option Arrival) → Round
on_connection s none = exits
on_connection s (some a) =
    if ltb (length a.ip) 12 then add_client s a (string_in buflen a.user) else fault

-- `i == clients[k].sockfd == i`, which compares the result of the first test with `i`.
unfoldable pub same_client : (i : ℕ) → Client → Bool
same_client i c = (if i == c.sockfd then 1 else 0) == i

-- The loop that erases. `skip` holds in the round behind an erasure, whose client has moved to a place
-- that the loop has passed.
unfoldable pub erase_clients : (i : ℕ) → (skip : Bool) → (clients : List Client) → List Client
erase_clients i skip [] = []
erase_clients i true (c ∷ cs) = c ∷ erase_clients i false cs
erase_clients i false (c ∷ cs) =
    let erased = erase_clients i true cs in
    let kept = c ∷ erase_clients i false cs in if same_client i c then erased else kept

-- "LIST"
abbrev pub list_text : String
list_text = b'L' ∷ b'I' ∷ b'S' ∷ b'T' ∷ []

abbrev pub asked : Server → (i : ℕ) → Option String → Round
asked s i none = fault
asked s i (some buffer) =
    if same_text buffer list_text then next s (map (λ c. (i, c)) s.clients) else next s []

-- Data on the socket of a client; no data means that it has closed, and `none` that `recv` failed.
unfoldable pub on_data : Server → (i : ℕ) → (received : Option (List ℕ)) → Round
on_data s i none = exits
on_data s i (some []) =
    next
      (record s { clients = erase_clients i false s.clients; read_fds = watch s.read_fds i false })
      []
on_data s i (some (c ∷ cs)) = asked s i (string_in buflen (c ∷ cs))

pub data Event : Type 0 where
  connection : (arrival : Option Arrival) → Event
  data_on : (i : ℕ) → (received : Option (List ℕ)) → Event

abbrev pub on_event : Server → Event → Round
on_event s (connection arrival) = on_connection s arrival
on_event s (data_on i received) = on_data s i received
