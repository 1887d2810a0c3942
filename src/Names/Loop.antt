-- ===== src/Names/Loop.antt =====
-- training/dns_server/server.cpp: the loop over `select`, with the descriptors that it watches.
pub mod Watched
use protocoale.Base.{
  ℕ, zero, suc, ◌+◌, ◌-◌, Bool, true, false, ◌||◌, Option, none, some, List, [], ◌∷◌, ltb, ◌==◌,
  if◌then◌else◌,
}
use protocoale.Base.Int.{ℤ, pos, incremented, decremented}
use protocoale.Select.{watch, higher, close_all_sock}
use protocoale.Http.Text.{◌>>=◌}
use protocoale.Text.{same_text}
use protocoale.Names.{String, Tables, no_tables, Served, serves, fault, serve}

pub record Server : Type 0 where
  pub tables : Tables
  pub read_fds : ℕ → Bool
  pub fdmax : ℕ
  pub no_clients : ℤ

abbrev pub start : (sockfd : ℕ) → Server
start sockfd = record {
  tables = no_tables;
  read_fds = λ i. (i == sockfd) || (i == 0);
  fdmax = sockfd;
  no_clients = pos 0;
}

-- A round for one descriptor that is ready. The server goes on, after it has sent these blocks to the
-- client and closed these descriptors; or it exits; or it accesses memory outside an object.
pub data Round : Type 0 where
  next : Server → (sent : List (List ℕ)) → (closed : List ℕ) → Round
  exits : Round
  broken : Round

-- The listening socket is ready; `none` is a failed `accept`.
unfoldable pub on_connection : Server → (newsockfd : Option ℕ) → Round
on_connection s none = exits
on_connection s (some newsockfd) =
    next
      (record s {
        read_fds = watch s.read_fds newsockfd true;
        fdmax = higher s.fdmax newsockfd;
        no_clients = incremented s.no_clients;
      })
      [] []

abbrev pub after : Server → Served → Round
after s (serves t sent) = next (record s { tables = t }) sent []
after s fault = broken

-- The socket `i` of a client is ready; `none` is a failed `recv`.
unfoldable pub on_data :
    (split : String → List String) → Server → (i : ℕ) → (received : Option (List ℕ)) → Round
on_data split s i none = exits
on_data split s i (some []) =
    next (record s { no_clients = decremented s.no_clients; read_fds = watch s.read_fds i false })
      [] (i ∷ [])
on_data split s i (some (c ∷ cs)) = after s (serve split s.tables (c ∷ cs))

-- "quit\n"
abbrev pub quit : String
quit = b'q' ∷ b'u' ∷ b'i' ∷ b't' ∷ 10 ∷ []

-- A line from the keyboard; what is printed is not part of the model.
unfoldable pub on_keyboard : Server → (line : String) → Round
on_keyboard s line =
    if same_text line quit then next s [] (close_all_sock s.read_fds s.fdmax) else next s [] []

-- What is ready, one after the other.
pub data Event : Type 0 where
  connection : (newsockfd : Option ℕ) → Event
  data_on : (i : ℕ) → (received : Option (List ℕ)) → Event
  typed : (line : String) → Event

unfoldable pub on_event : (split : String → List String) → Server → Event → Round
unfolding on_connection
on_event split s (connection newsockfd) = on_connection s newsockfd
on_event split s (data_on i received) = on_data split s i received
on_event split s (typed line) = on_keyboard s line

abbrev pub state_of : Round → Option Server
state_of (next s sent closed) = some s
state_of exits = none
state_of broken = none

-- The server behind some events, `none` if it has come to its end.
abbrev pub run : (split : String → List String) → Server → List Event → Option Server
run split s [] = some s
run split s (e ∷ more) = do s' ← state_of (on_event split s e); run split s' more
