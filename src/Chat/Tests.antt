-- ===== src/Chat/Tests.antt =====
-- The theorem on training/multi_chat at a concrete run.
use protocoale.Base.{◌≡◌, refl, arith, true, false, some, List, [], ◌∷◌}
use protocoale.Select.{watch}
use protocoale.Text.{string_in}
use protocoale.Chat.{
  Server, start, next, Arrival, client_of, add_client, on_connection, same_client, erase_clients,
  list_text, on_data, Event, connection, data_on,
}
use protocoale.Chat.Listed.{Run, here, goes, Run-arrived}

-- "ana" comes from 10.0.0.1 on socket 4, and leaves.
abbrev ana : Arrival
ana = record {
  newsockfd = 4;
  ip = b'1' ∷ b'0' ∷ 46 ∷ b'0' ∷ 46 ∷ b'0' ∷ 46 ∷ b'1' ∷ [];
  port = 5000;
  user = b'a' ∷ b'n' ∷ b'a' ∷ [];
}

abbrev events : List Event
events = connection (some ana) ∷ data_on 4 (some []) ∷ []

abbrev behind : Server
behind = record {
  clients = client_of ana (b'a' ∷ b'n' ∷ b'a' ∷ []) ∷ [];
  read_fds = watch (watch (start 3).read_fds 4 true) 4 false;
  fdmax = 4;
}

behind-Run : Run (start 3) events behind
unfolding on_connection add_client on_data erase_clients same_client string_in
behind-Run = goes refl (goes refl here)

-- Socket 5 is told of ana.
Run-arrived_example :
    on_data behind 5 (some list_text)
    ≡ next behind ((5, client_of ana (b'a' ∷ b'n' ∷ b'a' ∷ [])) ∷ [])
unfolding string_in
Run-arrived_example = Run-arrived 3 events behind 5 behind-Run (omega arith, tt)
