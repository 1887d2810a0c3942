-- ===== src/Names/Tests.antt =====
-- The theorems on training/dns_server at concrete messages.
use protocoale.Base.{◌≡◌, ℕ, refl, arith, true, false, not, ◌&&◌, some, List, [], ◌∷◌, map, ◌==◌}
use protocoale.Base.Int.{pos}
use protocoale.Select.{watch}
use protocoale.Select.Closing.{is_among}
use protocoale.Text.{same_text}
use protocoale.Names.{padded, no_tables}
use protocoale.Names.Split.Spaces.{split_at_spaces, split_at_spaces-IsSplit}
use protocoale.Names.History.{
  Addition, address, mail, address_of, addition_text, question_text, dialogue,
}
use protocoale.Names.History.Answers.{dialogue-due_reply}
use protocoale.Names.Loop.{
  Server, start, Event, connection, on_connection, on_data, data_on, typed, on_event, next, quit,
}
use protocoale.Names.Loop.Watched.{run-close_all_sock}

-- Two addresses and two mail servers of the host h.
abbrev history : List Addition
history =
    address (b'h' ∷ []) (b'1' ∷ [])
    ∷ mail (b'h' ∷ []) (b'm' ∷ [])
    ∷ address (b'h' ∷ []) (b'2' ∷ [])
    ∷ mail (b'h' ∷ []) (b'n' ∷ [])
    ∷ []

-- The addresses come as "12".
dialogue-due_reply_example :
    dialogue split_at_spaces no_tables
      (map addition_text history)
      (question_text (address_of (b'h' ∷ [])))
    ≡ some (padded (b'1' ∷ b'2' ∷ []) ∷ [])
unfolding same_text
dialogue-due_reply_example =
    dialogue-due_reply split_at_spaces split_at_spaces-IsSplit history (address_of (b'h' ∷ []))
      (ground arith) (ground arith)

-- Two clients come, and the first leaves.
abbrev events : List Event
events = connection (some 4) ∷ connection (some 5) ∷ data_on 4 (some []) ∷ []

abbrev behind : Server
behind = record {
  tables = no_tables;
  read_fds = watch (watch (watch (start 3).read_fds 4 true) 5 true) 4 false;
  fdmax = 5;
  no_clients = pos 1;
}

-- The client on socket 5 is not told that the server is closing.
run-close_all_sock_example :
    (closed : List ℕ) × (on_event split_at_spaces behind (typed quit) ≡ next behind [] closed)
    × ((fd : ℕ) → is_among fd closed ≡ (behind.read_fds fd && not (fd == 5)))
unfolding on_event on_connection on_data
run-close_all_sock_example = run-close_all_sock split_at_spaces 3 events behind refl
