-- ===== src/Guess/Tests.antt =====
-- The theorems on training/practic at concrete games.
use protocoale.Base.{◌≡◌, refl, arith, true, some, [], ◌∷◌}
use protocoale.Base.Int.{pos, negsuc}
use protocoale.Http.Text.{decimal, digits}
use protocoale.Select.{watch}
use protocoale.Names.Split.Spaces.{split_at_spaces, split_at_spaces-IsSplit}
use protocoale.Guess.{Server, start, connection, on_connection, push_player}
use protocoale.Guess.Players.{IsPlayers, Reach, begins, goes, Reach-IsPlayers}
use protocoale.Guess.Game.{chooses, guesses, play, stopped, play-hits}

-- Sockets 4 and 5 have come.
abbrev two_players : Server
two_players = record {
  first_player = some 4;
  guess_number = negsuc 0;
  players = 4 ∷ 5 ∷ [];
  no_clients = pos 2;
  read_fds = watch (watch (start 3).read_fds 4 true) 5 true;
  fdmax = 5;
}

-- 5 guesses 8, 4 sets 7, and 5 guesses 7.
play-hits_example :
    stopped (
      play split_at_spaces 4 two_players
        (guesses 5 (pos 8) ∷ chooses (pos 7) ∷ guesses 5 (pos 7) ∷ []))
    ≡ some true
unfolding decimal digits
play-hits_example =
    play-hits split_at_spaces split_at_spaces-IsSplit 4
      (guesses 5 (pos 8) ∷ chooses (pos 7) ∷ guesses 5 (pos 7) ∷ []) two_players refl
      (
        omega arith,
        λ e. omega arith,
        omega arith,
        (omega arith, omega arith, (omega arith, λ e. omega arith, omega arith, tt)),
      )

two_players-Reach : Reach split_at_spaces 3 two_players
unfolding on_connection push_player
two_players-Reach =
    goes (connection (some 5))
      (goes (connection (some 4)) begins (refl, λ e. omega arith, λ e. omega arith) refl)
      (refl, λ e. omega arith, λ e. omega arith) refl

Reach-IsPlayers_example : IsPlayers 3 two_players
Reach-IsPlayers_example = Reach-IsPlayers split_at_spaces 3 two_players two_players-Reach
