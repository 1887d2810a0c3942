-- ===== src/Game/Tests.antt =====
-- The theorems on training/x_si_0 at concrete games.
use protocoale.Base.{
  ℕ, ◌≡◌, inl, refl, arith, true, false, some, List, [], ◌∷◌, ◌==◌, if◌then◌else◌,
}
use protocoale.Game.Play.{Event, x_types, o_types, x_reads, o_reads, goes, then_play, new_game}
use protocoale.Game.Play.Agree.{Settled, new_game-Settled}
use protocoale.Game.Server.{
  Player, second_player, first_player, Server, text_of, on_connection, on_data,
}
use protocoale.Game.Server.Pairs.{IsPartner, IsPassedOn, on_data_pair}
use protocoale.Game.Server.Joining.{ArePaired, symbols, Reach, begins, joins, Reach-ArePaired}

-- x plays 0 0, o reads it and plays 1 1, and x reads that.
abbrev rounds : List Event
rounds =
    x_types (b'0' ∷ 32 ∷ b'0' ∷ 10 ∷ [])
    ∷ o_reads
    ∷ o_types (b'1' ∷ 32 ∷ b'1' ∷ 10 ∷ [])
    ∷ x_reads
    ∷ []

new_game-Settled_example : Settled (then_play rounds (goes new_game))
new_game-Settled_example = new_game-Settled rounds (
  (λ e. omega arith, (λ e. omega arith, (λ e. omega arith, (λ e. omega arith, tt)))),
  (
    tt,
    ((λ e. omega arith, (λ e. omega arith, (λ e. omega arith, (λ e. omega arith, tt)))), (tt, tt)),
  ),
)

-- Sockets 4 and 5 have played game 0 and left; 4 has come again, and plays with 8 in game 1.
abbrev reused : Server
reused = record {
  p = λ i.
      if i == 0 then record { player1 = 4; player2 = 5 } else record { player1 = 8; player2 = 4 };
  j = 2;
  k = false;
  read_fds = λ i. true;
}

-- What 4 sends goes to 5.
on_data_pair_example :
    (other : ℕ) × IsPartner (reused.p 0) 4 other
    × IsPassedOn reused (reused.p 0) other false (b'0' ∷ []) (on_data reused 4 (some (b'0' ∷ [])))
unfolding text_of
on_data_pair_example =
    on_data_pair reused 4 0 (b'0' ∷ []) (b'0' ∷ [])
      (omega arith, omega arith, inl refl, λ h p q. absurd (omega arith)) refl

abbrev no_players : ℕ → Player
no_players i = record { player1 = 0; player2 = 0 }

-- 4 and 5 have come, and then 6.
two_games :
    (s : Server) × Reach no_players
      (λ i. false)
      s
      (4 ∷ 5 ∷ 6 ∷ [])
      ((4, b'x' ∷ []) ∷ (5, b'z' ∷ []) ∷ [])
unfolding on_connection second_player first_player
two_games = (_, joins 6 (joins 5 (joins 4 begins refl) refl) refl)

Reach-ArePaired_example :
    ArePaired (4 ∷ 5 ∷ 6 ∷ []) 0 two_games.0.p two_games.0.j two_games.0.k
    × ((4, b'x' ∷ []) ∷ (5, b'z' ∷ []) ∷ [] ≡ symbols (4 ∷ 5 ∷ 6 ∷ []))
Reach-ArePaired_example =
    Reach-ArePaired no_players (λ i. false) two_games.0 (4 ∷ 5 ∷ 6 ∷ [])
      ((4, b'x' ∷ []) ∷ (5, b'z' ∷ []) ∷ []) two_games.1
