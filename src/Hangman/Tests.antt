-- ===== src/Hangman/Tests.antt =====
-- The theorems on training/spanzuratoarea at concrete games.
use protocoale.Base.{ℕ, ◌<◌, ◌≡◌, refl, arith, true, false, ◌||◌, some, [], ◌∷◌, ◌==◌}
use protocoale.Base.Int.{pos}
use protocoale.Hangman.Scan.{String}
use protocoale.Hangman.{Server, guess_letter, on_data}
use protocoale.Hangman.Letters.{widths}
use protocoale.Hangman.Answers.{Answered, guess_letter-Answered}
use protocoale.Hangman.Game.{game, won, game-all_guessed}
use protocoale.Hangman.Setting.{Keeps, on_data-Keeps}

-- Sockets 4 and 5 have come, and nobody has chosen a word.
abbrev fresh : Server
fresh = record {
  online = pos 2;
  first_client = some 4;
  cuvant_ales = false;
  ghiceste = [];
  ghicit = λ i. 7;
  read_fds = λ i. (i == 0) || ((i == 3) || ((i == 4) || (i == 5)));
  fdmax = 5;
}

-- "abababababab" has each letter six times.
abbrev ababab : String
ababab = b'a' ∷ b'b' ∷ b'a' ∷ b'b' ∷ b'a' ∷ b'b' ∷ b'a' ∷ b'b' ∷ b'a' ∷ b'b' ∷ b'a' ∷ b'b' ∷ []

few_each : (litera : ℕ) → widths ababab litera 0 < 16
few_each litera = ground arith

game-all_guessed_example :
    won (game fresh 4 ababab ((5, b'z') ∷ (5, b'b') ∷ (5, b'a') ∷ [])) ≡ some true
game-all_guessed_example =
    game-all_guessed 4 ababab (omega arith) few_each fresh ((5, b'z') ∷ (5, b'b') ∷ (5, b'a') ∷ [])
      refl refl (ground arith) (omega arith) (omega arith) (ground arith)

-- "aaaaaaaaaa"
abbrev all_a : Server
all_a = record fresh {
  cuvant_ales = true;
  ghiceste = b'a' ∷ b'a' ∷ b'a' ∷ b'a' ∷ b'a' ∷ b'a' ∷ b'a' ∷ b'a' ∷ b'a' ∷ b'a' ∷ [];
}

guess_letter-Answered_example : Answered all_a 5 b'a' (guess_letter all_a 5 b'a')
guess_letter-Answered_example =
    guess_letter-Answered all_a 5 b'a' refl (λ e. omega arith) (omega arith)

on_data-Keeps_example : Keeps fresh 5 (on_data fresh 5 (some (b's' ∷ b'e' ∷ b't' ∷ [])))
on_data-Keeps_example = on_data-Keeps fresh 5 (some (b's' ∷ b'e' ∷ b't' ∷ []))
