-- ===== src/Hangman/Answers.antt =====
-- What the players are told about a guess.
use protocoale.Base.{
  ℕ, ◌≤◌, ◌<◌, ◌≡◌, ◌≢◌, ◌∙◌, refl, sym, subst, arith, true, false, some, [], ◌∷◌, ◌++◌, length,
  if◌then◌else◌, Bool-cases, Option-cases, inl, inr,
}
use protocoale.Select.Closing.{is_among}
use protocoale.Hangman.Scan.{String}
use protocoale.Hangman.{
  Server, Round, next, stops, exits, fault, Marked, all_found, guess_letter, guessed, announcement,
  send_all, gresit, felicitari,
}
use protocoale.Hangman.Sending.{ToldAll, send_all-ToldAll, send_twice-ToldAll}
use protocoale.Hangman.Letters.{widths, positions}
use protocoale.Hangman.Guesses.{marked, overflows, found_as, nothing_guessed, guess_letter-chosen}

-- The text about a letter that is found.
abbrev pub found_text : (word : String) → (litera : ℕ) → String
found_text word litera = announcement litera ++ positions word litera 0

-- The text at the end of the game.
abbrev pub end_text : (word : String) → String
end_text word = felicitari ++ word ++ 10 ∷ []

-- What is sent after a guess: to all if the word has the letter, and only to the player if not. The
-- positions take less than 16 bytes, unless the guess writes behind the text.
abbrev pub Answered : Server → (i litera : ℕ) → Round → Type 0
Answered s i litera (next s' sent) =
    (widths s.ghiceste litera 0 < 16)
    × (if is_among litera s.ghiceste
        then ToldAll s (found_text s.ghiceste litera ∷ []) sent
        else sent ≡ (i, gresit) ∷ [])
Answered s i litera (stops s' sent) =
    (widths s.ghiceste litera 0 < 16)
    × (is_among litera s.ghiceste ≡ true)
    × ToldAll s (found_text s.ghiceste litera ∷ end_text s.ghiceste ∷ []) sent
Answered s i litera exits = ⊥
Answered s i litera fault = 16 ≤ widths s.ghiceste litera 0

guessed-Answered :
    (s : Server) (i litera : ℕ) (m : Marked)
    → widths s.ghiceste litera 0 < 16
    → m.stare_litera ≡ is_among litera s.ghiceste
    → m.poz_litere_gasite ≡ found_text s.ghiceste litera
    → Answered s i litera (guessed s i (some m))
unfolding guessed
guessed-Answered s i litera m fits state told = elim (Bool-cases m.stare_litera) [
  | inr nowhere ↦
      let absent : is_among litera s.ghiceste ≡ false = sym state ∙ nowhere in
      rw (nowhere, Answered) (fits, rw absent refl)
  | inl somewhere ↦
      let present : is_among litera s.ghiceste ≡ true = sym state ∙ somewhere in
      elim (Bool-cases (all_found s.ghiceste m.ghicit 0)) [
        | inl done ↦
            rw (somewhere, done, Answered)
              (
                fits,
                present,
                subst
                    (λ t.
                      ToldAll s (found_text s.ghiceste litera ∷ end_text s.ghiceste ∷ [])
                        (send_all s t ++ send_all s (end_text s.ghiceste)))
                    (sym told)
                    (send_twice-ToldAll s (found_text s.ghiceste litera) (end_text s.ghiceste)),
              )
        | inr missing ↦
            rw (somewhere, missing, Answered)
              (
                fits,
                rw present (
                    subst (λ t. ToldAll s (found_text s.ghiceste litera ∷ []) (send_all s t))
                      (sym told) (send_all-ToldAll s (found_text s.ghiceste litera))),
              )
      ]
]

-- A guess of a letter, once there is a word of at most 25 bytes, writes behind the text if the
-- positions of the letter take 16 bytes or more. If not, each watched socket from 4 to `fdmax` is told
-- the positions of the letter once and no other socket anything, or the player alone is told that the
-- word does not have it; and when the game stops, the same sockets are congratulated after that.
pub guess_letter-Answered :
    (s : Server) (i litera : ℕ)
    → s.cuvant_ales ≡ true
    → litera ≢ 0
    → length s.ghiceste ≤ 25
    → Answered s i litera (guess_letter s i litera)
guess_letter-Answered s i litera chosen letter short = elim (Option-cases (marked s litera)) [
  | inl over ↦
      rw (guess_letter-chosen s i litera chosen, over, nothing_guessed s i)
        (overflows s litera letter (omega arith) over)
  | inr (m, e) ↦
      let (fits, state, told, cells) = found_as s litera letter (omega arith) m e in
      rw (guess_letter-chosen s i litera chosen, e) (guessed-Answered s i litera m fits state told)
]
