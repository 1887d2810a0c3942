-- ===== src/Hangman/Setting.antt =====
-- Who may set the word, and when.
use protocoale.Base.{
  ℕ, ◌≤◌, ◌≡◌, ◌⊎◌, subst, sym, refl, arith, true, false, Option, none, some, List, [], ◌∷◌, length,
  inl, inr, Bool-cases,
}
use protocoale.Select.{is_first}
use protocoale.Hangman.Scan.{String, Scanned, overflow, too_few, second, scan}
use protocoale.Text.{string_in}
use protocoale.Hangman.Guesses.{guess_letter-chosen}
use protocoale.Hangman.{
  Server, Round, next, stops, exits, fault, Marked, set_word, guessed, guess_letter, on_command,
  with_string, on_data, buflen, byte, no_word,
}

-- The word is as before; or it was set by the first client, before there was one, and has 10 to 25
-- letters.
abbrev pub Kept : Server → (i : ℕ) → Server → Type 0
Kept s i s' =
    ((s'.ghiceste ≡ s.ghiceste) × (s'.cuvant_ales ≡ s.cuvant_ales))
    ⊎ ((s.cuvant_ales ≡ false)
        × (s'.cuvant_ales ≡ true)
        × (is_first s.first_client i ≡ true)
        × (10 ≤ length s'.ghiceste)
        × (length s'.ghiceste ≤ 25))

abbrev pub Keeps : Server → (i : ℕ) → Round → Type 0
Keeps s i (next s' sent) = Kept s i s'
Keeps s i (stops s' sent) = Kept s i s'
Keeps s i exits = Unit {0}
Keeps s i fault = Unit {0}

set_word-Keeps :
    (s : Server) (i : ℕ) (o : Scanned)
    → is_first s.first_client i ≡ true
    → Keeps s i (set_word s i o)
unfolding set_word
set_word-Keeps s i overflow h = tt
set_word-Keeps s i too_few h = ground arith
set_word-Keeps s i (second word) h = ground (arith, h)

guessed-Keeps : (s : Server) (i : ℕ) (o : Option Marked) → Keeps s i (guessed s i o)
unfolding guessed
guessed-Keeps s i none = tt
guessed-Keeps s i (some m) = ground arith

guess_letter-free :
    (s : Server) (i litera : ℕ)
    → s.cuvant_ales ≡ false
    → guess_letter s i litera ≡ next s ((i, no_word) ∷ [])
unfolding guess_letter
guess_letter-free s i litera h = ground (arith, h)

guess_letter-Keeps : (s : Server) (i litera : ℕ) → Keeps s i (guess_letter s i litera)
guess_letter-Keeps s i litera = elim (Bool-cases s.cuvant_ales) [
  | inl chosen ↦
      subst (Keeps s i) (sym (guess_letter-chosen s i litera chosen)) (guessed-Keeps s i _)
  | inr free ↦ subst (Keeps s i) (sym (guess_letter-free s i litera free)) (inl (refl, refl))
]

on_command-Keeps :
    (s : Server) (i : ℕ) (received buffer : String) → Keeps s i (on_command s i received buffer)
unfolding on_command
on_command-Keeps s i received buffer = elim (Bool-cases (is_first s.first_client i)) [
  | inl first ↦ ground (arith, first, set_word-Keeps s i (scan buffer) first)
  | inr other ↦ ground (arith, other, guess_letter-Keeps s i (byte received 6))
]

with_string-Keeps :
    (s : Server) (i : ℕ) (received : List ℕ) (o : Option String)
    → Keeps s i (with_string s i received o)
with_string-Keeps s i received none = tt
with_string-Keeps s i received (some buffer) = on_command-Keeps s i received buffer

-- Whatever a client sends, the word stays as it is, unless the client is the first one, no word was
-- chosen before, and the new word has 10 to 25 bytes.
pub on_data-Keeps :
    (s : Server) (i : ℕ) (received : Option (List ℕ)) → Keeps s i (on_data s i received)
unfolding on_data
on_data-Keeps s i none = tt
on_data-Keeps s i (some []) = ground arith
on_data-Keeps s i (some (c ∷ cs)) = with_string-Keeps s i (c ∷ cs) (string_in buflen (c ∷ cs))
