-- ===== src/Guess/Game.antt =====
-- A game: the first player chooses numbers, and the others guess.
use protocoale.Base.{
  ℕ, ◌+◌, ◌<◌, ◌≡◌, ◌≢◌, ◌∙◌, refl, ap, arith, Bool, true, false, ◌||◌, Option, none, some, List,
  [], ◌∷◌, ◌++◌, length, if◌then◌else◌, Bool-cases, inl, inr,
}
use protocoale.Base.Int.{ℤ, IsInt, eq_ℤ}
use protocoale.Select.{close_all_sock}
use protocoale.Http.Text.{decimal}
use protocoale.Text.{starts_with}
use protocoale.Text.Prefix.{Without, string_in-Without}
use protocoale.Select.{is_first}
use protocoale.Hangman.Scan.{String}
use protocoale.Names.Split.{IsSplit, Parts-first, Parts-only}
use protocoale.Guess.Atoi.{atoi-decimal, decimal-Without, decimal-positive}
use protocoale.Guess.{
  Server, buflen, Round, next, stops, exits, fault, tokenize, set_number, guess, with_string,
  on_data, set_text, send_to_all_players, choosed, right, wrong,
}

-- The first player sets a number; another player guesses one.
pub data Move : Type 0 where
  chooses : (z : ℤ) → Move
  guesses : (i : ℕ) → (z : ℤ) → Move

-- The numbers fit into an `int`, the messages into the buffer, and the guesses are not the first
-- player's.
abbrev pub AllFit : (first : ℕ) → List Move → Type 0
AllFit first [] = Unit {0}
AllFit first (chooses z ∷ more) = IsInt z × (length (decimal z) + 4 < buflen) × AllFit first more
AllFit first (guesses i z ∷ more) =
    IsInt z × (first ≢ i) × (length (decimal z) < buflen) × AllFit first more

-- Whether a guess is the number that was set last before it, or `current` if none was.
abbrev pub hits : (current : ℤ) → List Move → Bool
hits current [] = false
hits current (chooses z ∷ more) = hits z more
hits current (guesses i z ∷ more) = eq_ℤ z current || hits current more

abbrev pub go_on : Round → (Server → Round) → Round
go_on (next s sent closed) f = f s
go_on (stops sent closed) f = stops sent closed
go_on exits f = exits
go_on fault f = fault

-- The moves one after the other, as messages; the rest is not read once the server has stopped.
abbrev pub play : (split : String → List String) → (first : ℕ) → Server → List Move → Round
play split first s [] = next s [] []
play split first s (chooses z ∷ more) =
    go_on (on_data split s first (some (set_text ++ decimal z))) (λ s'. play split first s' more)
play split first s (guesses i z ∷ more) =
    go_on (on_data split s i (some (decimal z))) (λ s'. play split first s' more)

-- Whether the server has stopped, if nothing went wrong.
abbrev pub stopped : Round → Option Bool
stopped (next s sent closed) = some false
stopped (stops sent closed) = some true
stopped exits = none
stopped fault = none

on_data-text :
    (split : String → List String) (s : Server) (i : ℕ) (text : String)
    → 0 < length text
    → Without 0 text
    → length text < buflen
    → on_data split s i (some text) ≡ with_string split s i (some text)
unfolding on_data
on_data-text split s i [] some_text nul fits = absurd (omega arith)
on_data-text split s i (c ∷ cs) some_text nul fits =
    ap (with_string split s i) (string_in-Without buflen (c ∷ cs) nul fits)

not_set : (text : String) → Without b's' text → starts_with text set_text ≡ false
unfolding starts_with
not_set [] h = refl
not_set (c ∷ cs) (other, h) = ground (arith, other)

module _ (split : String → List String) (law : IsSplit split) (first : ℕ) where
  number_word : (z : ℤ) → tokenize (split (set_text ++ decimal z)) ≡ some (decimal z)
  unfolding tokenize
  number_word z =
      let (more, e, h) =
        Parts-first (b's' ∷ b'e' ∷ b't' ∷ []) (decimal z) _ (ground arith)
          (law.parts (set_text ++ decimal z)) in
      let last = Parts-only (decimal z) more (decimal-Without 32 z refl refl) h in rw (e, last) refl

  on_data-chooses :
      (s : Server) (z : ℤ)
      → s.first_player ≡ some first
      → IsInt z
      → length (decimal z) + 4 < buflen
      → (sent : List (ℕ × String)) × (on_data split s first (some (set_text ++ decimal z))
          ≡ next (record s { guess_number = z }) sent [])
  unfolding set_number starts_with
  on_data-chooses s z f small fits =
      let nul : Without 0 (set_text ++ decimal z) = (
        λ e. omega arith,
        (λ e. omega arith, (λ e. omega arith, (λ e. omega arith, decimal-Without 0 z refl refl))),
      ) in
      let test : is_first s.first_player first ≡ true = ground (arith, f) in
      let here =
        on_data-text split s first (set_text ++ decimal z) (omega arith) nul
          (omega (arith, fits)) in
      (
        send_to_all_players s.players choosed,
        here ∙ ap (set_number s first) (number_word z) ∙ rw (test, atoi-decimal z small) refl,
      )

  on_data-guesses :
      (s : Server) (i : ℕ) (z : ℤ)
      → s.first_player ≡ some first
      → first ≢ i
      → IsInt z
      → length (decimal z) < buflen
      → (sent : List (ℕ × String)) × (closed : List ℕ) × (on_data split s i (some (decimal z))
          ≡ (if eq_ℤ z s.guess_number then stops sent closed else next s sent closed))
  unfolding guess
  on_data-guesses s i z f other small fits =
      let test : is_first s.first_player i ≡ false = ground (arith, f) in
      let here =
        on_data-text split s i (decimal z) (decimal-positive z) (decimal-Without 0 z refl refl)
          fits in
      let plain = not_set (decimal z) (decimal-Without b's' z refl refl) in
      elim (Bool-cases (eq_ℤ z s.guess_number)) [
        | inl hit ↦ (
          send_to_all_players s.players right,
          close_all_sock s.read_fds s.fdmax,
          here ∙ rw (plain, test, atoi-decimal z small, hit) refl,
        )
        | inr miss ↦ ((i, wrong) ∷ [], [], here ∙ rw (plain, test, atoi-decimal z small, miss) refl)
      ]

  -- Once there is a first player, whatever numbers from -2^31 to 2^31 - 1 it sets and the others guess,
  -- in messages that fit into the buffer, the server stops exactly if a guess is the number that was set last before it;
  -- before any was set, the guess of `guess_number` as it was.
  pub play-hits :
      (moves : List Move) (s : Server)
      → s.first_player ≡ some first
      → AllFit first moves
      → stopped (play split first s moves) ≡ some (hits s.guess_number moves)
  play-hits [] s f h = refl
  play-hits (chooses z ∷ more) s f (small, fits, h) =
      let (sent, e) = on_data-chooses s z f small fits in
      ap (λ r. stopped (go_on r (λ s'. play split first s' more))) e
      ∙ play-hits more (record s { guess_number = z }) f h
  play-hits (guesses i z ∷ more) s f (small, other, fits, h) =
      let (sent, closed, e) = on_data-guesses s i z f other small fits in
      let rest = play-hits more s f h in
      ap (λ r. stopped (go_on r (λ s'. play split first s' more))) e ∙ ground (arith, rest)
