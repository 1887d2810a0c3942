-- ===== src/Hangman/Game.antt =====
-- A game from the choice of the word on, message by message.
use protocoale.Base.{
  ℕ, zero, suc, ◌≤◌, ◌<◌, ◌≡◌, ◌≢◌, ◌∙◌, refl, lt→ltb, ap, sym, subst, arith, Bool, true, false,
  ◌||◌, Option, none, some, List, [], ◌∷◌, ◌++◌, length, ltb, if◌then◌else◌,
}
use protocoale.Select.Closing.{is_among}
use protocoale.Text.{starts_with, string_in}
use protocoale.Text.Prefix.{Without, string_in-Without}
use protocoale.Select.{is_first}
use protocoale.Hangman.Scan.{
  String, is_space, skip_spaces, token, behind_token, second, scan, scanned_word,
}
use protocoale.Hangman.{
  Server, Round, next, stops, exits, fault, buflen, set_text, guess_text, clear, set_word,
  guess_letter, on_command, on_data,
}
use protocoale.Hangman.Letters.{widths}
use protocoale.Hangman.Guesses.{all_guessed, with_letter, IsGuessing, Guessed, guess_letter-Guessed}

-- A word has no white space and no zero.
abbrev pub IsWord : String → Type 0
IsWord [] = Unit {0}
IsWord (c ∷ cs) = (is_space c ≡ false) × (c ≢ 0) × IsWord cs

token-IsWord : (s : String) → IsWord s → token s ≡ s
unfolding token
token-IsWord [] h = refl
token-IsWord (c ∷ cs) (space, nul, h) = rw space (ap (λ r. c ∷ r) (token-IsWord cs h))

Without-IsWord : (s : String) → IsWord s → Without 0 s
Without-IsWord [] h = tt
Without-IsWord (c ∷ cs) (space, nul, h) = (nul, Without-IsWord cs h)

-- The messages of the players: `set` and a word, `guess` and a letter.
abbrev pub set_message : String → List ℕ
set_message word = set_text ++ 32 ∷ word

abbrev pub guess_message : (litera : ℕ) → List ℕ
guess_message litera = guess_text ++ 32 ∷ litera ∷ []

scan-set_message :
    (word : String)
    → IsWord word
    → 0 < length word
    → length word < 50
    → scan (set_message word) ≡ second word
unfolding scan skip_spaces token behind_token
scan-set_message [] h some_letter short = absurd (omega arith)
scan-set_message (c ∷ cs) (space, nul, h) some_letter short =
    let begins : skip_spaces (32 ∷ c ∷ cs) ≡ c ∷ cs = rw space refl in
    let fits = lt→ltb (length (c ∷ cs)) 50 short in
    ap (λ t. scanned_word (token t)) begins
    ∙ ap scanned_word (token-IsWord (c ∷ cs) (space, nul, h))
    ∙ rw (fits, scanned_word) refl

abbrev chosen : Server → String → Server
chosen s word = record s {
  ghiceste = word;
  cuvant_ales = true;
  ghicit = clear s.ghicit (length word);
}

on_data-chosen :
    (s : Server) (first : ℕ) (word : String)
    → s.first_client ≡ some first
    → s.cuvant_ales ≡ false
    → IsWord word
    → 10 ≤ length word
    → length word ≤ 25
    → on_data s first (some (set_message word)) ≡ next (chosen s word) []
unfolding on_data on_command starts_with set_word
on_data-chosen s first word f free h ten most =
    let whole : string_in buflen (set_message word) ≡ some (set_message word) =
      string_in-Without buflen (set_message word)
        (
          λ e. omega arith,
          (λ e. omega arith, (λ e. omega arith, (λ e. omega arith, Without-IsWord word h))),
        )
        (omega arith) in
    let test : is_first s.first_client first ≡ true = ground (arith, f) in
    let scanned = scan-set_message word h (omega arith) (omega arith) in
    let enough : (ltb (length word) 10 || ltb 25 (length word)) ≡ false = ground arith in
    rw (whole, test, scanned, free, enough) refl

clear-at : (ghicit : ℕ → ℕ) (n k : ℕ) → clear ghicit n k ≡ (if ltb k n then 0 else ghicit k)
unfolding clear
clear-at ghicit zero k = ground arith
clear-at ghicit (suc n) k = ground (arith, clear-at ghicit n k)

-- What follows a round, if the game goes on.
abbrev pub go_on : Round → (Server → Round) → Round
go_on (next s sent) f = f s
go_on (stops s sent) f = stops s sent
go_on exits f = exits
go_on fault f = fault

-- Guesses of sockets, one after the other; the rest is not read once the game has stopped.
abbrev pub play : Server → (guesses : List (ℕ × ℕ)) → Round
play s [] = next s []
play s ((i, litera) ∷ more) = go_on (on_data s i (some (guess_message litera))) (λ s'. play s' more)

-- The first client sets a word, and the others guess.
abbrev pub game : Server → (first : ℕ) → (word : String) → (guesses : List (ℕ × ℕ)) → Round
game s first word guesses =
    go_on (on_data s first (some (set_message word))) (λ s'. play s' guesses)

-- Whether a game has been won, if nothing went wrong.
abbrev pub won : Round → Option Bool
won (next s sent) = some false
won (stops s sent) = some true
won exits = none
won fault = none

abbrev pub letters : List (ℕ × ℕ) → List ℕ
letters [] = []
letters ((i, litera) ∷ more) = litera ∷ letters more

-- The others guess, and guess letters.
abbrev pub AllOthers : (first : ℕ) → List (ℕ × ℕ) → Type 0
AllOthers first [] = Unit {0}
AllOthers first ((i, litera) ∷ more) = (first ≢ i) × (litera ≢ 0) × AllOthers first more

on_data-guess_letter :
    (s : Server) (first i litera : ℕ)
    → s.first_client ≡ some first
    → first ≢ i
    → litera ≢ 0
    → on_data s i (some (guess_message litera)) ≡ guess_letter s i litera
unfolding on_data on_command starts_with
on_data-guess_letter s first i litera f other letter =
    let whole : string_in buflen (guess_message litera) ≡ some (guess_message litera) =
      string_in-Without buflen (guess_message litera) (ground (arith, letter)) (omega arith) in
    let test : is_first s.first_client i ≡ false = ground (arith, f) in rw (whole, test) refl

all_guessed-more :
    (known known' : ℕ → Bool) (word : String)
    → ((c : ℕ) → known c ≡ true → known' c ≡ true)
    → all_guessed known word ≡ true
    → all_guessed known' word ≡ true
all_guessed-more known known' [] h e = refl
all_guessed-more known known' (c ∷ word) h e =
    ground (arith, h c, all_guessed-more known known' word h)

all_guessed-ext :
    (known known' : ℕ → Bool) (word : String)
    → ((c : ℕ) → known c ≡ known' c)
    → all_guessed known word ≡ all_guessed known' word
all_guessed-ext known known' [] h = refl
all_guessed-ext known known' (c ∷ word) h = ground (arith, h c, all_guessed-ext known known' word h)

go_on-won :
    (s : Server) (word : String) (known : ℕ → Bool) (r : Round) (f : Server → Round) (answer : Bool)
    → Guessed s word known r
    → ((s' : Server)
        → IsGuessing s' word known
        → s'.first_client ≡ s.first_client
        → won (f s') ≡ some answer)
    → (all_guessed known word ≡ true → answer ≡ true)
    → won (go_on r f) ≡ some answer
go_on-won s word known (next s' sent) f answer (g, first) later done = later s' g first
go_on-won s word known (stops s' sent) f answer all later done = ap some (sym (done all))
go_on-won s word known exits f answer h later done = absurd h
go_on-won s word known fault f answer h later done = absurd h

abbrev known_by : (ℕ → Bool) → List ℕ → ℕ → Bool
known_by known ls c = known c || is_among c ls

none_guessed : (word : String) → 0 < length word → all_guessed (λ c. false) word ≡ false
none_guessed [] h = absurd (omega arith)
none_guessed (c ∷ word) h = refl

module _ (first : ℕ) (word : String) (short : length word < 99)
    (fits : (litera : ℕ) → widths word litera 0 < 16) where
  play-won :
      (guesses : List (ℕ × ℕ)) (s : Server) (known : ℕ → Bool)
      → s.first_client ≡ some first
      → IsGuessing s word known
      → AllOthers first guesses
      → won (play s guesses) ≡ some (all_guessed (known_by known (letters guesses)) word)
  play-won [] s known f g h =
      ap some
        (sym (all_guessed-ext (known_by known []) known word (λ c. ground arith) ∙ g.unfinished))
  play-won ((i, litera) ∷ more) s known f g (other, letter, h) =
      let known' = with_letter known litera in
      let guess =
        subst (λ w. Guessed s w known' (guess_letter s i litera)) g.choice
          (guess_letter-Guessed s i litera known
            (subst (λ w. IsGuessing s w known) (sym g.choice) g) letter
            (subst (λ w. length w < 99) (sym g.choice) short)
            (subst (λ w. widths w litera 0 < 16) (sym g.choice) (fits litera))) in
      let answer = all_guessed (known_by known (letters ((i, litera) ∷ more))) word in
      rw (on_data-guess_letter s first i litera f other letter) (
        go_on-won s word known' (guess_letter s i litera) (λ s'. play s' more) answer guess
          (λ s' g' same.
            play-won more s' known' (same ∙ f) g' h
            ∙ ap some (
                all_guessed-ext (known_by known' (letters more))
                  (known_by known (letters ((i, litera) ∷ more))) word (λ c. ground arith)))
          (all_guessed-more known' (known_by known (letters ((i, litera) ∷ more))) word
            (λ c e. ground arith)))

  -- On a server where no word was chosen, the first client sets one of 10 to 25 bytes without white
  -- space, of which no letter's positions take 16 bytes or more. Then other clients guess letters: the game
  -- has stopped if all letters of the word are among them and goes on if not, without a fault.
  pub game-all_guessed :
      (s : Server) (guesses : List (ℕ × ℕ))
      → s.first_client ≡ some first
      → s.cuvant_ales ≡ false
      → IsWord word
      → 10 ≤ length word
      → length word ≤ 25
      → AllOthers first guesses
      → won (game s first word guesses)
        ≡ some (all_guessed (λ c. is_among c (letters guesses)) word)
  game-all_guessed s guesses f free h ten most others =
      let s' = chosen s word in
      rw (on_data-chosen s first word f free h ten most) (
        play-won guesses s' (λ c. false) f
          (record {
            chosen = refl;
            choice = refl;
            cells = λ i below. ground (arith, clear-at s.ghicit (length word) i);
            unfinished = none_guessed word (omega arith);
          })
          others)
