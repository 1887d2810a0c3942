-- ===== src/Hangman/Guesses.antt =====
-- One guess of a letter.
use protocoale.Base.{
  ℕ, suc, ◌+◌, ◌≤◌, ◌<◌, ◌≡◌, ◌≢◌, ◌∙◌, refl, sym, subst, arith, Bool, true, false, not, ◌||◌, ◌&&◌,
  Option, none, some, [], ◌∷◌, ◌++◌, length, ◌==◌, if◌then◌else◌, Bool-cases, Option-cases, inl,
  inr,
}
use protocoale.Select.Closing.{is_among}
use protocoale.Hangman.Scan.{String}
use protocoale.Hangman.{
  Server, Round, next, stops, exits, fault, Marked, byte, mark, all_found, guess_letter, guessed,
  announcement,
}
use protocoale.Hangman.Letters.{widths, positions, MarkedAs, mark-MarkedAs, has_letter}

-- Whether all letters of a word are known.
abbrev pub all_guessed : (known : ℕ → Bool) → (word : String) → Bool
all_guessed known [] = true
all_guessed known (c ∷ word) = known c && all_guessed known word

-- The cells of a word from `k` on are 0 for the letters that are not known.
abbrev pub Shows : (ghicit : ℕ → ℕ) → (k : ℕ) → (known : ℕ → Bool) → (word : String) → Type 0
Shows ghicit k known word =
    (i : ℕ) → i < length word → (ghicit (k + i) == 0) ≡ not (known (byte word i))

all_found-all_guessed :
    (word : String) (ghicit : ℕ → ℕ) (k : ℕ) (known : ℕ → Bool)
    → Shows ghicit k known word
    → all_found word ghicit k ≡ all_guessed known word
unfolding all_found
all_found-all_guessed [] ghicit k known h = refl
all_found-all_guessed (c ∷ word) ghicit k known h =
    let here : (ghicit k == 0) ≡ not (known c) =
      subst (λ n. (ghicit n == 0) ≡ not (known c)) (omega arith) (h 0 (omega arith)) in
    let later = all_found-all_guessed word ghicit (k + 1) known (λ i below.
      let e : k + suc i ≡ k + 1 + i = omega arith in
      subst (λ n. (ghicit n == 0) ≡ not (known (byte word i))) e (h (suc i) (omega arith))) in
    ground (arith, here, later)

abbrev pub with_letter : (ℕ → Bool) → (litera : ℕ) → ℕ → Bool
with_letter known litera c = known c || (c == litera)

-- A letter that the word does not have leaves as many unknown.
all_guessed-other :
    (known : ℕ → Bool) (litera : ℕ) (word : String)
    → is_among litera word ≡ false
    → all_guessed (with_letter known litera) word ≡ all_guessed known word
all_guessed-other known litera [] h = refl
all_guessed-other known litera (c ∷ word) h = ground (arith, all_guessed-other known litera word)

-- A word was chosen, and is not yet known.
pub record IsGuessing (s : Server) (word : String) (known : ℕ → Bool) : Type 0 where
  pub chosen : s.cuvant_ales ≡ true
  pub choice : s.ghiceste ≡ word
  pub cells : Shows s.ghicit 0 known word
  pub unfinished : all_guessed known word ≡ false

-- The game goes on until all letters are known.
abbrev pub Guessed : Server → (word : String) → (known : ℕ → Bool) → Round → Type 0
Guessed s word known (next s' sent) = IsGuessing s' word known × (s'.first_client ≡ s.first_client)
Guessed s word known (stops s' sent) = all_guessed known word ≡ true
Guessed s word known exits = ⊥
Guessed s word known fault = ⊥

announcement-length : (litera : ℕ) → litera ≢ 0 → length (announcement litera) ≡ 24
announcement-length litera h = ground arith

abbrev pub marked : Server → (litera : ℕ) → Option Marked
marked s litera =
    mark s.ghiceste litera 0
      (record { ghicit = s.ghicit; stare_litera = false; poz_litere_gasite = announcement litera })

guessed-Guessed :
    (s : Server) (i litera : ℕ) (known : ℕ → Bool) (m : Marked)
    → IsGuessing s s.ghiceste known
    → m.stare_litera ≡ is_among litera s.ghiceste
    → Shows m.ghicit 0 (with_letter known litera) s.ghiceste
    → Guessed s s.ghiceste (with_letter known litera) (guessed s i (some m))
unfolding guessed
guessed-Guessed s i litera known m g found cells =
    let complete = all_found-all_guessed s.ghiceste m.ghicit 0 (with_letter known litera) cells in
    elim (Bool-cases m.stare_litera) [
      | inr nowhere ↦
          let same = all_guessed-other known litera s.ghiceste (sym found ∙ nowhere) in
          rw (nowhere, Guessed)
            (
              record {
                chosen = g.chosen;
                choice = refl;
                cells = cells;
                unfinished = same ∙ g.unfinished;
              },
              refl,
            )
      | inl somewhere ↦ elim (Bool-cases (all_found s.ghiceste m.ghicit 0)) [
        | inl done ↦ rw (somewhere, done, Guessed) (sym complete ∙ done)
        | inr missing ↦
            rw (somewhere, missing, Guessed)
              (
                record {
                  chosen = g.chosen;
                  choice = refl;
                  cells = cells;
                  unfinished = sym complete ∙ missing;
                },
                refl,
              )
      ]
    ]

pub guess_letter-chosen :
    (s : Server) (i litera : ℕ)
    → s.cuvant_ales ≡ true
    → guess_letter s i litera ≡ guessed s i (marked s litera)
unfolding guess_letter
guess_letter-chosen s i litera h = ground (arith, h)

-- The loop of a guess, with the text that stands before the positions.
module _ (s : Server) (litera : ℕ) (letter : litera ≢ 0) (short : length s.ghiceste < 99) where
  begun : Marked
  begun = record {
    ghicit = s.ghicit;
    stare_litera = false;
    poz_litere_gasite = announcement litera;
  }

  pub overflows : marked s litera ≡ none → 16 ≤ widths s.ghiceste litera 0
  unfolding begun
  overflows e =
      let long = announcement-length litera letter in
      let fact =
        subst (MarkedAs s.ghiceste litera 0 begun) e
          (mark-MarkedAs s.ghiceste litera 0 begun (omega arith) (omega (arith, long))) in
      omega (arith, long, fact)

  pub found_as :
      (m : Marked)
      → marked s litera ≡ some m
      → (widths s.ghiceste litera 0 < 16)
        × (m.stare_litera ≡ is_among litera s.ghiceste)
        × (m.poz_litere_gasite ≡ announcement litera ++ positions s.ghiceste litera 0)
        × ((k : ℕ) → m.ghicit k ≡ (if has_letter s.ghiceste litera 0 k then 1 else s.ghicit k))
  unfolding begun
  found_as m e =
      let long = announcement-length litera letter in
      let (fits, state, told, cells) =
        subst (MarkedAs s.ghiceste litera 0 begun) e
          (mark-MarkedAs s.ghiceste litera 0 begun (omega arith) (omega (arith, long))) in
      (omega (arith, long, fits), state, told, cells)

Shows-with_letter :
    (ghicit ghicit' : ℕ → ℕ) (litera : ℕ) (known : ℕ → Bool) (word : String)
    → Shows ghicit 0 known word
    → ((k : ℕ) → ghicit' k ≡ (if has_letter word litera 0 k then 1 else ghicit k))
    → Shows ghicit' 0 (with_letter known litera) word
Shows-with_letter ghicit ghicit' litera known word h cells i below =
    ground (arith, h i below, cells i)

pub nothing_guessed : (s : Server) (i : ℕ) → guessed s i none ≡ fault
unfolding guessed
nothing_guessed s i = refl

-- The guess of a letter whose positions fit into the text.
pub guess_letter-Guessed :
    (s : Server) (i litera : ℕ) (known : ℕ → Bool)
    → IsGuessing s s.ghiceste known
    → litera ≢ 0
    → length s.ghiceste < 99
    → widths s.ghiceste litera 0 < 16
    → Guessed s s.ghiceste (with_letter known litera) (guess_letter s i litera)
guess_letter-Guessed s i litera known g letter short fits = elim (Option-cases (marked s litera)) [
  | inl over ↦ absurd (omega (arith, overflows s litera letter short over, fits))
  | inr (m, e) ↦
      let (enough, state, told, cells) = found_as s litera letter short m e in
      rw (guess_letter-chosen s i litera g.chosen, e)
        (guessed-Guessed s i litera known m g state
          (Shows-with_letter s.ghicit m.ghicit litera known s.ghiceste g.cells cells))
]
