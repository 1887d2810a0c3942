-- ===== src/Hangman/Letters.antt =====
-- What a guess does to the cells of the letters, and how long the text about it gets.
use protocoale.Base.{
  ℕ, suc, ◌+◌, ◌-◌, ◌≤◌, ◌<◌, ◌≡◌, ◌⊎◌, ◌∙◌, refl, ap, arith, Bool, true, false, ◌||◌, ◌&&◌, Option,
  none, some, [], ◌∷◌, ◌++◌, length, ltb, leb, ◌==◌, if◌then◌else◌, each, each-at, ==_iff,
  length-append, append_assoc, append-nil, Bool-cases, inl, inr,
}
use protocoale.Base.Int.{pos}
use protocoale.Select.Closing.{is_among}
use protocoale.Http.Text.{strcat, decimal, digits}
use protocoale.Http.Text.Strcat.{strcat_fits, strcat_full}
use protocoale.Hangman.Scan.{String}
use protocoale.Hangman.{Marked, byte, set_cell, mark_letter, mark}

-- The bytes that are added for the position of cell `j`, which is `j + 1`, and a space.
abbrev pub width : ℕ → ℕ
width j = if ltb j 9 then 2 else 3

-- The bytes that are added for all cells with a letter, the first being `j`.
abbrev pub widths : (word : String) → (litera j : ℕ) → ℕ
widths [] litera j = 0
widths (letter ∷ word) litera j =
    if letter == litera then width j + widths word litera (j + 1) else widths word litera (j + 1)

-- The text for all cells with a letter: their positions, each with a space behind it.
abbrev pub positions : (word : String) → (litera j : ℕ) → String
positions [] litera j = []
positions (letter ∷ word) litera j =
    if letter == litera
    then (decimal (pos (j + 1)) ++ 32 ∷ []) ++ positions word litera (j + 1)
    else positions word litera (j + 1)

width_table : each (λ j. length (decimal (pos (j + 1)) ++ 32 ∷ []) == width j) 99 ≡ true
unfolding decimal digits
width_table = refl

position-length : (j : ℕ) → j < 99 → length (decimal (pos (j + 1)) ++ 32 ∷ []) ≡ width j
position-length j h =
    (==_iff _ _).0
      (each-at (λ i. length (decimal (pos (i + 1)) ++ 32 ∷ []) == width i) 99 j h width_table)

-- Whether the cell `k` has the letter, in a word whose first cell is `j`.
abbrev pub has_letter : (word : String) → (litera j k : ℕ) → Bool
has_letter word litera j k = (leb j k && ltb k (j + length word)) && (byte word (k - j) == litera)

-- The loop is through: the text has the positions behind it, and the cells with the letter are 1.
abbrev pub MarkedAs : (word : String) → (litera j : ℕ) → Marked → Option Marked → Type 0
MarkedAs word litera j m none = 40 ≤ length m.poz_litere_gasite + widths word litera j
MarkedAs word litera j m (some m') =
    (length m.poz_litere_gasite + widths word litera j < 40)
    × (m'.stare_litera ≡ (m.stare_litera || is_among litera word))
    × (m'.poz_litere_gasite ≡ m.poz_litere_gasite ++ positions word litera j)
    × ((k : ℕ) → m'.ghicit k ≡ (if has_letter word litera j k then 1 else m.ghicit k))

mark_letter_no :
    (litera j letter : ℕ) (m : Marked)
    → (letter == litera) ≡ false
    → mark_letter litera j letter m ≡ some m
mark_letter_no litera j letter m h = rw h refl

mark_letter_yes :
    (litera j letter : ℕ) (m : Marked)
    → j < 99
    → (letter == litera) ≡ true
    → mark_letter litera j letter m ≡ (
        if ltb (length m.poz_litere_gasite + width j) 40
        then some (record {
          ghicit = set_cell m.ghicit j 1;
          stare_litera = true;
          poz_litere_gasite = m.poz_litere_gasite ++ (decimal (pos (j + 1)) ++ 32 ∷ []);
        })
        else none)
mark_letter_yes litera j letter m small h =
    let poz = decimal (pos (j + 1)) ++ 32 ∷ [] in
    let long : length poz ≡ width j = position-length j small in
    let three : width j ≤ 3 = ground arith in
    let printed : strcat 5 [] poz ≡ some poz = strcat_fits 5 [] poz (omega (arith, long, three)) in
    elim (Bool-cases (ltb (length m.poz_litere_gasite + width j) 40)) [
      | inl fits ↦
          let joined = strcat_fits 40 m.poz_litere_gasite poz (ground (arith, long)) in
          rw (h, printed, joined, fits) refl
      | inr over ↦
          let joined = strcat_full 40 m.poz_litere_gasite poz (ground (arith, long)) in
          rw (h, printed, joined, over) refl
    ]

ltb_cases : (k j : ℕ) → (k < j) ⊎ ((k ≡ j) ⊎ (j < k))
ltb_cases k j = ground arith

byte-later :
    (letter : ℕ) (word : String) (n m : ℕ) → n ≡ suc m → byte (letter ∷ word) n ≡ byte word m
byte-later letter word n m e = rw e refl

has_letter-cons :
    (letter : ℕ) (word : String) (litera j k : ℕ)
    → has_letter (letter ∷ word) litera j k
      ≡ (if k == j then letter == litera else has_letter word litera (j + 1) k)
has_letter-cons letter word litera j k = elim (ltb_cases k j) [
  | inl before ↦ ground arith
  | inr (inl here) ↦
      let first : k - j ≡ 0 = omega arith in
      let letter_at : byte (letter ∷ word) (k - j) ≡ letter = rw first refl in
      ground (arith, letter_at)
  | inr (inr later) ↦
      let next : k - j ≡ suc (k - (j + 1)) = omega arith in
      ground (arith, byte-later letter word (k - j) (k - (j + 1)) next)
]

MarkedAs-skip :
    (letter : ℕ) (word : String) (litera j : ℕ) (m : Marked) (o : Option Marked)
    → (letter == litera) ≡ false
    → MarkedAs word litera (j + 1) m o
    → MarkedAs (letter ∷ word) litera j m o
MarkedAs-skip letter word litera j m none other h = ground (arith, other)
MarkedAs-skip letter word litera j m (some m') other (short, state, told, cells) = (
  ground (arith, other),
  ground (arith, other),
  ground (arith, other),
  λ k. ground (arith, other, cells k, has_letter-cons letter word litera j k),
)

told_after :
    (letter : ℕ) (word : String) (litera j : ℕ) (m m1 m' : Marked)
    → (letter == litera) ≡ true
    → m1.poz_litere_gasite ≡ m.poz_litere_gasite ++ (decimal (pos (j + 1)) ++ 32 ∷ [])
    → m'.poz_litere_gasite ≡ m1.poz_litere_gasite ++ positions word litera (j + 1)
    → m'.poz_litere_gasite ≡ m.poz_litere_gasite ++ positions (letter ∷ word) litera j
told_after letter word litera j m m1 m' same text told =
    let poz = decimal (pos (j + 1)) ++ 32 ∷ [] in
    told
    ∙ ap (λ t. t ++ positions word litera (j + 1)) text
    ∙ append_assoc m.poz_litere_gasite poz (positions word litera (j + 1))
    ∙ rw same refl

MarkedAs-found :
    (letter : ℕ) (word : String) (litera j : ℕ) (m m1 : Marked) (o : Option Marked)
    → (letter == litera) ≡ true
    → m1.poz_litere_gasite ≡ m.poz_litere_gasite ++ (decimal (pos (j + 1)) ++ 32 ∷ [])
    → length m1.poz_litere_gasite ≡ length m.poz_litere_gasite + width j
    → m1.stare_litera ≡ true
    → ((k : ℕ) → m1.ghicit k ≡ set_cell m.ghicit j 1 k)
    → MarkedAs word litera (j + 1) m1 o
    → MarkedAs (letter ∷ word) litera j m o
MarkedAs-found letter word litera j m m1 none same text long found cell h = ground (arith, same)
MarkedAs-found letter word litera j m m1 (some m') same text long found cell
      (short, state, told, cells) =
    (
      ground (arith, same),
      ground (arith, same),
      told_after letter word litera j m m1 m' same text told,
      λ k. ground (arith, same, cells k, cell k, has_letter-cons letter word litera j k),
    )

pub mark-MarkedAs :
    (word : String) (litera j : ℕ) (m : Marked)
    → j + length word < 99
    → length m.poz_litere_gasite < 40
    → MarkedAs word litera j m (mark word litera j m)
unfolding mark
mark-MarkedAs [] litera j m fits short = ground (arith, append-nil m.poz_litere_gasite)
mark-MarkedAs (letter ∷ word) litera j m fits short = elim (Bool-cases (letter == litera)) [
  | inl same ↦
      let poz = decimal (pos (j + 1)) ++ 32 ∷ [] in
      let long : length (m.poz_litere_gasite ++ poz) ≡ length m.poz_litere_gasite + width j =
        length-append m.poz_litere_gasite poz
        ∙ ap (λ n. length m.poz_litere_gasite + n) (position-length j (omega arith)) in
      let m1 : Marked = record {
        ghicit = set_cell m.ghicit j 1;
        stare_litera = true;
        poz_litere_gasite = m.poz_litere_gasite ++ poz;
      } in
      elim (Bool-cases (ltb (length m.poz_litere_gasite + width j) 40)) [
        | inl enough ↦
            rw (mark_letter_yes litera j letter m (omega arith) same, enough)
              (MarkedAs-found letter word litera j m m1 _ same refl long refl (λ k. refl)
                (mark-MarkedAs word litera (j + 1) m1 (omega arith) (ground (arith, long))))
        | inr over ↦
            rw (mark_letter_yes litera j letter m (omega arith) same, over) (ground (arith, same))
      ]
  | inr other ↦ rw (mark_letter_no litera j letter m other) (
      MarkedAs-skip letter word litera j m _ other
        (mark-MarkedAs word litera (j + 1) m (omega arith) short))
]
