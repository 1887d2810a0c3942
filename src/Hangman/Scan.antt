-- ===== src/Hangman/Scan.antt =====
-- `sscanf(buffer, "%s %s", aux, word)` with two arrays of 50 bytes, of which the second is used.
use protocoale.Base.{ℕ, Bool, ◌&&◌, ◌||◌, List, [], ◌∷◌, length, ltb, leb, ◌==◌, if◌then◌else◌}

abbrev pub String : Type 0
String = List ℕ

-- `isspace`.
abbrev pub is_space : ℕ → Bool
is_space c = (c == 32) || (leb 9 c && leb c 13)

unfoldable pub skip_spaces : String → String
skip_spaces [] = []
skip_spaces (c ∷ cs) = if is_space c then skip_spaces cs else c ∷ cs

unfoldable pub token : String → String
token [] = []
token (c ∷ cs) = if is_space c then [] else c ∷ token cs

unfoldable pub behind_token : String → String
behind_token [] = []
behind_token (c ∷ cs) = if is_space c then c ∷ cs else behind_token cs

-- A word that does not fit into its array, no second word, or the second word.
pub data Scanned : Type 0 where
  overflow : Scanned
  too_few : Scanned
  second : (word : String) → Scanned

abbrev pub scanned_word : String → Scanned
scanned_word [] = too_few
scanned_word (c ∷ cs) = if ltb (length (c ∷ cs)) 50 then second (c ∷ cs) else overflow

unfoldable pub scan : (buffer : String) → Scanned
scan buffer =
    let start = skip_spaces buffer in
    if ltb (length (token start)) 50
    then scanned_word (token (skip_spaces (behind_token start)))
    else overflow
