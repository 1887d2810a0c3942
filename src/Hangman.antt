-- ===== src/Hangman.antt =====
-- training/spanzuratoarea/server.cpp: the first client chooses a word, and the others guess its
-- letters.
pub mod Scan
pub mod Letters
pub mod Guesses
pub mod Sending
pub mod Answers
pub mod Game
pub mod Setting
mod Tests
use protocoale.Base.{
  ℕ, zero, suc, ◌+◌, ◌-◌, Bool, true, false, not, ◌||◌, ◌&&◌, Option, none, some, List, [], ◌∷◌,
  ◌++◌, length, ltb, leb, ◌==◌, if◌then◌else◌,
}
use protocoale.Base.Int.{ℤ, pos, incremented, decremented}
use protocoale.Select.{watch, higher, first_of, is_first}
use protocoale.Text.{same_text, starts_with, string_in}
use protocoale.Http.Text.{◌>>=◌, strcat, decimal}
use protocoale.Hangman.Scan.{String, Scanned, overflow, too_few, second, scan}

-- The variables of `main` that live from one round to the next; `none` is a `first_client` of -1,
-- and `cuvant_ales` is -1 or 1. The arrays `ghiceste` and `ghicit` have 30 cells, which hold nothing
-- in particular before a word is set.
pub record Server : Type 0 where
  pub online : ℤ
  pub first_client : Option ℕ
  pub cuvant_ales : Bool
  pub ghiceste : String
  pub ghicit : ℕ → ℕ
  pub read_fds : ℕ → Bool
  pub fdmax : ℕ

abbrev pub buflen : ℕ
buflen = 1024

-- A round for one descriptor that is ready. The server has sent these bytes to these sockets, and
-- goes on or comes to the end of its game; or a call of it has failed and it exits; or it accesses
-- memory outside an array, or that was never written.
pub data Round : Type 0 where
  next : Server → (sent : List (ℕ × String)) → Round
  stops : Server → (sent : List (ℕ × String)) → Round
  exits : Round
  fault : Round

-- "Nu poti seta cuvantul!"
abbrev pub not_allowed_to_set : String
not_allowed_to_set =
    b'N' ∷ b'u' ∷ 32 ∷ b'p' ∷ b'o' ∷ b't' ∷ b'i' ∷ 32 ∷ b's' ∷ b'e' ∷ b't' ∷ b'a' ∷ 32 ∷ b'c' ∷ b'u'
    ∷ b'v' ∷ b'a' ∷ b'n' ∷ b't' ∷ b'u' ∷ b'l' ∷ b'!' ∷ []

-- "cuvantul a fost deja ales"
abbrev pub already_chosen : String
already_chosen =
    b'c' ∷ b'u' ∷ b'v' ∷ b'a' ∷ b'n' ∷ b't' ∷ b'u' ∷ b'l' ∷ 32 ∷ b'a' ∷ 32 ∷ b'f' ∷ b'o' ∷ b's'
    ∷ b't' ∷ 32 ∷ b'd' ∷ b'e' ∷ b'j' ∷ b'a' ∷ 32 ∷ b'a' ∷ b'l' ∷ b'e' ∷ b's' ∷ []

-- "Nu are 10-25 litere"
abbrev pub wrong_length : String
wrong_length =
    b'N' ∷ b'u' ∷ 32 ∷ b'a' ∷ b'r' ∷ b'e' ∷ 32 ∷ b'1' ∷ b'0' ∷ b'-' ∷ b'2' ∷ b'5' ∷ 32 ∷ b'l' ∷ b'i'
    ∷ b't' ∷ b'e' ∷ b'r' ∷ b'e' ∷ []

-- "Nu ai voie sa ghicesti!"
abbrev pub not_allowed_to_guess : String
not_allowed_to_guess =
    b'N' ∷ b'u' ∷ 32 ∷ b'a' ∷ b'i' ∷ 32 ∷ b'v' ∷ b'o' ∷ b'i' ∷ b'e' ∷ 32 ∷ b's' ∷ b'a' ∷ 32 ∷ b'g'
    ∷ b'h' ∷ b'i' ∷ b'c' ∷ b'e' ∷ b's' ∷ b't' ∷ b'i' ∷ b'!' ∷ []

-- "Nu s-a ales un cuvant"
abbrev pub no_word : String
no_word =
    b'N' ∷ b'u' ∷ 32 ∷ b's' ∷ b'-' ∷ b'a' ∷ 32 ∷ b'a' ∷ b'l' ∷ b'e' ∷ b's' ∷ 32 ∷ b'u' ∷ b'n' ∷ 32
    ∷ b'c' ∷ b'u' ∷ b'v' ∷ b'a' ∷ b'n' ∷ b't' ∷ []

-- "gresit"
abbrev pub gresit : String
gresit = b'g' ∷ b'r' ∷ b'e' ∷ b's' ∷ b'i' ∷ b't' ∷ []

-- "Litera "
abbrev pub litera_text : String
litera_text = b'L' ∷ b'i' ∷ b't' ∷ b'e' ∷ b'r' ∷ b'a' ∷ 32 ∷ []

-- " se gaseste pe: "
abbrev pub se_gaseste : String
se_gaseste =
    32 ∷ b's' ∷ b'e' ∷ 32 ∷ b'g' ∷ b'a' ∷ b's' ∷ b'e' ∷ b's' ∷ b't' ∷ b'e' ∷ 32 ∷ b'p' ∷ b'e' ∷ b':'
    ∷ 32 ∷ []

-- "Felicitari! Cuvantul este "
abbrev pub felicitari : String
felicitari =
    b'F' ∷ b'e' ∷ b'l' ∷ b'i' ∷ b'c' ∷ b'i' ∷ b't' ∷ b'a' ∷ b'r' ∷ b'i' ∷ b'!' ∷ 32 ∷ b'C' ∷ b'u'
    ∷ b'v' ∷ b'a' ∷ b'n' ∷ b't' ∷ b'u' ∷ b'l' ∷ 32 ∷ b'e' ∷ b's' ∷ b't' ∷ b'e' ∷ 32 ∷ []

-- "set"
abbrev pub set_text : String
set_text = b's' ∷ b'e' ∷ b't' ∷ []

-- "guess"
abbrev pub guess_text : String
guess_text = b'g' ∷ b'u' ∷ b'e' ∷ b's' ∷ b's' ∷ []

-- "status\n"
abbrev pub status_line : String
status_line = b's' ∷ b't' ∷ b'a' ∷ b't' ∷ b'u' ∷ b's' ∷ 10 ∷ []

-- "quit\n"
abbrev pub quit_line : String
quit_line = b'q' ∷ b'u' ∷ b'i' ∷ b't' ∷ 10 ∷ []

-- A line from the keyboard. The test for `quit` is the wrong way round.
unfoldable pub on_keyboard : Server → (buffer : String) → Round
on_keyboard s buffer =
    if same_text buffer status_line
    then next s []
    else if not (same_text buffer quit_line)
    then stops s []
    else next s []

-- A connection; `none` is a failed `accept`.
unfoldable pub on_connection : Server → (newsockfd : Option ℕ) → Round
on_connection s none = exits
on_connection s (some newsockfd) =
    next
      (record s {
        read_fds = watch s.read_fds newsockfd true;
        fdmax = higher s.fdmax newsockfd;
        first_client = first_of s.first_client newsockfd;
        online = incremented s.online;
      })
      []

abbrev pub set_cell : (ℕ → ℕ) → (at value : ℕ) → ℕ → ℕ
set_cell cells at value k = if k == at then value else cells k

-- The loop that clears the cells below `n` of `ghicit`.
unfoldable pub clear : (ghicit : ℕ → ℕ) → (n : ℕ) → ℕ → ℕ
clear ghicit zero = ghicit
clear ghicit (suc n) = set_cell (clear ghicit n) n 0

-- `set` of the first client with what `sscanf` has put into `word`.
unfoldable pub set_word : Server → (i : ℕ) → Scanned → Round
set_word s i overflow = fault
set_word s i too_few = if s.cuvant_ales then next s ((i, already_chosen) ∷ []) else fault
set_word s i (second word) =
    if s.cuvant_ales
    then next s ((i, already_chosen) ∷ [])
    else if ltb (length word) 10 || ltb 25 (length word)
    then next s ((i, wrong_length) ∷ [])
    else next
        (record s { ghiceste = word; cuvant_ales = true; ghicit = clear s.ghicit (length word) }) []

-- What the loop over the letters of the word has found.
pub record Marked : Type 0 where
  pub ghicit : ℕ → ℕ
  pub stare_litera : Bool
  pub poz_litere_gasite : String

abbrev pub mark_letter : (litera : ℕ) → (j : ℕ) → (letter : ℕ) → Marked → Option Marked
mark_letter litera j letter m =
    if letter == litera
    then (do
      poz ← strcat 5 [] (decimal (pos (j + 1)) ++ 32 ∷ [])
      longer ← strcat 40 m.poz_litere_gasite poz
      some (record {
        ghicit = set_cell m.ghicit j 1;
        stare_litera = true;
        poz_litere_gasite = longer;
      }))
    else some m

-- The loop, from cell `j` on; `none` is a write behind `poz_litere_gasite`.
unfoldable pub mark : (word : String) → (litera j : ℕ) → Marked → Option Marked
mark [] litera j m = some m
mark (letter ∷ word) litera j m = do m' ← mark_letter litera j letter m; mark word litera (j + 1) m'

-- Whether no cell of `ghicit` for the letters of the word, from `k` on, is 0.
unfoldable pub all_found : (word : String) → (ghicit : ℕ → ℕ) → (k : ℕ) → Bool
all_found [] ghicit k = true
all_found (letter ∷ word) ghicit k = if ghicit k == 0 then false else all_found word ghicit (k + 1)

-- The loop over the sockets from 4 on.
unfoldable pub send_from : (read_fds : ℕ → Bool) → String → (left k : ℕ) → List (ℕ × String)
send_from read_fds message zero k = []
send_from read_fds message (suc left) k =
    let rest = send_from read_fds message left (k + 1) in
    if read_fds k then (k, message) ∷ rest else rest

unfoldable pub send_all : Server → String → List (ℕ × String)
send_all s message = send_from s.read_fds message (s.fdmax + 1 - 4) 4

abbrev pub announcement : (litera : ℕ) → String
announcement litera = litera_text ++ (if litera == 0 then [] else litera ∷ []) ++ se_gaseste

-- The reply to a guess, once the loop is through.
unfoldable pub guessed : Server → (i : ℕ) → Option Marked → Round
guessed s i none = fault
guessed s i (some m) =
    let s' = record s { ghicit = m.ghicit } in
    if not m.stare_litera
    then next s' ((i, gresit) ∷ [])
    else if all_found s.ghiceste m.ghicit 0
    then stops s'
        (send_all s m.poz_litere_gasite ++ send_all s (felicitari ++ s.ghiceste ++ 10 ∷ []))
    else next s' (send_all s m.poz_litere_gasite)

unfoldable pub guess_letter : Server → (i litera : ℕ) → Round
guess_letter s i litera =
    if not s.cuvant_ales
    then next s ((i, no_word) ∷ [])
    else guessed s i (
        mark s.ghiceste litera 0 (record {
          ghicit = s.ghicit;
          stare_litera = false;
          poz_litere_gasite = announcement litera;
        }))

-- A byte of a string, or of the zeros behind it.
abbrev pub byte : String → ℕ → ℕ
byte [] k = 0
byte (c ∷ cs) zero = c
byte (c ∷ cs) (suc k) = byte cs k

unfoldable pub on_command : Server → (i : ℕ) → (received buffer : String) → Round
on_command s i received buffer =
    if starts_with buffer set_text
    then if is_first s.first_client i
      then set_word s i (scan buffer)
      else next s ((i, not_allowed_to_set) ∷ [])
    else if starts_with buffer guess_text
    then if is_first s.first_client i
      then next s ((i, not_allowed_to_guess) ∷ [])
      else guess_letter s i (byte received 6)
    else next s []

abbrev pub with_string : Server → (i : ℕ) → (received : List ℕ) → Option String → Round
with_string s i received none = fault
with_string s i received (some buffer) = on_command s i received buffer

-- Data on the socket of a client; no data means that it has closed, and `none` that `recv` failed.
unfoldable pub on_data : Server → (i : ℕ) → (received : Option (List ℕ)) → Round
on_data s i none = exits
on_data s i (some []) =
    let s' = record s { online = decremented s.online; read_fds = watch s.read_fds i false } in
    if is_first s.first_client i then stops s' [] else next s' []
on_data s i (some (c ∷ cs)) = with_string s i (c ∷ cs) (string_in buflen (c ∷ cs))
