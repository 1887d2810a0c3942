-- ===== src/Names.antt =====
-- training/dns_server/server.cpp: the server keeps tables of addresses, names and mail servers, and
-- answers questions about them. `boost::split` is the parameter `split`.
pub mod Split
mod Lookups
pub mod History
pub mod Loop
mod Tests
use protocoale.Base.{
  ℕ, zero, suc, ◌+◌, ◌-◌, Bool, true, false, Option, none, some, List, [], ◌∷◌, ◌++◌, length,
  replicate, ltb, ◌==◌, if◌then◌else◌,
}
use protocoale.Base.Int.{ℤ, pos, negsuc}
use protocoale.Text.{same_text, starts_with, zero_filled, string_in}
use protocoale.Http.Text.{◌>>=◌, strcat}

abbrev pub String : Type 0
String = List ℕ

abbrev pub buflen : ℕ
buflen = 1024

-- "add_address "
abbrev pub add_address : String
add_address = b'a' ∷ b'd' ∷ b'd' ∷ b'_' ∷ b'a' ∷ b'd' ∷ b'd' ∷ b'r' ∷ b'e' ∷ b's' ∷ b's' ∷ 32 ∷ []

-- "add_name "
abbrev pub add_name : String
add_name = b'a' ∷ b'd' ∷ b'd' ∷ b'_' ∷ b'n' ∷ b'a' ∷ b'm' ∷ b'e' ∷ 32 ∷ []

-- "add_mail "
abbrev pub add_mail : String
add_mail = b'a' ∷ b'd' ∷ b'd' ∷ b'_' ∷ b'm' ∷ b'a' ∷ b'i' ∷ b'l' ∷ 32 ∷ []

-- "get_address "
abbrev pub get_address : String
get_address = b'g' ∷ b'e' ∷ b't' ∷ b'_' ∷ b'a' ∷ b'd' ∷ b'd' ∷ b'r' ∷ b'e' ∷ b's' ∷ b's' ∷ 32 ∷ []

-- "get_name "
abbrev pub get_name : String
get_name = b'g' ∷ b'e' ∷ b't' ∷ b'_' ∷ b'n' ∷ b'a' ∷ b'm' ∷ b'e' ∷ 32 ∷ []

-- "get_mail "
abbrev pub get_mail : String
get_mail = b'g' ∷ b'e' ∷ b't' ∷ b'_' ∷ b'm' ∷ b'a' ∷ b'i' ∷ b'l' ∷ 32 ∷ []

-- "NO ENTRY FOR THAT!!"
abbrev pub no_entry : String
no_entry =
    b'N' ∷ b'O' ∷ 32 ∷ b'E' ∷ b'N' ∷ b'T' ∷ b'R' ∷ b'Y' ∷ 32 ∷ b'F' ∷ b'O' ∷ b'R' ∷ 32 ∷ b'T' ∷ b'H'
    ∷ b'A' ∷ b'T' ∷ b'!' ∷ b'!' ∷ []

-- An `unordered_map` from strings.
abbrev pub Dictionary : Type 0 → Type 0
Dictionary A = String → Option A

unfoldable pub assign : {A : Type 0} → Dictionary A → (key : String) → A → Dictionary A
assign table key value s = if same_text s key then some value else table s

pub record Tables : Type 0 where
  pub lookup : Dictionary (List String)
  pub rev_lookup : Dictionary String
  pub mail_lookup : Dictionary (List String)

abbrev pub no_tables : Tables
no_tables = record { lookup = λ s. none; rev_lookup = λ s. none; mail_lookup = λ s. none }

-- What the server does with a message: it has these tables then, and has sent these blocks of bytes
-- to the client; or it accesses memory outside an object.
pub data Served : Type 0 where
  serves : Tables → (sent : List (List ℕ)) → Served
  fault : Served

-- `tokenize`, on the words that `boost::split` returns; `none` is a read behind `results`.
unfoldable pub tokenize : (results : List String) → Option (String × String)
tokenize [] = none
tokenize (command ∷ []) = none
tokenize (command ∷ s1 ∷ []) = some (s1, [])
tokenize (command ∷ s1 ∷ s2 ∷ more) = some (s1, s2)

-- A further value for a key.
unfoldable pub push_back : Dictionary (List String) → (s1 s2 : String) → Dictionary (List String)
push_back table s1 s2 = elim (table s1) [
  | none ↦ assign table s1 (s2 ∷ [])
  | some values ↦ assign table s1 (values ++ s2 ∷ [])
]

-- `send(i, buffer, BUFLEN, 0)` of a buffer that held zeros before this string was written.
abbrev pub padded : String → List ℕ
padded s = s ++ replicate (buflen - length s) 0

-- The loop over the addresses, which are all put into one buffer.
unfoldable pub addresses : (buffer : String) → List String → Option String
addresses buffer [] = some buffer
addresses buffer (address ∷ more) = do longer ← strcat buflen buffer address; addresses longer more

-- The loop over the mail servers, which clears the buffer in each round.
unfoldable pub mail_servers : (buffer : List ℕ) → List String → Option (List ℕ)
mail_servers buffer [] = some buffer
mail_servers buffer (server ∷ more) = do
  only ← strcat buflen [] server
  mail_servers (padded only) more

abbrev pub replies : Tables → Option (List ℕ) → Served
replies t none = fault
replies t (some block) = serves t (block ∷ [])

unfoldable pub reply_address : Tables → (s1 : String) → Served
reply_address t s1 = elim (t.lookup s1) [
  | none ↦ serves t (no_entry ∷ [])
  | some values ↦ replies t (do all ← addresses [] values; some (padded all))
]

unfoldable pub reply_name : Tables → (s1 : String) → Served
reply_name t s1 = elim (t.rev_lookup s1) [
  | none ↦ serves t (no_entry ∷ [])
  | some name ↦ replies t (do copy ← strcat buflen [] name; some (padded copy))
]

-- `buffer` still holds the message.
unfoldable pub reply_mail : Tables → (buffer : List ℕ) → (s1 : String) → Served
reply_mail t buffer s1 = elim (t.mail_lookup s1) [
  | none ↦ serves t (no_entry ∷ [])
  | some values ↦ replies t (mail_servers buffer values)
]

-- The six commands; `s` is the string in `buffer`. Another message changes nothing.
unfoldable pub command : Tables → (buffer : List ℕ) → (s s1 s2 : String) → Served
command t buffer s s1 s2 =
    if starts_with s add_address
    then serves (record t { lookup = push_back t.lookup s1 s2 }) []
    else if starts_with s add_name
    then serves (record t { rev_lookup = assign t.rev_lookup s1 s2 }) []
    else if starts_with s add_mail
    then serves (record t { mail_lookup = push_back t.mail_lookup s1 s2 }) []
    else if starts_with s get_address
    then reply_address t s1
    else if starts_with s get_name
    then reply_name t s1
    else if starts_with s get_mail
    then reply_mail t buffer s1
    else serves t []

abbrev pub with_words :
    Tables → (buffer : List ℕ) → (s : String) → Option (String × String) → Served
with_words t buffer s none = fault
with_words t buffer s (some (s1, s2)) = command t buffer s s1 s2

abbrev pub with_string :
    (split : String → List String) → Tables → (buffer : List ℕ) → Option String → Served
with_string split t buffer none = fault
with_string split t buffer (some s) = with_words t buffer s (tokenize (split s))

-- A message from a client, of at least one byte, as `recv` put it into the zeroed buffer.
unfoldable pub serve : (split : String → List String) → Tables → (received : List ℕ) → Served
serve split t received =
    with_string split t (zero_filled buflen received) (string_in buflen received)
