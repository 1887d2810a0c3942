-- ===== src/Names/History.antt =====
-- The answers of the server, told by the entries that clients have added and not by its tables.
pub mod Stored
pub mod Answers
use protocoale.Base.{
  ℕ, ◌+◌, ◌<◌, ◌≡◌, refl, ap, sym, ◌∙◌, arith, Bool, true, false, Option, none, some, List, [], ◌∷◌,
  ◌++◌, map, length, ltb, if◌then◌else◌, length-append,
}
use protocoale.Text.{same_text, starts_with, string_in, zero_filled}
use protocoale.Text.Prefix.{Without, Without-append, string_in-Without}
use protocoale.Names.{
  String, buflen, add_address, add_name, add_mail, get_address, get_name, get_mail, no_entry,
  Dictionary, assign, push_back, Tables, no_tables, Served, serves, fault, tokenize, padded,
  command, reply_address, reply_name, reply_mail, with_words, with_string, serve,
}
use protocoale.Names.Split.{IsSplit, split-two, split-three, split-one}
use protocoale.Names.Lookups.{
  extend, extend-extend, push_back-lookup, concat, addresses-concat, last_of, AllShort,
  mail_servers-last_of, last_of-short,
}
use protocoale.Http.Text.Strcat.{strcat_fits}

-- What a client adds, and what it asks for.
pub data Addition : Type 0 where
  address : (host ip : String) → Addition
  name : (ip host : String) → Addition
  mail : (host server : String) → Addition

pub data Question : Type 0 where
  address_of : (host : String) → Question
  name_of : (ip : String) → Question
  mail_of : (host : String) → Question

-- The messages that the client program sends for them.
abbrev pub addition_text : Addition → String
addition_text (address host ip) = add_address ++ (host ++ 32 ∷ ip)
addition_text (name ip host) = add_name ++ (ip ++ 32 ∷ host)
addition_text (mail host server) = add_mail ++ (host ++ 32 ∷ server)

abbrev pub question_text : Question → String
question_text (address_of host) = get_address ++ host
question_text (name_of ip) = get_name ++ ip
question_text (mail_of host) = get_mail ++ host

-- A word has neither spaces nor zeros.
abbrev pub IsWord : String → Type 0
IsWord s = Without 32 s × Without 0 s

-- Two words that fit into the buffer with the longest of the commands.
abbrev pub FitsTwo : (s1 s2 : String) → Type 0
FitsTwo s1 s2 = IsWord s1 × IsWord s2 × (length s1 + length s2 + 13 < buflen)

abbrev pub Fits : Addition → Type 0
Fits (address host ip) = FitsTwo host ip
Fits (name ip host) = FitsTwo ip host
Fits (mail host server) = FitsTwo host server

abbrev pub AllFit : List Addition → Type 0
AllFit [] = Unit {0}
AllFit (a ∷ more) = Fits a × AllFit more

abbrev pub QuestionFits : Question → Type 0
QuestionFits (address_of host) = IsWord host × (length host + 12 < buflen)
QuestionFits (name_of ip) = IsWord ip × (length ip + 12 < buflen)
QuestionFits (mail_of host) = IsWord host × (length host + 12 < buflen)

-- The addresses that were added for a host, in their order; the mail servers; and the last name that
-- was given to an address.
abbrev pub addresses_of : String → List Addition → List String
addresses_of h [] = []
addresses_of h (address host ip ∷ more) =
    if same_text h host then ip ∷ addresses_of h more else addresses_of h more
addresses_of h (name ip host ∷ more) = addresses_of h more
addresses_of h (mail host server ∷ more) = addresses_of h more

abbrev pub mails_of : String → List Addition → List String
mails_of h [] = []
mails_of h (address host ip ∷ more) = mails_of h more
mails_of h (name ip host ∷ more) = mails_of h more
mails_of h (mail host server ∷ more) =
    if same_text h host then server ∷ mails_of h more else mails_of h more

abbrev pub names_of : String → List Addition → List String
names_of h [] = []
names_of h (address host ip ∷ more) = names_of h more
names_of h (name ip host ∷ more) =
    if same_text h ip then host ∷ names_of h more else names_of h more
names_of h (mail host server ∷ more) = names_of h more

-- The blocks that are sent for a question, `none` if the buffer overflows: all the addresses
-- without anything between them, the last name, the last mail server.
abbrev pub all_of : List String → Option (List (List ℕ))
all_of [] = some (no_entry ∷ [])
all_of (v ∷ vs) =
    if ltb (length (concat (v ∷ vs))) buflen then some (padded (concat (v ∷ vs)) ∷ []) else none

abbrev pub newest_of : List String → Option (List (List ℕ))
newest_of [] = some (no_entry ∷ [])
newest_of (v ∷ vs) = some (padded (last_of v vs) ∷ [])

abbrev pub due_reply : List Addition → Question → Option (List (List ℕ))
due_reply history (address_of host) = all_of (addresses_of host history)
due_reply history (name_of ip) = newest_of (names_of ip history)
due_reply history (mail_of host) = newest_of (mails_of host history)

-- The server, from these tables on, gets messages and then one more: the blocks sent for that one,
-- `none` if a message before it or that message leads outside an object.
abbrev pub sent_of : Served → Option (List (List ℕ))
sent_of (serves t sent) = some sent
sent_of fault = none

abbrev pub dialogue :
    (split : String → List String)
    → Tables
    → (messages : List String) → (last : String) → Option (List (List ℕ))
dialogue split t [] last = sent_of (serve split t last)
dialogue split t (m ∷ ms) last = elim (serve split t m) [
  | serves t' sent ↦ dialogue split t' ms last
  | fault ↦ none
]
