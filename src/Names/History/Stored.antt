-- ===== src/Names/History/Stored.antt =====
-- The tables once the entries of a history were added.
use protocoale.Base.{◌≡◌, refl, arith, Option, some, List, [], ◌∷◌}
use protocoale.Names.{String, assign, push_back, Tables}
use protocoale.Names.Lookups.{extend, extend-extend, push_back-lookup, last_of}
use protocoale.Names.History.{Addition, address, name, mail, addresses_of, mails_of, names_of}

-- The tables once an addition, or some, were made.
abbrev pub store : Addition → Tables → Tables
store (address host ip) t = record t { lookup = push_back t.lookup host ip }
store (name ip host) t = record t { rev_lookup = assign t.rev_lookup ip host }
store (mail host server) t = record t { mail_lookup = push_back t.mail_lookup host server }

abbrev pub store_all : List Addition → Tables → Tables
store_all [] t = t
store_all (a ∷ more) t = store_all more (store a t)

-- A name that was given before, and the names given since.
abbrev pub newest : Option String → List String → Option String
newest o [] = o
newest o (v ∷ vs) = some (last_of v vs)

newest-newest :
    (o : Option String) (v : String) (vs : List String) → newest (some v) vs ≡ newest o (v ∷ vs)
newest-newest o v [] = refl
newest-newest o v (w ∷ vs) = refl

pub lookup-store_all :
    (history : List Addition) (t : Tables) (s : String)
    → (store_all history t).lookup s ≡ extend (t.lookup s) (addresses_of s history)
lookup-store_all [] t s = refl
lookup-store_all (address host ip ∷ more) t s = ground (
  arith,
  lookup-store_all more (store (address host ip) t) s,
  push_back-lookup t.lookup host ip s,
  extend-extend (t.lookup s) ip (addresses_of s more),
)
lookup-store_all (name ip host ∷ more) t s = lookup-store_all more (store (name ip host) t) s
lookup-store_all (mail host server ∷ more) t s =
    lookup-store_all more (store (mail host server) t) s

pub mail_lookup-store_all :
    (history : List Addition) (t : Tables) (s : String)
    → (store_all history t).mail_lookup s ≡ extend (t.mail_lookup s) (mails_of s history)
mail_lookup-store_all [] t s = refl
mail_lookup-store_all (address host ip ∷ more) t s =
    mail_lookup-store_all more (store (address host ip) t) s
mail_lookup-store_all (name ip host ∷ more) t s =
    mail_lookup-store_all more (store (name ip host) t) s
mail_lookup-store_all (mail host server ∷ more) t s = ground (
  arith,
  mail_lookup-store_all more (store (mail host server) t) s,
  push_back-lookup t.mail_lookup host server s,
  extend-extend (t.mail_lookup s) server (mails_of s more),
)

pub rev_lookup-store_all :
    (history : List Addition) (t : Tables) (s : String)
    → (store_all history t).rev_lookup s ≡ newest (t.rev_lookup s) (names_of s history)
unfolding assign
rev_lookup-store_all [] t s = refl
rev_lookup-store_all (address host ip ∷ more) t s =
    rev_lookup-store_all more (store (address host ip) t) s
rev_lookup-store_all (mail host server ∷ more) t s =
    rev_lookup-store_all more (store (mail host server) t) s
rev_lookup-store_all (name ip host ∷ more) t s = ground (
  arith,
  rev_lookup-store_all more (store (name ip host) t) s,
  newest-newest (t.rev_lookup s) host (names_of s more),
)
