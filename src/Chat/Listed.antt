-- ===== src/Chat/Listed.antt =====
-- Who is on the list that the server sends.
use protocoale.Base.{
  ℕ, ◌<◌, ◌≡◌, ◌∙◌, refl, ap, sym, subst, arith, Bool, true, false, Option, none, some, List, [],
  ◌∷◌, ◌++◌, map, append-nil, append_assoc,
}
use protocoale.Text.{same_text, string_in}
use protocoale.Hangman.Scan.{String}
use protocoale.Chat.{
  Client, Server, start, Round, next, exits, fault, Arrival, client_of, add_client, on_connection,
  same_client, erase_clients, list_text, asked, on_data, buflen, Event, connection, data_on,
  on_event,
}

-- Events on sockets, which are above the standard descriptors.
abbrev pub OnSockets : List Event → Type 0
OnSockets [] = Unit {0}
OnSockets (connection arrival ∷ more) = OnSockets more
OnSockets (data_on i received ∷ more) = (2 < i) × OnSockets more

-- The state behind some events, which the server has survived.
pub data Run : Server → List Event → Server → Type 0 where
  here : {s : Server} → Run s [] s
  goes :
      {s s' s'' : Server} {sent : List (ℕ × Client)} {e : Event} {more : List Event}
      → on_event s e ≡ next s' sent
      → Run s' more s''
      → Run s (e ∷ more) s''

-- Everybody who has come, with the names they gave.
abbrev pub named : Arrival → Option String → List Client
named a none = []
named a (some name) = client_of a name ∷ []

abbrev pub arrived : List Event → List Client
arrived [] = []
arrived (connection none ∷ more) = arrived more
arrived (connection (some a) ∷ more) = named a (string_in buflen a.user) ++ arrived more
arrived (data_on i received ∷ more) = arrived more

erase_clients-none : (i : ℕ) (skip : Bool) (cs : List Client) → 2 < i → erase_clients i skip cs ≡ cs
unfolding erase_clients same_client
erase_clients-none i skip [] h = refl
erase_clients-none i true (c ∷ cs) h = ap (λ r. c ∷ r) (erase_clients-none i false cs h)
erase_clients-none i false (c ∷ cs) h = ground (arith, h, erase_clients-none i false cs h)

-- The clients behind an event that the server survives.
abbrev Grows : List Client → List Client → Round → Type 0
Grows old new (next s sent) = s.clients ≡ old ++ new
Grows old new exits = Unit {0}
Grows old new fault = Unit {0}

add_client-Grows :
    (s : Server) (a : Arrival) (o : Option String) → Grows s.clients (named a o) (add_client s a o)
unfolding add_client
add_client-Grows s a none = tt
add_client-Grows s a (some name) = ground arith

asked-Grows : (s : Server) (i : ℕ) (o : Option String) → Grows s.clients [] (asked s i o)
asked-Grows s i none = tt
asked-Grows s i (some buffer) = ground (arith, append-nil s.clients)

on_event-Grows :
    (s : Server) (e : Event)
    → OnSockets (e ∷ [])
    → Grows s.clients (arrived (e ∷ [])) (on_event s e)
unfolding on_connection on_data
on_event-Grows s (connection none) h = tt
on_event-Grows s (connection (some a)) h = ground (
  arith,
  append-nil (named a (string_in buflen a.user)),
  add_client-Grows s a (string_in buflen a.user),
)
on_event-Grows s (data_on i none) h = tt
on_event-Grows s (data_on i (some [])) h =
    erase_clients-none i false s.clients h.0 ∙ sym (append-nil s.clients)
on_event-Grows s (data_on i (some (c ∷ cs))) h = asked-Grows s i (string_in buflen (c ∷ cs))

arrived-cons :
    (e : Event) (more : List Event) → arrived (e ∷ more) ≡ arrived (e ∷ []) ++ arrived more
arrived-cons (connection none) more = refl
arrived-cons (connection (some a)) more =
    ap (λ r. r ++ arrived more) (sym (append-nil (named a (string_in buflen a.user))))
arrived-cons (data_on i received) more = refl

first_OnSockets :
    (e : Event) (more : List Event) → OnSockets (e ∷ more) → OnSockets (e ∷ []) × OnSockets more
first_OnSockets (connection arrival) more h = (tt, h)
first_OnSockets (data_on i received) more h = ((h.0, tt), h.1)

Run-clients :
    (s s' : Server) (events : List Event)
    → Run s events s'
    → OnSockets events
    → s'.clients ≡ s.clients ++ arrived events
Run-clients s _ [] here h = sym (append-nil s.clients)
Run-clients s s'' (e ∷ more) (goes {s' = s'} step run) h =
    let (one, rest) = first_OnSockets e more h in
    let grown = subst (Grows s.clients (arrived (e ∷ []))) step (on_event-Grows s e one) in
    Run-clients s' s'' more run rest
    ∙ ap (λ r. r ++ arrived more) grown
    ∙ append_assoc s.clients (arrived (e ∷ [])) (arrived more)
    ∙ ap (λ r. s.clients ++ r) (sym (arrived-cons e more))

-- Whatever events have come on sockets, as long as the server lives, a client that asks for the list
-- is sent an entry for everybody who has ever connected, in their order, whether they have left or
-- not.
pub Run-arrived :
    (sockfd : ℕ) (events : List Event) (s : Server) (i : ℕ)
    → Run (start sockfd) events s
    → OnSockets events
    → on_data s i (some list_text) ≡ next s (map (λ c. (i, c)) (arrived events))
unfolding on_data string_in same_text
Run-arrived sockfd events s i run h =
    ap (λ cs. next s (map (λ c. (i, c)) cs)) (Run-clients (start sockfd) s events run h)
