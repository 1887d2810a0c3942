-- ===== src/Guess/Players.antt =====
-- The vector of the players, and the descriptors that are watched.
use protocoale.Base.{
  ℕ, ◌≡◌, ◌≢◌, refl, ap, sym, subst, arith, Bool, true, false, not, ◌&&◌, ◌||◌, Option, none, some,
  List, [], ◌∷◌, ◌==◌, Bool-cases, inl, inr,
}
use native.Mathlib.Decide.{ℕ_discrete}
use protocoale.Select.Closing.{is_among}
use protocoale.Text.{string_in}
use protocoale.Select.{is_first}
use protocoale.Hangman.Scan.{String}
use protocoale.Guess.{
  Server, start, buflen, Round, next, stops, exits, fault, push_player, on_connection, erase_from,
  on_close, tokenize, set_number, guess, with_string, on_data, on_keyboard, Event, connection,
  data_on, typed, on_event,
}

-- No player is there twice.
abbrev pub Once : List ℕ → Type 0
Once [] = Unit {0}
Once (p ∷ ps) = (is_among p ps ≡ false) × Once ps

push_player-is_among :
    (ps : List ℕ) (new fd : ℕ) → is_among fd (push_player ps new) ≡ (is_among fd ps || (fd == new))
unfolding push_player
push_player-is_among [] new fd = ground arith
push_player-is_among (p ∷ ps) new fd = ground (arith, push_player-is_among ps new fd)

push_player-Once :
    (ps : List ℕ) (new : ℕ) → is_among new ps ≡ false → Once ps → Once (push_player ps new)
unfolding push_player
push_player-Once [] new h o = (refl, tt)
push_player-Once (p ∷ ps) new h (first, o) =
    (ground (arith, push_player-is_among ps new p), push_player-Once ps new (ground arith) o)

-- Nobody is erased who is not there.
erase_from-absent :
    (i : ℕ) (skip : Bool) (ps : List ℕ) → is_among i ps ≡ false → erase_from i skip ps ≡ ps
unfolding erase_from
erase_from-absent i skip [] h = refl
erase_from-absent i true (p ∷ ps) h = ap (λ r. p ∷ r) (erase_from-absent i false ps (ground arith))
erase_from-absent i false (p ∷ ps) h = ground (arith, erase_from-absent i false ps)

first_gone :
    (p i : ℕ) (ps : List ℕ) → (p == i) ≡ true → is_among p ps ≡ false → is_among i ps ≡ false
first_gone p i ps h first =
    let e : p ≡ i = ground arith in subst (λ q. is_among q ps ≡ false) e first

among_rest :
    (p i fd : ℕ) (ps : List ℕ)
    → (p == i) ≡ true
    → is_among i ps ≡ false
    → is_among fd ps ≡ (((fd == p) || is_among fd ps) && not (fd == i))
among_rest p i fd ps h absent = elim (ℕ_discrete fd i) [
  | yes same ↦
      let none_there : is_among fd ps ≡ false =
        subst (λ q. is_among q ps ≡ false) (sym same) absent in
      ground (arith, none_there)
  | no other ↦ ground arith
]

-- With each player there once, the skipped round is none that would erase.
erase_from-is_among :
    (i fd : ℕ) (ps : List ℕ)
    → Once ps
    → is_among fd (erase_from i false ps) ≡ (is_among fd ps && not (fd == i))
unfolding erase_from
erase_from-is_among i fd [] o = refl
erase_from-is_among i fd (p ∷ ps) (first, o) = elim (Bool-cases (p == i)) [
  | inl here ↦
      let absent = first_gone p i ps here first in
      let gone = erase_from-absent i true ps absent in
      rw (here, gone) (among_rest p i fd ps here absent)
  | inr other ↦ ground (arith, other, erase_from-is_among i fd ps o)
]

erase_from-Once : (i : ℕ) (ps : List ℕ) → Once ps → Once (erase_from i false ps)
unfolding erase_from
erase_from-Once i [] o = tt
erase_from-Once i (p ∷ ps) (first, o) = elim (Bool-cases (p == i)) [
  | inl here ↦
      let gone = erase_from-absent i true ps (first_gone p i ps here first) in rw (here, gone) o
  | inr other ↦
      rw other (ground (arith, other, first, erase_from-is_among i p ps o), erase_from-Once i ps o)
]

-- The players are the watched descriptors of clients, each once.
pub record IsPlayers (sockfd : ℕ) (s : Server) : Type 0 where
  pub once : Once s.players
  pub same : (fd : ℕ) → is_among fd s.players ≡ (s.read_fds fd && not ((fd == sockfd) || (fd == 0)))

-- `accept` returns a descriptor that is not open, and data comes on the sockets of clients.
abbrev pub Allowed : (sockfd : ℕ) → Server → Event → Type 0
Allowed sockfd s (connection none) = Unit {0}
Allowed sockfd s (connection (some new)) = (s.read_fds new ≡ false) × (new ≢ sockfd) × (new ≢ 0)
Allowed sockfd s (data_on i received) = (i ≢ sockfd) × (i ≢ 0)
Allowed sockfd s (typed line) = Unit {0}

abbrev pub Keeps : (sockfd : ℕ) → Round → Type 0
Keeps sockfd (next s sent closed) = IsPlayers sockfd s
Keeps sockfd (stops sent closed) = Unit {0}
Keeps sockfd exits = Unit {0}
Keeps sockfd fault = Unit {0}

on_close-Keeps :
    (sockfd : ℕ) (s : Server) (i : ℕ)
    → i ≢ sockfd
    → i ≢ 0
    → IsPlayers sockfd s
    → Keeps sockfd (on_close s i)
unfolding on_close
on_close-Keeps sockfd s i away client v = elim (Bool-cases (is_first s.first_player i)) [
  | inl first ↦ rw (first, Keeps) tt
  | inr other ↦
      rw (other, Keeps)
        (record {
          once = erase_from-Once i s.players v.once;
          same = λ fd. ground (arith, erase_from-is_among i fd s.players v.once, v.same fd);
        })
]

set_number-Keeps :
    (sockfd : ℕ) (s : Server) (i : ℕ) (o : Option String)
    → IsPlayers sockfd s
    → Keeps sockfd (set_number s i o)
unfolding set_number
set_number-Keeps sockfd s i none v = tt
set_number-Keeps sockfd s i (some s2) v = elim (Bool-cases (is_first s.first_player i)) [
  | inl first ↦ rw (first, Keeps) (record { once = v.once; same = v.same })
  | inr other ↦ rw (other, Keeps) v
]

guess-Keeps :
    (sockfd : ℕ) (s : Server) (i : ℕ) (buffer : String)
    → IsPlayers sockfd s
    → Keeps sockfd (guess s i buffer)
unfolding guess
guess-Keeps sockfd s i buffer v = ground (arith, v)

with_string-Keeps :
    (split : String → List String) (sockfd : ℕ) (s : Server) (i : ℕ) (o : Option String)
    → IsPlayers sockfd s
    → Keeps sockfd (with_string split s i o)
with_string-Keeps split sockfd s i none v = tt
with_string-Keeps split sockfd s i (some buffer) v = ground (
  arith,
  set_number-Keeps sockfd s i (tokenize (split buffer)) v,
  guess-Keeps sockfd s i buffer v,
)

on_event-Keeps :
    (split : String → List String) (sockfd : ℕ) (s : Server) (e : Event)
    → Allowed sockfd s e
    → IsPlayers sockfd s
    → Keeps sockfd (on_event split s e)
unfolding on_connection on_data on_keyboard
on_event-Keeps split sockfd s (connection none) a v = tt
on_event-Keeps split sockfd s (connection (some new)) (fresh, away, client) v = record {
  once = push_player-Once s.players new (ground (arith, v.same new)) v.once;
  same = λ fd. ground (arith, push_player-is_among s.players new fd, v.same fd);
}
on_event-Keeps split sockfd s (data_on i none) a v = tt
on_event-Keeps split sockfd s (data_on i (some [])) (away, client) v =
    on_close-Keeps sockfd s i away client v
on_event-Keeps split sockfd s (data_on i (some (c ∷ cs))) a v =
    with_string-Keeps split sockfd s i (string_in buflen (c ∷ cs)) v
on_event-Keeps split sockfd s (typed line) a v = ground (arith, v)

-- The states that events lead to.
pub data Reach (split : String → List String) (sockfd : ℕ) : Server → Type 0 where
  begins : Reach split sockfd (start sockfd)
  goes :
      {s s' : Server} {sent : List (ℕ × String)} {closed : List ℕ} (e : Event)
      → Reach split sockfd s
      → Allowed sockfd s e
      → on_event split s e ≡ next s' sent closed
      → Reach split sockfd s'

-- In every state that events lead to, the vector holds the watched descriptors of the clients, each
-- once, although its loop skips a player behind each that it erases.
pub Reach-IsPlayers :
    (split : String → List String) (sockfd : ℕ) (s : Server)
    → Reach split sockfd s
    → IsPlayers sockfd s
Reach-IsPlayers split sockfd _ begins = record { once = tt; same = λ fd. ground arith }
Reach-IsPlayers split sockfd _ (goes {s} {s'} e r a step) =
    subst (Keeps sockfd) step (on_event-Keeps split sockfd s e a (Reach-IsPlayers split sockfd s r))
