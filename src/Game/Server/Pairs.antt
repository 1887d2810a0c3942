-- ===== src/Game/Server/Pairs.antt =====
-- The pairs that the server makes, and who gets what is sent.
use native.Mathlib.Decide.{dec_lt}
use protocoale.Base.{
  ℕ, zero, suc, ◌+◌, ◌≤◌, ◌<◌, ◌≡◌, ◌≢◌, ◌⊎◌, Bool, inl, inr, refl, ap, subst, arith, true, false,
  some, List, [], ◌∷◌, length, Bool-cases, ◌==◌, ◌||◌, if◌then◌else◌,
}
use protocoale.Base.Int.{ℤ, pos, negsuc}
use protocoale.Select.{watch}
use protocoale.Game.Server.{
  Player, Server, Round, next, find_from, find_game, fault, text_of, pass_on, at_index, on_data,
}

abbrev pub Plays : Player → ℕ → Type 0
Plays game i = (game.player1 ≡ i) ⊎ (game.player2 ≡ i)

-- The first game that the socket plays in, or -1 if there is none.
abbrev pub FirstGame : ℕ → (ℕ → Player) → (from to : ℕ) → ℤ → Type 0
FirstGame i players from to (pos g) =
    (from ≤ g)
    × (g < to)
    × Plays (players g) i
    × ((h : ℕ) → from ≤ h → h < g → ¬ Plays (players h) i)
FirstGame i players from to (negsuc n) = (h : ℕ) → from ≤ h → h < to → ¬ Plays (players h) i

not_here :
    (i : ℕ) (players : ℕ → Player) (from h : ℕ)
    → ¬ Plays (players from) i
    → ((k : ℕ) → from + 1 ≤ k → k ≤ h → ¬ Plays (players k) i)
    → from ≤ h
    → ¬ Plays (players h) i
not_here i players from h absent later p = elim (dec_lt from h) [
  | yes above ↦ later h (omega arith) (omega arith)
  | no same ↦ let e : from ≡ h = omega arith in subst (λ k. ¬ Plays (players k) i) e absent
]

FirstGame-below :
    (i : ℕ) (players : ℕ → Player) (from to : ℕ) (r : ℤ)
    → ¬ Plays (players from) i
    → FirstGame i players (from + 1) to r
    → FirstGame i players from to r
FirstGame-below i players from to (pos g) absent f = (
  omega (arith, f.0),
  f.1,
  f.2,
  λ h p q. not_here i players from h absent (λ k u v. f.3 k u (omega arith)) p,
)
FirstGame-below i players from to (negsuc n) absent f =
    λ h p q. not_here i players from h absent (λ k u v. f k u (omega arith)) p

test-Plays :
    (game : Player) (i : ℕ) → ((game.player1 == i) || (game.player2 == i)) ≡ true → Plays game i
test-Plays game i h = elim (Bool-cases (game.player1 == i)) [
  | inl one ↦ inl (ground arith)
  | inr other ↦ inr (ground arith)
]

test_fails :
    (game : Player) (i : ℕ) → ((game.player1 == i) || (game.player2 == i)) ≡ false → ¬ Plays game i
test_fails game i h (inl e) = ground arith
test_fails game i h (inr e) = ground arith

find_from-FirstGame :
    (i : ℕ) (players : ℕ → Player) (left from to : ℕ)
    → from + left ≡ to
    → FirstGame i players from to (find_from i players left from)
unfolding find_from
find_from-FirstGame i players zero from to e = λ h p q. absurd (omega arith)
find_from-FirstGame i players (suc left) from to e =
    elim (Bool-cases (((players from).player1 == i) || ((players from).player2 == i))) [
      | inl here ↦ rw here (
        omega arith,
        omega arith,
        test-Plays (players from) i here,
        λ h p q. absurd (omega arith),
      )
      | inr other ↦ rw other (
          FirstGame-below i players from to (find_from i players left (from + 1))
            (test_fails (players from) i other)
            (find_from-FirstGame i players left (from + 1) to (omega arith)))
    ]

-- `find_game` returns the first game in which the socket plays, or -1 if there is none.
pub find_game-FirstGame :
    (i : ℕ) (players : ℕ → Player) (len : ℕ) → FirstGame i players 0 len (find_game i players len)
unfolding find_game
find_game-FirstGame i players len = find_from-FirstGame i players len 0 len (omega arith)

not_before :
    (i : ℕ) (players : ℕ → Player) (len g h : ℕ)
    → FirstGame i players 0 len (pos g)
    → FirstGame i players 0 len (pos h)
    → g ≤ h
not_before i players len g h f e = elim (dec_lt h g) [
  | yes below ↦ absurd (f.3 h (omega arith) below e.2)
  | no above ↦ omega arith
]

first_unique :
    (i : ℕ) (players : ℕ → Player) (len g : ℕ) (r : ℤ)
    → FirstGame i players 0 len (pos g)
    → FirstGame i players 0 len r
    → r ≡ pos g
first_unique i players len g (pos h) f e =
    ap pos (omega (arith, not_before i players len g h f e, not_before i players len h g e f))
first_unique i players len g (negsuc n) f e = absurd (e g (omega arith) f.1 f.2)

-- The other one of the two players of a game.
abbrev pub IsPartner : Player → (i other : ℕ) → Type 0
IsPartner game i other =
    ((game.player1 ≡ i) × (game.player2 ≡ other)) ⊎ ((game.player2 ≡ i) × (game.player1 ≡ other))

-- The round sends `message` to `other` alone, and leaves all variables as they are, but for the
-- players of `game`, who are no longer watched if the peer has closed.
pub record IsPassedOn (s : Server) (game : Player) (other : ℕ) (closed : Bool) (message : List ℕ)
    (r : Round) : Type 0 where
  pub fds : ℕ → Bool
  pub round : r ≡ next (record s { read_fds = fds }) ((other, message) ∷ [])
  pub players_watched :
      (fd : ℕ)
      → (game.player1 ≡ fd) ⊎ (game.player2 ≡ fd)
      → fds fd ≡ (if closed then false else s.read_fds fd)
  pub others_watched : (fd : ℕ) → game.player1 ≢ fd → game.player2 ≢ fd → fds fd ≡ s.read_fds fd

pass_on-IsPassedOn :
    (s : Server) (i : ℕ) (game : Player) (closed : Bool) (message : List ℕ)
    → Plays game i
    → (other : ℕ) × IsPartner game i other
      × IsPassedOn s game other closed message (pass_on s i game closed message)
unfolding pass_on
pass_on-IsPassedOn s i game closed message plays = (
  if game.player1 == i then game.player2 else game.player1,
  ground (arith, plays),
  record {
    fds =
        if closed
        then watch (watch s.read_fds game.player1 false) game.player2 false
        else s.read_fds;
    round = refl;
    players_watched = λ fd among. ground (arith, among);
    others_watched = λ fd not1 not2. ground (arith, not1, not2);
  },
)

-- A message of a player, also the empty one at the end, goes to the other player of the first game
-- that has the player's socket, and to nobody else. At the end both players are no longer watched;
-- nothing else changes.
pub on_data_pair :
    (s : Server) (i g : ℕ) (received message : List ℕ)
    → FirstGame i s.p 0 s.j (pos g)
    → text_of received ≡ some message
    → (other : ℕ) × IsPartner (s.p g) i other
      × IsPassedOn s (s.p g) other (length received == 0) message (on_data s i (some received))
unfolding on_data at_index
on_data_pair s i g received message f e =
    let found : find_game i s.p s.j ≡ pos g =
      first_unique i s.p s.j g (find_game i s.p s.j) f (find_game-FirstGame i s.p s.j) in
    rw (e, found) (pass_on-IsPassedOn s i (s.p g) (length received == 0) message f.2)

-- Data of a socket that is in no full game makes the server read outside the array of games.
on_data_unpaired :
    (s : Server) (i : ℕ) (received : List ℕ)
    → ((g : ℕ) → g < s.j → ¬ Plays (s.p g) i)
    → on_data s i (some received) ≡ fault
unfolding on_data at_index
on_data_unpaired s i received absent =
    unpaired (find_game i s.p s.j) (find_game-FirstGame i s.p s.j)
  where
    unpaired :
        (r : ℤ) → FirstGame i s.p 0 s.j r → at_index s i received (text_of received) r ≡ fault
    unpaired (pos g) f = absurd (absent g f.1 f.2)
    unpaired (negsuc n) f = refl
