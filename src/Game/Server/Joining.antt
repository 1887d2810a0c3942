-- ===== src/Game/Server/Joining.antt =====
-- Who plays with whom: the clients in pairs, in the order in which they have come.
use protocoale.Base.{
  ℕ, ◌+◌, ◌≤◌, ◌<◌, ◌≡◌, refl, sym, ap, ◌∙◌, subst, arith, Bool, true, false, Option, none, some,
  List, [], ◌∷◌, ◌++◌, append-nil, Bool-cases, inl, inr, ltb, ◌==◌, if◌then◌else◌,
}
use protocoale.Base.Int.{ℤ, pos, negsuc}
use protocoale.Game.Server.{
  Player, Server, max_games, Round, next, exits, fault, set_game, second_player, first_player,
  on_connection, text_of, find_game, pass_on, at_index, on_data,
}

-- The server before the first client, with any players in the cells.
abbrev pub start : (p : ℕ → Player) → (read_fds : ℕ → Bool) → Server
start p read_fds = record { p = p; j = 0; k = false; read_fds = read_fds }

-- The states that connections and data lead to, with the clients that have come, in order, and what
-- the server has sent at their connections. A descriptor may come again after it was closed.
pub data Reach (p : ℕ → Player) (read_fds : ℕ → Bool)
    : Server → (clients : List ℕ) → (told : List (ℕ × List ℕ)) → Type 0 where
  begins : Reach p read_fds (start p read_fds) [] []
  joins :
      {s s' : Server} {clients : List ℕ} {told sent : List (ℕ × List ℕ)} (new : ℕ)
      → Reach p read_fds s clients told
      → on_connection s (some new) ≡ next s' sent
      → Reach p read_fds s' (clients ++ new ∷ []) (told ++ sent)
  passes :
      {s s' : Server} {clients : List ℕ} {told sent : List (ℕ × List ℕ)} (i : ℕ)
      (received : Option (List ℕ))
      → Reach p read_fds s clients told
      → on_data s i received ≡ next s' sent
      → Reach p read_fds s' clients told

-- From the game `g` on the clients play two by two, and `j` is behind the last full game. The last
-- client waits in `j` if their number is odd, and then `k` holds.
abbrev pub ArePaired :
    (clients : List ℕ) → (g : ℕ) → (p : ℕ → Player) → (j : ℕ) → (k : Bool) → Type 0
ArePaired [] g p j k = (j ≡ g) × (k ≡ false)
ArePaired (a ∷ []) g p j k = (j ≡ g) × (k ≡ true) × ((p g).player1 ≡ a)
ArePaired (a ∷ b ∷ clients) g p j k =
    ((p g).player1 ≡ a) × ((p g).player2 ≡ b) × ArePaired clients (g + 1) p j k

-- The first of two is told `x`, and the second `z`.
abbrev pub symbols : (clients : List ℕ) → List (ℕ × List ℕ)
symbols [] = []
symbols (a ∷ []) = []
symbols (a ∷ b ∷ clients) = (a, b'x' ∷ []) ∷ (b, b'z' ∷ []) ∷ symbols clients

other_game : (p : ℕ → Player) (j g : ℕ) (game : Player) → g < j → set_game p j game g ≡ p g
other_game p j g game h = let e : (g == j) ≡ false = ground arith in rw e refl

this_game : (p : ℕ → Player) (j : ℕ) (game : Player) → set_game p j game j ≡ game
this_game p j game = let e : (j == j) ≡ true = ground arith in rw e refl

ArePaired-le :
    (clients : List ℕ) (g : ℕ) (p : ℕ → Player) (j : ℕ) (k : Bool)
    → ArePaired clients g p j k
    → g ≤ j
ArePaired-le [] g p j k h = omega (arith, h.0)
ArePaired-le (a ∷ []) g p j k h = omega (arith, h.0)
ArePaired-le (a ∷ b ∷ clients) g p j k h = omega (arith, ArePaired-le clients (g + 1) p j k h.2)

-- A full game stays as it was.
old_game :
    (p : ℕ → Player) (j g a b : ℕ) (game : Player)
    → g < j
    → (p g).player1 ≡ a
    → (p g).player2 ≡ b
    → ((set_game p j game g).player1 ≡ a) × ((set_game p j game g).player2 ≡ b)
old_game p j g a b game h one two =
    let same = other_game p j g game h in
    (ap (λ (x : Player). x.player1) same ∙ one, ap (λ (x : Player). x.player2) same ∙ two)

ArePaired-second :
    (clients : List ℕ) (g : ℕ) (p : ℕ → Player) (j new : ℕ)
    → ArePaired clients g p j true
    → ArePaired
        (clients ++ new ∷ [])
        g
        (set_game p j (record (p j) { player2 = new }))
        (j + 1)
        false
ArePaired-second [] g p j new h = absurd (let e = h.1 in cc)
ArePaired-second (a ∷ []) g p j new h =
    let game = record (p j) { player2 = new } in
    let here : set_game p j game g ≡ game = ap (set_game p j game) (sym h.0) ∙ this_game p j game in
    (
      ap (λ (x : Player). x.player1) here ∙ ap (λ i. (p i).player1) h.0 ∙ h.2,
      ap (λ (x : Player). x.player2) here,
      (omega (arith, h.0), refl),
    )
ArePaired-second (a ∷ b ∷ clients) g p j new (one, two, rest) =
    let below = ArePaired-le clients (g + 1) p j true rest in
    let (one', two') = old_game p j g a b (record (p j) { player2 = new }) (omega arith) one two in
    (one', two', ArePaired-second clients (g + 1) p j new rest)

ArePaired-first :
    (clients : List ℕ) (g : ℕ) (p : ℕ → Player) (j new : ℕ)
    → ArePaired clients g p j false
    → ArePaired (clients ++ new ∷ []) g (set_game p j (record (p j) { player1 = new })) j true
ArePaired-first [] g p j new h =
    let game = record (p j) { player1 = new } in
    let here : set_game p j game g ≡ game = ap (set_game p j game) (sym h.0) ∙ this_game p j game in
    (h.0, refl, ap (λ (x : Player). x.player1) here)
ArePaired-first (a ∷ []) g p j new h = absurd (let e = h.1 in cc)
ArePaired-first (a ∷ b ∷ clients) g p j new (one, two, rest) =
    let below = ArePaired-le clients (g + 1) p j false rest in
    let (one', two') = old_game p j g a b (record (p j) { player1 = new }) (omega arith) one two in
    (one', two', ArePaired-first clients (g + 1) p j new rest)

symbols-second :
    (clients : List ℕ) (g : ℕ) (p : ℕ → Player) (j new : ℕ)
    → ArePaired clients g p j true
    → symbols (clients ++ new ∷ [])
      ≡ symbols clients ++ ((p j).player1, b'x' ∷ []) ∷ (new, b'z' ∷ []) ∷ []
symbols-second [] g p j new h = absurd (let e = h.1 in cc)
symbols-second (a ∷ []) g p j new h =
    let waiting : (p j).player1 ≡ a = ap (λ i. (p i).player1) h.0 ∙ h.2 in rw waiting refl
symbols-second (a ∷ b ∷ clients) g p j new (one, two, rest) =
    ap (λ l. (a, b'x' ∷ []) ∷ (b, b'z' ∷ []) ∷ l) (symbols-second clients (g + 1) p j new rest)

symbols-first :
    (clients : List ℕ) (g : ℕ) (p : ℕ → Player) (j new : ℕ)
    → ArePaired clients g p j false
    → symbols (clients ++ new ∷ []) ≡ symbols clients
symbols-first [] g p j new h = refl
symbols-first (a ∷ []) g p j new h = absurd (let e = h.1 in cc)
symbols-first (a ∷ b ∷ clients) g p j new (one, two, rest) =
    ap (λ l. (a, b'x' ∷ []) ∷ (b, b'z' ∷ []) ∷ l) (symbols-first clients (g + 1) p j new rest)

-- A connection keeps the pairs, and what it sends is what the pairs are still to be told.
abbrev Welcomes : (clients : List ℕ) → (new : ℕ) → Round → Type 0
Welcomes clients new (next s sent) =
    ArePaired (clients ++ new ∷ []) 0 s.p s.j s.k
    × (symbols clients ++ sent ≡ symbols (clients ++ new ∷ []))
Welcomes clients new (exits sent) = Unit {0}
Welcomes clients new fault = Unit {0}

joined :
    (s : Server) (clients : List ℕ) (new : ℕ) (k : Bool)
    → ArePaired clients 0 s.p s.j k
    → Welcomes clients new (if k then second_player s new else first_player s new)
unfolding second_player first_player
joined s clients new true h =
    (ArePaired-second clients 0 s.p s.j new h, sym (symbols-second clients 0 s.p s.j new h))
joined s clients new false h = (
  ArePaired-first clients 0 s.p s.j new h,
  append-nil (symbols clients) ∙ sym (symbols-first clients 0 s.p s.j new h),
)

on_connection-Welcomes :
    (s : Server) (clients : List ℕ) (new : ℕ)
    → ArePaired clients 0 s.p s.j s.k
    → Welcomes clients new (on_connection s (some new))
unfolding on_connection
on_connection-Welcomes s clients new h = elim (Bool-cases (ltb s.j max_games)) [
  | inl room ↦ rw (room, Welcomes) (joined s clients new s.k h)
  | inr full ↦ rw (full, Welcomes) tt
]

abbrev Stays : (clients : List ℕ) → Round → Type 0
Stays clients (next s sent) = ArePaired clients 0 s.p s.j s.k
Stays clients (exits sent) = Unit {0}
Stays clients fault = Unit {0}

on_data-Stays :
    (s : Server) (clients : List ℕ) (i : ℕ) (received : Option (List ℕ))
    → ArePaired clients 0 s.p s.j s.k
    → Stays clients (on_data s i received)
unfolding on_data at_index pass_on
on_data-Stays s clients i none h = tt
on_data-Stays s clients i (some received) h = at (text_of received) (find_game i s.p s.j)
  where
    at : (message : Option (List ℕ)) (g : ℤ) → Stays clients (at_index s i received message g)
    at message (negsuc n) = tt
    at none (pos g) = tt
    at (some message) (pos g) = h

-- However connections and data come, and whatever descriptors are used again, the games are the
-- clients two by two in the order of their coming, a client without a partner waits in the next game,
-- and of each two the first was told `x` and the second `z`.
pub Reach-ArePaired :
    (p : ℕ → Player) (read_fds : ℕ → Bool) (s : Server) (clients : List ℕ)
    (told : List (ℕ × List ℕ))
    → Reach p read_fds s clients told
    → ArePaired clients 0 s.p s.j s.k × (told ≡ symbols clients)
Reach-ArePaired p read_fds s clients told begins = ((refl, refl), refl)
Reach-ArePaired p read_fds s clients told
      (joins {s = before} {clients = cs} {told = said} {sent = sent} new r e) =
    let (paired, same) = Reach-ArePaired p read_fds before cs said r in
    let (paired', told') =
      subst (Welcomes cs new) e (on_connection-Welcomes before cs new paired) in
    (paired', ap (λ l. l ++ sent) same ∙ told')
Reach-ArePaired p read_fds s clients told (passes {s = before} i received r e) =
    let (paired, same) = Reach-ArePaired p read_fds before clients told r in
    (subst (Stays clients) e (on_data-Stays before clients i received paired), same)
