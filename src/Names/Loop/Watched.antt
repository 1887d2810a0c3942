-- ===== src/Names/Loop/Watched.antt =====
-- The bound on the descriptors that `select` and the loop over them are given.
use protocoale.Base.{
  subst, inl, inr, Option-cases, ℕ, ◌≤◌, ◌≡◌, refl, arith, true, ◌&&◌, not, none, some, List, [],
  ◌∷◌, ◌==◌,
}
use protocoale.Select.{close_all_sock}
use protocoale.Select.Closing.{is_among, close_all_sock-is_among}
use protocoale.Text.{same_text}
use protocoale.Names.{String, Served, serves, fault, serve}
use protocoale.Names.Loop.{
  Server, start, Round, next, exits, broken, on_connection, after, on_data, on_keyboard, Event,
  connection, data_on, typed, on_event, state_of, run, quit,
}

-- No watched descriptor is above `fdmax`.
abbrev IsBounded : Server → Type 0
IsBounded s = (fd : ℕ) → s.read_fds fd ≡ true → fd ≤ s.fdmax

abbrev Bounded : Round → Type 0
Bounded (next s sent closed) = IsBounded s
Bounded exits = Unit {0}
Bounded broken = Unit {0}

after-Bounded : (s : Server) (r : Served) → IsBounded s → Bounded (after s r)
after-Bounded s (serves t sent) h = h
after-Bounded s fault h = tt

on_event-Bounded :
    (split : String → List String) (s : Server) (e : Event)
    → IsBounded s
    → Bounded (on_event split s e)
unfolding on_event on_connection on_data on_keyboard
on_event-Bounded split s (connection none) h = tt
on_event-Bounded split s (connection (some new)) h = λ fd w. ground (arith, h fd)
on_event-Bounded split s (data_on i none) h = tt
on_event-Bounded split s (data_on i (some [])) h = λ fd w. ground (arith, h fd)
on_event-Bounded split s (data_on i (some (c ∷ cs))) h =
    after-Bounded s (serve split s.tables (c ∷ cs)) h
on_event-Bounded split s (typed line) h = ground (arith, h)

state_of-IsBounded : (r : Round) (s : Server) → Bounded r → state_of r ≡ some s → IsBounded s
state_of-IsBounded (next t sent closed) s h e = let same : t ≡ s = cc e in subst IsBounded same h
state_of-IsBounded exits s h e = absurd (ground arith)
state_of-IsBounded broken s h e = absurd (ground arith)

run-IsBounded :
    (split : String → List String) (events : List Event) (s s' : Server)
    → IsBounded s
    → run split s events ≡ some s'
    → IsBounded s'
run-IsBounded split [] s s' h e = let same : s ≡ s' = cc e in subst IsBounded same h
run-IsBounded split (event ∷ more) s s' h e =
    elim (Option-cases (state_of (on_event split s event))) [
      | inl stops ↦ absurd (ground arith)
      | inr (t, goes) ↦
          let bounded = state_of-IsBounded _ t (on_event-Bounded split s event h) goes in
          run-IsBounded split more t s' bounded (ground arith)
    ]

-- In every state that events lead to, `quit` closes exactly the watched descriptors other than the
-- highest that was ever watched, and the loop goes on in the same state.
pub run-close_all_sock :
    (split : String → List String) (sockfd : ℕ) (events : List Event) (s : Server)
    → run split (start sockfd) events ≡ some s
    → (closed : List ℕ) × (on_event split s (typed quit) ≡ next s [] closed)
      × ((fd : ℕ) → is_among fd closed ≡ (s.read_fds fd && not (fd == s.fdmax)))
unfolding on_event on_keyboard same_text
run-close_all_sock split sockfd events s e =
    let bounded = run-IsBounded split events (start sockfd) s (λ fd w. ground arith) e in
    (
      close_all_sock s.read_fds s.fdmax,
      refl,
      λ fd. ground (arith, bounded fd, close_all_sock-is_among s.read_fds s.fdmax fd),
    )
