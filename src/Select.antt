-- ===== src/Select.antt =====
-- The descriptors that the servers give to `select`: the set `read_fds`, and `close_all_sock` of
-- training/dns_server/server.cpp and training/practic/server.cpp; and the first client, which
-- training/practic/server.cpp and training/spanzuratoarea/server.cpp remember.
pub mod Closing
use protocoale.Base.{
  ℕ, zero, suc, ◌+◌, Bool, true, false, Option, none, some, List, [], ◌∷◌, ltb, ◌==◌, if◌then◌else◌,
}

-- `FD_SET` and `FD_CLR`.
abbrev pub watch : (ℕ → Bool) → (fd : ℕ) → (on : Bool) → ℕ → Bool
watch fds fd on i = if i == fd then on else fds i

abbrev pub higher : (fdmax newsockfd : ℕ) → ℕ
higher fdmax newsockfd = if ltb fdmax newsockfd then newsockfd else fdmax

-- The first client of a server: the one it had, -1 being `none`, or else the one that has come.
abbrev pub first_of : Option ℕ → (newsockfd : ℕ) → Option ℕ
first_of none newsockfd = some newsockfd
first_of (some first) newsockfd = some first

abbrev pub is_first : Option ℕ → (i : ℕ) → Bool
is_first none i = false
is_first (some first) i = first == i

-- The descriptors that `close_all_sock` closes, from `sock` on.
unfoldable pub close_from : (fd : ℕ → Bool) → (left sock : ℕ) → List ℕ
close_from fd zero sock = []
close_from fd (suc left) sock =
    let rest = close_from fd left (sock + 1) in if fd sock then sock ∷ rest else rest

unfoldable pub close_all_sock : (fd : ℕ → Bool) → (fdmax : ℕ) → List ℕ
close_all_sock fd fdmax = close_from fd fdmax 0
