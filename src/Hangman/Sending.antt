-- ===== src/Hangman/Sending.antt =====
-- Who receives what the loop of the hangman server sends to all.
use protocoale.Base.{
  ℕ, zero, suc, ◌+◌, ◌-◌, ◌≡◌, ◌∙◌, refl, arith, Bool, ◌&&◌, List, [], ◌∷◌, ◌++◌, ltb, leb, ◌==◌,
  if◌then◌else◌,
}
use protocoale.Hangman.Scan.{String}
use protocoale.Hangman.{Server, send_from, send_all}

-- What the socket `k` receives, in order.
abbrev pub messages_for : (k : ℕ) → List (ℕ × String) → List String
messages_for k [] = []
messages_for k (m ∷ sent) = let rest = messages_for k sent in if m.0 == k then m.1 ∷ rest else rest

-- Every watched socket from 4 to `fdmax` receives these texts, each once and in this order, and no
-- other socket receives anything.
abbrev pub ToldAll : Server → (texts : List String) → (sent : List (ℕ × String)) → Type 0
ToldAll s texts sent =
    (k : ℕ)
    → messages_for k sent ≡ (if s.read_fds k && (leb 4 k && leb k s.fdmax) then texts else [])

messages_for-append :
    (k : ℕ) (sent more : List (ℕ × String))
    → messages_for k (sent ++ more) ≡ messages_for k sent ++ messages_for k more
messages_for-append k [] more = refl
messages_for-append k (m ∷ sent) more = ground (arith, messages_for-append k sent more)

messages_for-send_from :
    (read_fds : ℕ → Bool) (text : String) (left j k : ℕ)
    → messages_for k (send_from read_fds text left j)
      ≡ (if read_fds k && (leb j k && ltb k (j + left)) then text ∷ [] else [])
unfolding send_from
messages_for-send_from read_fds text zero j k = ground arith
messages_for-send_from read_fds text (suc left) j k =
    ground (arith, messages_for-send_from read_fds text left (j + 1) k)

pub send_all-ToldAll : (s : Server) (text : String) → ToldAll s (text ∷ []) (send_all s text)
unfolding send_all
send_all-ToldAll s text k =
    ground (arith, messages_for-send_from s.read_fds text (s.fdmax + 1 - 4) 4 k)

pub send_twice-ToldAll :
    (s : Server) (text more : String)
    → ToldAll s (text ∷ more ∷ []) (send_all s text ++ send_all s more)
send_twice-ToldAll s text more k =
    messages_for-append k (send_all s text) (send_all s more)
    ∙ ground (arith, send_all-ToldAll s text k, send_all-ToldAll s more k)
