-- ===== src/Select/Closing.antt =====
-- Which descriptors `close_all_sock` closes.
use protocoale.Base.{
  ℕ, zero, suc, ◌+◌, ◌≡◌, arith, Bool, false, ◌||◌, ◌&&◌, List, [], ◌∷◌, ltb, leb, ◌==◌,
}
use protocoale.Select.{close_from, close_all_sock}

abbrev pub is_among : ℕ → List ℕ → Bool
is_among fd [] = false
is_among fd (c ∷ cs) = (fd == c) || is_among fd cs

close_from-is_among :
    (fds : ℕ → Bool) (left sock fd : ℕ)
    → is_among fd (close_from fds left sock) ≡ (fds fd && (leb sock fd && ltb fd (sock + left)))
unfolding close_from
close_from-is_among fds zero sock fd = ground arith
close_from-is_among fds (suc left) sock fd =
    ground (arith, close_from-is_among fds left (sock + 1) fd)

pub close_all_sock-is_among :
    (fds : ℕ → Bool) (fdmax fd : ℕ)
    → is_among fd (close_all_sock fds fdmax) ≡ (fds fd && ltb fd fdmax)
unfolding close_all_sock
close_all_sock-is_among fds fdmax fd = ground (arith, close_from-is_among fds fdmax 0 fd)
