-- ===== src/Http/Send/Sent.antt =====
-- What `send_to_server` has written when it ends.
use protocoale.Base.{
  ℕ, zero, suc, ◌+◌, ◌≤◌, ◌<◌, ◌≡◌, refl, sym, ap, ◌∙◌, arith, Bool, true, false, List, [], ◌∷◌,
  ◌++◌, length, take, drop, take_all, ltb, ltb→lt, Bool-cases, inl, inr, if◌then◌else◌,
}
use protocoale.Http.Send.{
  Write, accepted, refused, Sending, returned, stopped, waiting, send_loop, send_to_server,
}

take-nil : (n : ℕ) → ◌≡◌ {A = List ℕ} (take n []) []
take-nil zero = refl
take-nil (suc n) = refl

take-drop : (a b : ℕ) (xs : List ℕ) → take a xs ++ take b (drop a xs) ≡ take (a + b) xs
take-drop zero b xs = ap (λ n. take n xs) (omega arith)
take-drop (suc a) b [] = take-nil b ∙ sym (take-nil (suc a + b))
take-drop (suc a) b (x ∷ xs) =
    let e : suc a + b ≡ suc (a + b) = omega arith in rw e (ap (λ l. x ∷ l) (take-drop a b xs))

-- What is on the wire is the message up to some byte.
abbrev pub IsPrefix : List ℕ → Sending → Type 0
IsPrefix message (returned wire) = (k : ℕ) × (wire ≡ take k message)
IsPrefix message (stopped wire) = (k : ℕ) × (wire ≡ take k message)
IsPrefix message (waiting wire) = (k : ℕ) × (wire ≡ take k message)

either_way :
    (message : List ℕ) (b : Bool) (x y : Sending)
    → IsPrefix message x
    → IsPrefix message y
    → IsPrefix message (if b then x else y)
either_way message true x y p q = p
either_way message false x y p q = q

send_loop-IsPrefix :
    (message : List ℕ) (writes : List Write) (sent : ℕ)
    → IsPrefix message (send_loop message writes sent (take sent message))
unfolding send_loop
send_loop-IsPrefix message [] sent = (sent, refl)
send_loop-IsPrefix message (refused ∷ writes) sent = (sent, refl)
send_loop-IsPrefix message (accepted zero ∷ writes) sent = (sent, refl)
send_loop-IsPrefix message (accepted (suc n) ∷ writes) sent = rw (take-drop sent (suc n) message) (
    either_way message (ltb (sent + suc n) (length message))
      (send_loop message writes (sent + suc n) (take (sent + suc n) message))
      (returned (take (sent + suc n) message)) (send_loop-IsPrefix message writes (sent + suc n))
      (sent + suc n, refl))

-- Each result is a positive number of bytes.
abbrev pub AllTaken : List Write → Type 0
AllTaken [] = Unit {0}
AllTaken (refused ∷ writes) = ⊥
AllTaken (accepted n ∷ writes) = (0 < n) × AllTaken writes

send_loop_all :
    (message : List ℕ) (writes : List Write) (sent : ℕ)
    → AllTaken writes
    → length message ≤ sent + length writes
    → sent < length message
    → send_loop message writes sent (take sent message) ≡ returned message
unfolding send_loop
send_loop_all message [] sent a h s = absurd (omega arith)
send_loop_all message (refused ∷ writes) sent a h s = absurd a
send_loop_all message (accepted zero ∷ writes) sent a h s = absurd (omega (arith, a.0))
send_loop_all message (accepted (suc n) ∷ writes) sent a h s =
    elim (Bool-cases (ltb (sent + suc n) (length message))) [
      | inl more ↦
          rw (take-drop sent (suc n) message, more)
            (send_loop_all message writes (sent + suc n) a.1 (omega arith)
              (ltb→lt (sent + suc n) (length message) more))
      | inr done ↦
          let all : length message ≤ sent + suc n = ground arith in
          rw (take-drop sent (suc n) message, done)
            (ap returned (take_all (sent + suc n) message all))
    ]

-- Whatever the calls of `write` return, what `send_to_server` has put on the wire is a prefix of the
-- message.
send_to_server-IsPrefix :
    (message : List ℕ) (writes : List Write) → IsPrefix message (send_to_server message writes)
unfolding send_to_server
send_to_server-IsPrefix message writes = send_loop-IsPrefix message writes 0

-- If each call of `write` takes at least one byte and there are as many calls as the message has
-- bytes, `send_to_server` returns with all of a message that is not empty on the wire.
pub send_to_server_all :
    (message : List ℕ) (writes : List Write)
    → AllTaken writes
    → length message ≤ length writes
    → 0 < length message
    → send_to_server message writes ≡ returned message
unfolding send_to_server
send_to_server_all message writes a h s = send_loop_all message writes 0 a (omega arith) s
