-- ===== src/Transfer/Completion.antt =====
-- How a transfer ends, for the sender and for the receiver.
use protocoale.Base.{
  ℕ, zero, suc, ◌+◌, ◌*◌, ◌^◌, ◌≤◌, ◌<◌, ◌≡◌, ◌≢◌, ◌⊎◌, inl, inr, refl, sym, ap, ◌∙◌, subst, arith,
  List, [], ◌∷◌, ◌++◌, length, take, drop, length-append, append-nil, append_assoc, if◌then◌else◌,
}
use protocoale.Transfer.{
  payload_len, Pkt, Sender, naming, awaiting_name, reading, awaiting, sender_done, receiver_done,
  Session, name_pkt, send_name, sender_gets, send_chunk, sender_at, receive_name, receive_data,
  receiver_at, Turn, sender_moves, receiver_moves, move, moves, start,
}
use protocoale.Transfer.Stages.{
  Phase, begins, named, name_answered, ready, flying, answered, ended, bytes_of,
}
use protocoale.Transfer.Progress.{more_to_read, move-Phase, moves-Phase, start-Phase}

abbrev weight_at : Sender → (rest queued : ℕ) → ℕ
weight_at naming n q = 4 * n + 8
weight_at awaiting_name n q = 4 * n + 2 * q + 4
weight_at reading n q = 4 * n + 3
weight_at awaiting n q = 4 * n + 2 * q + 4
weight_at sender_done n q = 0

-- What is left to do.
abbrev weight : Session → ℕ
weight s = weight_at s.sender (length s.rest) (length s.to_receiver)

-- One of the processes can bring the transfer on.
abbrev Advances : Session → Type 0
Advances s = (s.sender ≡ sender_done) ⊎ ((t : Turn) × (weight (move t s) < weight s))

length-drop-lt : (n : ℕ) (x : ℕ) (xs : List ℕ) → length (drop (suc n) (x ∷ xs)) < length (x ∷ xs)
length-drop-lt n x xs = omega (arith, length-drop-le n xs)
  where
    length-drop-le : (n : ℕ) (xs : List ℕ) → length (drop n xs) ≤ length xs
    length-drop-le zero xs = omega arith
    length-drop-le (suc n) [] = omega arith
    length-drop-le (suc n) (x ∷ xs) = omega (arith, length-drop-le n xs)

chunk_sent :
    (s : Session) (rest : List ℕ)
    → s.rest ≡ rest
    → s.to_receiver ≡ []
    → weight (send_chunk s (take payload_len rest)) < 4 * length s.rest + 3
unfolding send_chunk
chunk_sent s [] e none = omega arith
chunk_sent s (x ∷ xs) e none =
    let shorter : length (drop payload_len s.rest) < length s.rest =
      subst (λ l. length (drop payload_len l) < length l) (sym e) (length-drop-lt 1391 x xs) in
    omega (arith, ap length none, length-append s.to_receiver (_ ∷ []))

advances : (s : Session) (file : List ℕ) → length file < 2 ^ 31 → Phase s file → Advances s
unfolding move sender_at send_name sender_gets receiver_at receive_name receive_data
advances s file small (begins a b c d e f g h) = inr (
  sender_moves,
  subst (λ w. weight (sender_at w s) < weight_at w (length s.rest) (length s.to_receiver)) (sym a)
      (omega (
        arith,
        ap length g,
        length-append s.to_receiver (record { len = s.size; payload = name_pkt s.p } ∷ []),
      )),
)
advances s file small (named m a b c d e f g h) = inr (
  receiver_moves,
  subst (λ r. weight (receiver_at r s) < weight s) (sym b)
      (subst (λ q. weight (receive_name s q) < weight s) (sym g)
        (subst
          (λ w. weight_at w (length s.rest) 0 < weight_at w (length s.rest) (length s.to_receiver))
          (sym a) (omega (arith, ap length g)))),
)
advances s file small (name_answered m a l whole g h) = inr (
  sender_moves,
  subst (λ w. weight (sender_at w s) < weight_at w (length s.rest) (length s.to_receiver)) (sym a)
      (subst (λ q. weight (sender_gets s q) < 4 * length s.rest + 2 * length s.to_receiver + 4)
        (sym h) (omega arith)),
)
advances s file small (ready a l whole g h) = inr (
  sender_moves,
  subst (λ w. weight (sender_at w s) < weight_at w (length s.rest) (length s.to_receiver)) (sym a)
      (chunk_sent s s.rest refl g),
)
advances s file small (flying m a l some whole g h) = inr (
  receiver_moves,
  subst (λ r. weight (receiver_at r s) < weight s) (sym (l.stays some small))
      (subst
        (λ b.
          weight (if b then receive_data s s.to_receiver else record s { receiver = receiver_done })
          < weight s)
        (sym (more_to_read s file l some small))
        (subst (λ q. weight (receive_data s q) < weight s) (sym g)
          (subst
            (λ w.
              weight_at w (length s.rest) 0 < weight_at w (length s.rest) (length s.to_receiver))
            (sym a) (omega (arith, ap length g))))),
)
advances s file small (answered m a l whole g h) = inr (
  sender_moves,
  subst (λ w. weight (sender_at w s) < weight_at w (length s.rest) (length s.to_receiver)) (sym a)
      (subst (λ q. weight (sender_gets s q) < 4 * length s.rest + 2 * length s.to_receiver + 4)
        (sym h) (omega arith)),
)
advances s file small (ended a l whole none g h) = inl a

-- What has been written when the sender is done.
done_written :
    (s : Session) (file : List ℕ) → s.sender ≡ sender_done → Phase s file → s.written ≡ file
done_written s file at (begins a b c d e f g h) = cc
done_written s file at (named m a b c d e f g h) = cc
done_written s file at (name_answered m a l whole g h) = cc
done_written s file at (ready a l whole g h) = cc
done_written s file at (flying m a l some whole g h) = cc
done_written s file at (answered m a l whole g h) = cc
done_written s file at (ended a l whole none g h) = whole

ends :
    (n : ℕ) (s : Session) (file : List ℕ)
    → length file < 2 ^ 31
    → Phase s file
    → weight s < n
    → (ts : List Turn) × ((moves ts s).sender ≡ sender_done)
unfolding moves
ends zero s file small p h = absurd (omega arith)
ends (suc n) s file small p h = elim (advances s file small p) [
  | inl done ↦ ([], done)
  | inr (t, less) ↦
      let (ts, e) = ends n (move t s) file small (move-Phase t s file p) (omega arith) in
      (t ∷ ts, e)
]

-- For a file of less than 2^31 bytes some order of moves brings the sender to its end, and then the
-- receiver has written the file.
pub transfer_ends :
    (file : List ℕ) (p : Pkt)
    → length file < 2 ^ 31
    → (ts : List Turn) × ((moves ts (start file p)).sender ≡ sender_done)
      × ((moves ts (start file p)).written ≡ file)
transfer_ends file p small =
    let (ts, e) =
      ends (weight (start file p) + 1) (start file p) file small (start-Phase file p)
        (omega arith) in
    (
      ts,
      e,
      done_written (moves ts (start file p)) file e
          (moves-Phase ts (start file p) file (start-Phase file p)),
    )

-- Bytes behind `written` that make it the file.
abbrev Behind : Session → List ℕ → Type 0
Behind s file = (tail : List ℕ) × (s.written ++ tail ≡ file)

behind : (s : Session) (file : List ℕ) → Phase s file → Behind s file
behind s file (begins a b c d e f g h) = (file, ap (λ l. l ++ file) f)
behind s file (named m a b c d e f g h) = (file, ap (λ l. l ++ file) f)
behind s file (name_answered m a l whole g h) = (s.rest, whole)
behind s file (ready a l whole g h) = (s.rest, whole)
behind s file (flying m a l some whole g h) =
    (bytes_of m ++ s.rest, sym (append_assoc s.written (bytes_of m) s.rest) ∙ whole)
behind s file (answered m a l whole g h) = (s.rest, whole)
behind s file (ended a l whole none g h) = ([], append-nil s.written ∙ whole)

never_done :
    (s : Session) (file : List ℕ)
    → file ≢ []
    → length file < 2 ^ 31
    → Phase s file
    → s.receiver ≢ receiver_done
never_done s file n small (begins a b c d e f g h) at = cc
never_done s file n small (named m a b c d e f g h) at = cc
never_done s file n small (name_answered m a l whole g h) at = let stays = l.stays n small in cc
never_done s file n small (ready a l whole g h) at = let stays = l.stays n small in cc
never_done s file n small (flying m a l some whole g h) at = let stays = l.stays n small in cc
never_done s file n small (answered m a l whole g h) at = let stays = l.stays n small in cc
never_done s file n small (ended a l whole none g h) at = let stays = l.stays n small in cc

-- After any moves, what the receiver has written is a prefix of the file, and all of it once the
-- sender is done.
pub transfer_written :
    (file : List ℕ) (p : Pkt) (ts : List Turn)
    → ((tail : List ℕ) × ((moves ts (start file p)).written ++ tail ≡ file))
      × ((moves ts (start file p)).sender ≡ sender_done → (moves ts (start file p)).written ≡ file)
transfer_written file p ts =
    let s = moves ts (start file p) in
    let phase = moves-Phase ts (start file p) file (start-Phase file p) in
    (behind s file phase, λ e. done_written s file e phase)

-- The receiver never leaves its loop, if the file has at least one byte and less than 2^31.
pub receiver_never_done :
    (file : List ℕ) (p : Pkt) (ts : List Turn)
    → file ≢ []
    → length file < 2 ^ 31
    → (moves ts (start file p)).receiver ≢ receiver_done
receiver_never_done file p ts n small =
    never_done (moves ts (start file p)) file n small
      (moves-Phase ts (start file p) file (start-Phase file p))
