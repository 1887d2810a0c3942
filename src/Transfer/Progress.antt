-- ===== src/Transfer/Progress.antt =====
-- What has been written, is on its way and is left to read is the file.
use protocoale.Base.{
  ℕ, ◌<◌, ◌≡◌, ◌≢◌, ◌⊎◌, refl, sym, ap, ◌∙◌, subst, arith, true, List, [], ◌∷◌, ◌++◌, length, take,
  drop, append-nil, append_assoc, take-append-drop, ◌^◌, Bool, false, Bool-cases, inl, inr,
  if◌then◌else◌,
}
use protocoale.Base.Int.{ltb_ℤ, to_int}
use protocoale.Bytes.{write_bytes}
use protocoale.Bytes.Copy.{read_bytes-write_bytes}
use protocoale.Transfer.{
  payload_len, Pkt, Msg, Sender, reading, awaiting, Receiver, receiving_name, looping,
  receiver_done, Session, send_name, sender_gets, send_chunk, sender_at, acknowledged, name_pkt,
  receive_name, receive_data, receiver_at, Turn, sender_moves, receiver_moves, move, moves, start,
}
use protocoale.Transfer.Stages.{
  InLoop, bytes_of, Phase, begins, named, name_answered, ready, flying, answered, ended,
}

InLoop-sender :
    (s : Session) (file : List ℕ) (sender : Sender) (ms : List Msg)
    → InLoop s file
    → InLoop (record s { sender = sender; to_sender = ms }) file
InLoop-sender s file sender ms l = record {
  stays = l.stays;
  started = l.started;
  size = l.size;
  unchanged = l.unchanged;
}

-- The sender reads the next bytes of the file, or is done.
reads_on :
    (s : Session) (file rest : List ℕ)
    → s.rest ≡ rest
    → InLoop s file
    → s.written ++ s.rest ≡ file
    → s.to_receiver ≡ []
    → s.to_sender ≡ []
    → Phase (send_chunk s (take payload_len rest)) file
unfolding send_chunk
reads_on s file [] e l whole r w =
    ended refl
      (record { stays = l.stays; started = l.started; size = l.size; unchanged = l.unchanged })
      (sym (append-nil s.written) ∙ ap (λ x. s.written ++ x) (sym e) ∙ whole) e r w
reads_on s file (x ∷ xs) e l whole r w =
    let chunk = take payload_len (x ∷ xs) in
    let p : Pkt = record s.p { type = 0; payload = write_bytes s.p.payload 0 chunk } in
    let m : Msg = record { len = length chunk; payload = p } in
    let brings : bytes_of m ≡ chunk = read_bytes-write_bytes s.p.payload 0 chunk in
    let all : s.written ++ bytes_of m ++ drop payload_len s.rest ≡ file =
      append_assoc s.written (bytes_of m) (drop payload_len s.rest)
      ∙ ap (λ l. s.written ++ (l ++ drop payload_len s.rest))
          (brings ∙ ap (take payload_len) (sym e))
      ∙ ap (λ l. s.written ++ l) (take-append-drop payload_len s.rest)
      ∙ whole in
    flying m refl
      (record { stays = l.stays; started = l.started; size = l.size; unchanged = l.unchanged })
      (λ none. not_empty s.written x xs (ap (λ l. s.written ++ l) (sym e) ∙ whole ∙ none)) all
      (ap (λ l. l ++ m ∷ []) r) w
  where
    not_empty : (l : List ℕ) (x : ℕ) (xs : List ℕ) → l ++ x ∷ xs ≢ []
    not_empty [] x xs h = cc
    not_empty (y ∷ l) x xs h = cc

name : Session → Msg
name s = record { len = s.size; payload = name_pkt s.p }

sender-Phase : (s : Session) (file : List ℕ) → Phase s file → Phase (sender_at s.sender s) file
unfolding sender_at send_name sender_gets name
sender-Phase s file (begins a b c d e f g h) =
    subst (λ w. Phase (sender_at w s) file) (sym a)
      (named (name s) refl b c d e f (ap (λ l. l ++ name s ∷ []) g) h)
sender-Phase s file (named m a b c d e f g h) =
    subst (λ w. Phase (sender_at w s) file) (sym a)
      (subst (λ l. Phase (sender_gets s l) file) (sym h) (named m a b c d e f g h))
sender-Phase s file (name_answered m a l whole g h) =
    subst (λ w. Phase (sender_at w s) file) (sym a)
      (subst (λ l. Phase (sender_gets s l) file) (sym h)
        (ready refl (InLoop-sender s file reading [] l) whole g refl))
sender-Phase s file (ready a l whole g h) =
    subst (λ w. Phase (sender_at w s) file) (sym a) (reads_on s file s.rest refl l whole g h)
sender-Phase s file (flying m a l some whole g h) =
    subst (λ w. Phase (sender_at w s) file) (sym a)
      (subst (λ l. Phase (sender_gets s l) file) (sym h) (flying m a l some whole g h))
sender-Phase s file (answered m a l whole g h) =
    subst (λ w. Phase (sender_at w s) file) (sym a)
      (subst (λ l. Phase (sender_gets s l) file) (sym h)
        (ready refl (InLoop-sender s file reading [] l) whole g refl))
sender-Phase s file (ended a l whole none g h) =
    subst (λ w. Phase (sender_at w s) file) (sym a) (ended a l whole none g h)

-- The file is one whose transfer the receiver may leave: it is empty, or its length is no `int`.
abbrev MayLeave : List ℕ → Type 0
MayLeave file = file ≢ [] → length file < 2 ^ 31 → ⊥

abbrev more : Session → Bool
more s = ltb_ℤ (to_int s.check) (to_int s.file_size)

-- The receiver's loop goes on.
pub more_to_read :
    (s : Session) (file : List ℕ)
    → InLoop s file
    → file ≢ []
    → length file < 2 ^ 31
    → ltb_ℤ (to_int s.check) (to_int s.file_size) ≡ true
more_to_read s file l some small =
    let long : 0 < length file = nonempty file some in ground (arith, l.size, l.unchanged)
  where
    nonempty : (file : List ℕ) → file ≢ [] → 0 < length file
    nonempty [] n = absurd (n refl)
    nonempty (x ∷ xs) n = omega arith

enough_read : (s : Session) (file : List ℕ) → InLoop s file → more s ≡ false → MayLeave file
enough_read s file l enough some small = let goes = more_to_read s file l some small in cc

-- A receiver in its loop without a message waits, or leaves the loop.
idle_receiver :
    (s : Session) (file : List ℕ) (r : Receiver)
    → s.receiver ≡ r
    → InLoop s file
    → s.to_receiver ≡ []
    → (receiver_at r s ≡ s)
      ⊎ ((receiver_at r s ≡ record s { receiver = receiver_done }) × MayLeave file)
unfolding receiver_at receive_data
idle_receiver s file receiving_name e l none = absurd (l.started e)
idle_receiver s file receiver_done e l none = inl refl
idle_receiver s file looping e l none = elim (Bool-cases (more s)) [
  | inl goes ↦ inl (rw goes (ap (receive_data s) none))
  | inr enough ↦ inr (rw enough refl, enough_read s file l enough)
]

InLoop-done :
    (s : Session) (file : List ℕ)
    → MayLeave file
    → InLoop s file
    → InLoop (record s { receiver = receiver_done }) file
InLoop-done s file e l = record {
  stays = λ n small. absurd (e n small);
  started = λ h. cc;
  size = l.size;
  unchanged = l.unchanged;
}

-- What holds of both is kept by a receiver without a message.
kept :
    (s : Session) (file : List ℕ)
    → InLoop s file
    → s.to_receiver ≡ []
    → Phase s file
    → (MayLeave file → Phase (record s { receiver = receiver_done }) file)
    → Phase (receiver_at s.receiver s) file
kept s file l none p done = elim (idle_receiver s file s.receiver refl l none) [
  | inl same ↦ subst (λ s'. Phase s' file) (sym same) p
  | inr (left, e) ↦ subst (λ s'. Phase s' file) (sym left) (done e)
]

-- A receiver with a packet takes it, or leaves its loop, or has left it.
takes_data :
    (s : Session) (file : List ℕ) (m : Msg) (r : Receiver)
    → s.receiver ≡ r
    → s.sender ≡ awaiting
    → InLoop s file
    → file ≢ []
    → s.written ++ bytes_of m ++ s.rest ≡ file
    → s.to_receiver ≡ m ∷ []
    → s.to_sender ≡ []
    → Phase (receiver_at r s) file
unfolding receiver_at receive_data acknowledged
takes_data s file m receiving_name e a l some whole g h = absurd (l.started e)
takes_data s file m receiver_done e a l some whole g h = flying m a l some whole g h
takes_data s file m looping e a l some whole g h = elim (Bool-cases (more s)) [
  | inr enough ↦
      subst
        (λ b.
          Phase (if b then receive_data s s.to_receiver else record s { receiver = receiver_done })
            file)
        (sym enough)
        (flying m a (InLoop-done s file (enough_read s file l enough) l) some whole g h)
  | inl goes ↦
      subst
        (λ b.
          Phase (if b then receive_data s s.to_receiver else record s { receiver = receiver_done })
            file)
        (sym goes)
        (subst (λ q. Phase (receive_data s q) file) (sym g)
          (answered (acknowledged m) a
            (record {
              stays = l.stays;
              started = l.started;
              size = l.size;
              unchanged = omega (arith, l.unchanged);
            })
            whole refl (ap (λ q. q ++ acknowledged m ∷ []) h)))
]

receiver-Phase :
    (s : Session) (file : List ℕ) → Phase s file → Phase (receiver_at s.receiver s) file
unfolding receiver_at receive_name receive_data acknowledged
receiver-Phase s file (begins a b c d e f g h) =
    subst (λ r. Phase (receiver_at r s) file) (sym b)
      (subst (λ l. Phase (receive_name s l) file) (sym g) (begins a b c d e f g h))
receiver-Phase s file (named m a b c d e f g h) =
    subst (λ r. Phase (receiver_at r s) file) (sym b)
      (subst (λ l. Phase (receive_name s l) file) (sym g)
        (name_answered (acknowledged m) a
          (record { stays = λ n small. refl; started = λ h. cc; size = c; unchanged = d })
          (ap (λ l. l ++ s.rest) f ∙ e) refl (ap (λ l. l ++ acknowledged m ∷ []) h)))
receiver-Phase s file (name_answered m a l whole g h) =
    kept s file l g (name_answered m a l whole g h)
      λ e. name_answered m a (InLoop-done s file e l) whole g h
receiver-Phase s file (ready a l whole g h) =
    kept s file l g (ready a l whole g h) λ e. ready a (InLoop-done s file e l) whole g h
receiver-Phase s file (flying m a l some whole g h) =
    takes_data s file m s.receiver refl a l some whole g h
receiver-Phase s file (answered m a l whole g h) =
    kept s file l g (answered m a l whole g h) λ e. answered m a (InLoop-done s file e l) whole g h
receiver-Phase s file (ended a l whole none g h) =
    kept s file l g (ended a l whole none g h) λ e. ended a (InLoop-done s file e l) whole none g h

pub move-Phase : (t : Turn) (s : Session) (file : List ℕ) → Phase s file → Phase (move t s) file
unfolding move
move-Phase sender_moves s file p = sender-Phase s file p
move-Phase receiver_moves s file p = receiver-Phase s file p

pub moves-Phase :
    (ts : List Turn) (s : Session) (file : List ℕ) → Phase s file → Phase (moves ts s) file
unfolding moves
moves-Phase [] s file p = p
moves-Phase (t ∷ ts) s file p = moves-Phase ts (move t s) file (move-Phase t s file p)

pub start-Phase : (file : List ℕ) (p : Pkt) → Phase (start file p) file
start-Phase file p = begins refl refl refl refl refl refl refl refl
