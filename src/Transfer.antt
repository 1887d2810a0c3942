-- ===== src/Transfer.antt =====
-- lab3/send.c and lab3/recv.c: a file is sent in packets, each of which is acknowledged before the
-- next one. The two processes and the messages between them, which are neither lost nor reordered.
pub mod Stages
pub mod Progress
pub mod Completion
pub mod Tests
use protocoale.Base.{
  ℕ, zero, suc, ◌+◌, ◌-◌, ◌%◌, ◌^◌, Bool, true, false, List, [], ◌∷◌, ◌++◌, length, take, drop,
  ◌==◌, if◌then◌else◌, bit_xor,
}
use protocoale.Base.Int.{ltb_ℤ, to_int}
use protocoale.Bytes.{Memory, read_bytes, write_bytes}

abbrev pub max_len : ℕ
max_len = 1400

-- `sizeof(p.payload)`.
abbrev pub payload_len : ℕ
payload_len = max_len - 8

pub record Pkt : Type 0 where
  pub type : ℕ
  pub checksum : ℕ
  pub payload : Memory

-- `payload` of a `msg` holds the bytes of a `pkt`, which is as long.
pub record Msg : Type 0 where
  pub len : ℕ
  pub payload : Pkt

-- `result + result ^ buf[i]` is `(result + result) ^ buf[i]`.
unfoldable pub xor_from : (result : ℕ) → List ℕ → ℕ
xor_from result [] = result
xor_from result (c ∷ cs) = xor_from (bit_xor (result + result) c) cs

unfoldable pub xor_sum : List ℕ → ℕ
xor_sum cs = xor_from 0 cs

-- Where the sender stands: before the name is sent; before the two calls of `recv_message`; before
-- `read`; or behind the loop.
pub data Sender : Type 0 where
  naming : Sender
  awaiting_name : Sender
  reading : Sender
  awaiting : Sender
  sender_done : Sender

-- Where the receiver stands: before the first `recv_message`; at the head of the loop; or behind it.
pub data Receiver : Type 0 where
  receiving_name : Receiver
  looping : Receiver
  receiver_done : Receiver

-- `rest` is what is left to read of the file, of `size` bytes, `p` the sender's packet, `check` and
-- `file_size` the receiver's variables, and `written` what it has written to its file. An `int` is
-- kept as its 32 bits, as a number.
pub record Session : Type 0 where
  pub sender : Sender
  pub size : ℕ
  pub rest : List ℕ
  pub p : Pkt
  pub receiver : Receiver
  pub check : ℕ
  pub file_size : ℕ
  pub written : List ℕ
  pub to_receiver : List Msg
  pub to_sender : List Msg

-- "file" and its terminator.
abbrev pub file_name : List ℕ
file_name = b'f' ∷ b'i' ∷ b'l' ∷ b'e' ∷ 0 ∷ []

-- The packet with the name.
unfoldable pub name_pkt : Pkt → Pkt
name_pkt p = record {
  type = 0;
  checksum = xor_sum (b'f' ∷ b'i' ∷ b'l' ∷ b'e' ∷ []);
  payload = write_bytes p.payload 0 file_name;
}

unfoldable pub send_name : Session → Session
send_name s = record s {
  sender = awaiting_name;
  p = name_pkt s.p;
  to_receiver = s.to_receiver ++ record { len = s.size; payload = name_pkt s.p } ∷ [];
}

-- `recv_message` waits for a message.
unfoldable pub sender_gets : Session → List Msg → Session
sender_gets s [] = s
sender_gets s (m ∷ ms) = record s { sender = reading; to_sender = ms }

-- A round of the loop up to `recv_message`, with the bytes that `read` has put into the packet.
unfoldable pub send_chunk : Session → (chunk : List ℕ) → Session
send_chunk s [] = record s { sender = sender_done }
send_chunk s (x ∷ xs) =
    let p : Pkt = record s.p { type = 0; payload = write_bytes s.p.payload 0 (x ∷ xs) } in
    record s {
      sender = awaiting;
      rest = drop payload_len s.rest;
      p = p;
      to_receiver = s.to_receiver ++ record { len = length (x ∷ xs); payload = p } ∷ [];
    }

unfoldable pub sender_at : Sender → Session → Session
sender_at naming s = send_name s
sender_at awaiting_name s = sender_gets s s.to_sender
sender_at reading s = send_chunk s (take payload_len s.rest)
sender_at awaiting s = sender_gets s s.to_sender
sender_at sender_done s = s

-- `p.type = 1; strcpy(p.payload, ""); r.len = 0;`
unfoldable pub acknowledged : Msg → Msg
acknowledged m = record {
  len = 0;
  payload = record m.payload { type = 1; payload = write_bytes m.payload.payload 0 (0 ∷ []) };
}

unfoldable pub receive_name : Session → List Msg → Session
receive_name s [] = s
receive_name s (m ∷ ms) = record s {
  receiver = looping;
  file_size = m.len;
  to_receiver = ms;
  to_sender = s.to_sender ++ acknowledged m ∷ [];
}

-- A round of the loop. `check += r.len` stands behind `r.len = 0`.
unfoldable pub receive_data : Session → List Msg → Session
receive_data s [] = s
receive_data s (m ∷ ms) = record s {
  written = s.written ++ read_bytes m.payload.payload 0 m.len;
  check = (s.check + (acknowledged m).len) % 2 ^ 32;
  to_receiver = ms;
  to_sender = s.to_sender ++ acknowledged m ∷ [];
}

unfoldable pub receiver_at : Receiver → Session → Session
receiver_at receiving_name s = receive_name s s.to_receiver
receiver_at looping s =
    if ltb_ℤ (to_int s.check) (to_int s.file_size)
    then receive_data s s.to_receiver
    else record s { receiver = receiver_done }
receiver_at receiver_done s = s

pub data Turn : Type 0 where
  sender_moves : Turn
  receiver_moves : Turn

unfoldable pub move : Turn → Session → Session
move sender_moves s = sender_at s.sender s
move receiver_moves s = receiver_at s.receiver s

unfoldable pub moves : List Turn → Session → Session
moves [] s = s
moves (t ∷ ts) s = moves ts (move t s)

-- Both processes at their start, with this file, whose length is narrowed to an `int`.
abbrev pub start : (file : List ℕ) → Pkt → Session
start file p = record {
  sender = naming;
  size = length file % 2 ^ 32;
  rest = file;
  p = p;
  receiver = receiving_name;
  check = 0;
  file_size = 0;
  written = [];
  to_receiver = [];
  to_sender = [];
}
