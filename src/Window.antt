-- ===== src/Window.antt =====
-- 3lab/send.c and 3lab/recv.c: a sender that keeps a window of messages unanswered, and a receiver
-- that looks at the parity byte of each message and answers with ACK or NACK. Between them is the
-- link emulator, whose `msg` has no parity field.
pub mod Parity
pub mod Detection
pub mod Exchange
pub mod Unanswered
pub mod Ending
pub mod Tests
use protocoale.Base.{
  ℕ, zero, suc, ◌+◌, ◌-◌, ◌*◌, ◌/◌, ◌^◌, List, [], ◌∷◌, ◌++◌, length, replicate, ltb, ◌==◌,
  if◌then◌else◌, bit_and, bit_xor,
}
use protocoale.Bytes.{Memory, read_bytes, write_bytes, store32}
use protocoale.Link.Threads

abbrev pub msgsize : ℕ
msgsize = 1400

abbrev pub count : ℕ
count = 100

pub record Msg : Type 0 where
  pub len : ℕ
  pub parity : ℕ
  pub payload : Memory

-- `struct pkt` is `MSGSIZE` bytes: the type at 0, the checksum at 4 and the text behind them.
abbrev pub header_len : ℕ
header_len = 2 * 4

-- `p.type = type; p.checksum = 0; strcpy(p.payload, text);`
unfoldable pub fill_pkt : Memory → (type : ℕ) → (text : List ℕ) → Memory
fill_pkt p type text = write_bytes (store32 (store32 p 0 type) 4 0) header_len (text ++ 0 ∷ [])

-- `for (j = 0; j < 8; j++) parity ^= (1 << j) & c;` from `j` on, with `left` rounds to go.
unfoldable pub xor_bits : (c left j parity : ℕ) → ℕ
xor_bits c zero j parity = parity
xor_bits c (suc left) j parity = xor_bits c left (j + 1) (bit_xor parity (bit_and (2 ^ j) c))

unfoldable pub xor_bytes : List ℕ → (parity : ℕ) → ℕ
unfolding xor_bits
xor_bytes [] parity = parity
xor_bytes (c ∷ cs) parity = xor_bytes cs (xor_bits c 8 0 parity)

-- The parity byte of the first `len` bytes; it starts with the character 0.
unfoldable pub parity_of : Memory → (len : ℕ) → ℕ
unfolding xor_bytes
parity_of payload len = xor_bytes (read_bytes payload 0 len) 48

-- `DLE`, 17 question marks, `DLEDLE`, 22 question marks, `DLE`.
abbrev pub mesaj : List ℕ
mesaj =
    let dle = 68 ∷ 76 ∷ 69 ∷ [] in dle ++ replicate 17 63 ++ dle ++ dle ++ replicate 22 63 ++ dle

-- The message that the sender makes from its packet `p`.
unfoldable pub new_msg : Memory → Msg
unfolding parity_of
new_msg p =
    let filled = fill_pkt p 0 mesaj in
    let len = length mesaj + header_len in
    record { len = len; parity = parity_of filled len; payload = filled }

-- The receiver's `p` and `r` after a message, where `text` is the answer.
unfoldable pub answer : Memory → Msg → (type : ℕ) → (text : List ℕ) → Memory × Msg
answer p r type text =
    let filled = fill_pkt p type text in
    (filled, record r { payload = filled; len = length text + header_len })

abbrev pub ack : List ℕ
ack = 65 ∷ 67 ∷ 75 ∷ []

abbrev pub nack : List ℕ
nack = 78 ∷ 65 ∷ 67 ∷ 75 ∷ []

-- The body of the receiver's loop between `recv_message` and `send_message`.
unfoldable pub reply : Memory → Msg → Memory × Msg
unfolding parity_of answer
reply p r =
    if parity_of r.payload r.len == r.parity then answer r.payload r 1 ack else answer p r 2 nack

-- `send_message` of 3lab/link_emulator/lib.c sends the bytes of a `msg` of the link emulator: its
-- payload begins with the parity byte.
unfoldable pub send_message : Msg → Threads.Msg
send_message m = record {
  len = m.len;
  payload = λ i. if i == 0 then m.parity else m.payload (i - 1);
}

-- `recv_message(r)` writes that many bytes: the last byte of the payload stays.
unfoldable pub recv_message : (r : Msg) → Threads.Msg → Msg
recv_message r m = record {
  len = m.len;
  parity = m.payload 0;
  payload = λ i. if ltb (i + 1) msgsize then m.payload (i + 1) else r.payload i;
}

-- `BDP * 1000 / (sizeof(msg) * 8)`: a `msg` is 1408 bytes, with the padding at its end.
unfoldable pub window_size : (bdp : ℕ) → ℕ
window_size bdp = bdp * 1000 / (1408 * 8)
