-- ===== src/Window/Detection.antt =====
-- The parity byte finds every single bit that the link emulator flips.
use protocoale.Base.{
  ℕ, zero, suc, ◌%◌, ◌^◌, ◌<◌, ◌≡◌, ◌≢◌, some, ◌==◌, if◌then◌else◌, bit_xor, arith, refl, ap, sym,
  ◌∙◌, subst, List, [], ◌∷◌, ◌++◌, Bool, true, ltb, ◌&&◌,
}
use native.Mathlib.Nat.{mod-lt}
use protocoale.Bytes.{Memory, IsBytes, store32}
use protocoale.Bytes.Copy.{read_bytes-ext, AllBytes, store16-IsBytes, write_bytes-IsBytes}
use protocoale.Bits.Xor.{bit_xor_cancel}
use protocoale.Link.Threads
use protocoale.Link.Threads.{flip_bit}
use protocoale.Window.{
  Msg, xor_bytes, parity_of, reply, answer, ack, nack, send_message, recv_message, msgsize,
  fill_pkt, new_msg, mesaj, header_len,
}
use protocoale.Window.Parity.{flipped-byte, power-positive, Flipped, flipped-parity_of}

-- A message whose parity byte is right, and which the link emulator carries whole.
pub record IsSound (m : Msg) : Type 0 where
  pub bytes : IsBytes m.payload
  pub good : parity_of m.payload m.len ≡ m.parity
  pub some_len : 0 < m.len
  pub carried : m.len < msgsize

-- The answer to a message that came in as `r`.
abbrev pub Acknowledges : Memory → Msg → Type 0
Acknowledges p r = reply p r ≡ answer r.payload r 1 ack

abbrev pub Rejects : Memory → Msg → Type 0
Rejects p r = reply p r ≡ answer p r 2 nack

reply-Acknowledges :
    (p : Memory) (r : Msg) → parity_of r.payload r.len ≡ r.parity → Acknowledges p r
unfolding reply
reply-Acknowledges p r h = ground arith

reply-Rejects : (p : Memory) (r : Msg) → parity_of r.payload r.len ≢ r.parity → Rejects p r
unfolding reply
reply-Rejects p r h = ground arith

parity_of-ext :
    (m m' : Memory) (n : ℕ) → ((i : ℕ) → i < n → m' i ≡ m i) → parity_of m' n ≡ parity_of m n
unfolding parity_of
parity_of-ext m m' n e =
    ap (λ r. xor_bytes r 48) (read_bytes-ext m m' 0 n (λ i p q. e i (omega arith)))

never_same : (x j : ℕ) → j < 8 → bit_xor x (2 ^ j) ≢ x
never_same x j small e =
    absurd (omega (arith, subst (λ n. 0 < n) (bit_xor_cancel x (2 ^ j) e) (power-positive j small)))

module _ (m : Msg) (sound : IsSound m) (p : Memory) (r : Msg) where
  undamaged-Acknowledges : Acknowledges p (recv_message r (send_message m))
  unfolding recv_message send_message
  undamaged-Acknowledges = reply-Acknowledges p (recv_message r (send_message m)) (
      parity_of-ext m.payload (recv_message r (send_message m)).payload m.len
        (λ i h. ground (arith, sound.carried))
      ∙ sound.good)

  -- The message on its way, with bit `j` of byte `k` flipped.
  damaged : (k j : ℕ) → Threads.Msg
  damaged k j = record (send_message m) {
    payload = λ i.
        if i == k then bit_xor ((send_message m).payload i) (2 ^ j) else (send_message m).payload i;
  }

  damaged_parity-Rejects : (j : ℕ) → j < 8 → Rejects p (recv_message r (damaged 0 j))
  unfolding damaged recv_message send_message
  damaged_parity-Rejects j small = reply-Rejects p (recv_message r (damaged 0 j)) (λ e.
      never_same m.parity j small (
        sym e
        ∙ parity_of-ext m.payload (recv_message r (damaged 0 j)).payload m.len
            (λ i h. ground (arith, sound.carried))
        ∙ sound.good))

  damaged_byte-Rejects :
      (k j : ℕ) → suc k < m.len → j < 8 → Rejects p (recv_message r (damaged (suc k) j))
  unfolding damaged recv_message send_message
  damaged_byte-Rejects k j inside small =
      let m' : Memory = λ i. if i == k then bit_xor (m.payload i) (2 ^ j) else m.payload i in
      let flipped : Flipped m.payload m' k (2 ^ j) = record {
        there = ground arith;
        bytes = sound.bytes;
        still_byte = ground (arith, flipped-byte (m.payload k) j (sound.bytes k) small);
        elsewhere = λ i other. ground arith;
      } in
      let parity_kept : (recv_message r (damaged (suc k) j)).parity ≡ m.parity = ground arith in
      reply-Rejects p (recv_message r (damaged (suc k) j)) (λ e.
        never_same (parity_of m.payload m.len) j small (
          sym (flipped-parity_of m.payload m' k (2 ^ j) flipped m.len (omega arith))
          ∙ sym (
              parity_of-ext m' (recv_message r (damaged (suc k) j)).payload m.len
                (λ i h. ground (arith, sound.carried)))
          ∙ e
          ∙ parity_kept
          ∙ sym sound.good))

  damaged-Rejects : (k j : ℕ) → k < m.len → j < 8 → Rejects p (recv_message r (damaged k j))
  damaged-Rejects zero j inside small = damaged_parity-Rejects j small
  damaged-Rejects (suc k) j inside small = damaged_byte-Rejects k j inside small

  -- A message with a right parity byte is acknowledged if it arrives as it was sent, and answered
  -- with NACK if the link emulator has flipped a bit of it, whichever it chose.
  pub flip_bit-Rejects :
      (a b : ℕ)
      → Acknowledges p (recv_message r (send_message m))
        × (w : Threads.Msg) × (flip_bit (send_message m) a b ≡ some w)
        × Rejects p (recv_message r w)
  unfolding flip_bit send_message damaged
  flip_bit-Rejects a b = (
    undamaged-Acknowledges,
    damaged (a % m.len) (b % 8),
    ground (arith, sound.some_len, sound.carried, mod-lt a sound.some_len),
    damaged-Rejects (a % m.len) (b % 8) (mod-lt a sound.some_len) (omega arith),
  )

bytes_only : List ℕ → Bool
bytes_only [] = true
bytes_only (c ∷ cs) = ltb c 256 && bytes_only cs

bytes_only-AllBytes : (cs : List ℕ) → bytes_only cs ≡ true → AllBytes cs
unfolding bytes_only
bytes_only-AllBytes [] h = tt
bytes_only-AllBytes (c ∷ cs) h = ground (arith, bytes_only-AllBytes cs)

text_bytes : bytes_only (mesaj ++ 0 ∷ []) ≡ true
unfolding bytes_only
text_bytes = refl

fill_pkt-IsBytes : (p : Memory) → IsBytes p → IsBytes (fill_pkt p 0 mesaj)
unfolding fill_pkt store32
fill_pkt-IsBytes p b =
    let words = store16-IsBytes _ 2 0 (store16-IsBytes p 0 0 b) in
    write_bytes-IsBytes (store32 (store32 p 0 0) 4 0) header_len (mesaj ++ 0 ∷ [])
      (store16-IsBytes _ 6 0 (store16-IsBytes _ 4 0 words))
      (bytes_only-AllBytes (mesaj ++ 0 ∷ []) text_bytes)

-- What the sender sends is sound, whatever stood in its packet before.
pub new_msg-IsSound : (p : Memory) → IsBytes p → IsSound (new_msg p)
unfolding new_msg
new_msg-IsSound p b = record {
  bytes = fill_pkt-IsBytes p b;
  good = refl;
  some_len = omega arith;
  carried = omega arith;
}
