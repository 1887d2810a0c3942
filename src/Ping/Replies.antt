-- ===== src/Ping/Replies.antt =====
-- Which packets `time_packet` returns.
use protocoale.Base.{
  ℕ, zero, suc, ◌+◌, ◌-◌, ◌≤◌, ◌<◌, ◌≡◌, refl, arith, false, Bool-cases, inl, inr, Option, none,
  some, List, [], ◌∷◌, length, take, ◌==◌, if◌then◌else◌,
}
use protocoale.Bytes.{Memory, load16, write_bytes}
use protocoale.Bytes.Copy.{read_bytes-ext}
use protocoale.Router.Layout.Ether
use protocoale.Router.Layout.Ip
use protocoale.Router.Layout.Icmp
use protocoale.Ping.{Host, packet_len, relevant_packet, time_packet}

-- A packet that has at least its headers.
abbrev pub IsWhole : List ℕ → Type 0
IsWhole received = 42 ≤ length received

abbrev pub AllWhole : List (List ℕ) → Type 0
AllWhole [] = Unit {0}
AllWhole (received ∷ rest) = IsWhole received × AllWhole rest

-- The received packet alone.
abbrev pub alone : List ℕ → Memory
alone received = write_bytes (λ i. 0) 0 (take packet_len received)

-- The relevant packets among those that arrive.
abbrev pub relevant_of : Host → List (List ℕ) → List (List ℕ)
relevant_of host [] = []
relevant_of host (received ∷ rest) =
    if relevant_packet host (alone received)
    then received ∷ relevant_of host rest
    else relevant_of host rest

-- Bytes that are written do not depend on what was there.
write_bytes-inside :
    (m m' : Memory) (at : ℕ) (xs : List ℕ) (i : ℕ)
    → i < at + length xs
    → (i < at → m i ≡ m' i)
    → write_bytes m at xs i ≡ write_bytes m' at xs i
unfolding write_bytes
write_bytes-inside m m' at [] i h e = e (omega (arith, h))
write_bytes-inside m m' at (x ∷ xs) i h e =
    write_bytes-inside (λ k. if k == at then x else m k) (λ k. if k == at then x else m' k) (at + 1)
      xs i (omega (arith, h)) (λ below. ground (arith, e))

length-take : (k n : ℕ) (xs : List ℕ) → k ≤ n → k ≤ length xs → k ≤ length (take n xs)
length-take k zero xs p q = p
length-take k (suc n) [] p q = q
length-take k (suc n) (x ∷ xs) p q =
    omega (arith, length-take (k - 1) n xs (omega arith) (omega arith))

same_bytes :
    (reply : Memory) (received : List ℕ) (i : ℕ)
    → IsWhole received
    → i < 42
    → write_bytes reply 0 (take packet_len received) i ≡ alone received i
same_bytes reply received i whole inside =
    let long = length-take 42 packet_len received (omega arith) whole in
    write_bytes-inside reply (λ k. 0) 0 (take packet_len received) i (omega (arith, long))
      (λ below. absurd (omega arith))

same_relevance :
    (host : Host) (reply : Memory) (received : List ℕ)
    → IsWhole received
    → relevant_packet host (write_bytes reply 0 (take packet_len received))
      ≡ relevant_packet host (alone received)
unfolding relevant_packet load16
same_relevance host reply received whole =
    let filled = write_bytes reply 0 (take packet_len received) in
    let same = λ (i : ℕ) (inside : i < 42). same_bytes reply received i whole inside in
    let mac =
      read_bytes-ext (alone received) filled Ether.dhost 6 (λ i p q. same i (omega arith)) in
    rw
      (
        mac,
        same Ether.ether_type (omega arith),
        same (Ether.ether_type + 1) (omega arith),
        same Ip.protocol (omega arith),
      )
      refl

-- A packet was waited for: there is none, or the first relevant one came.
abbrev pub Timed : Host → List (List ℕ) → Option (Memory × List (List ℕ)) → Type 0
Timed host incoming none = relevant_of host incoming ≡ []
Timed host incoming (some (reply, rest)) =
    (received : List ℕ) × (relevant_of host incoming ≡ received ∷ relevant_of host rest)
    × (reply Icmp.type ≡ alone received Icmp.type)
    × AllWhole rest
    × (length rest < length incoming)

Timed-later :
    (host : Host) (received : List ℕ) (rest : List (List ℕ)) (o : Option (Memory × List (List ℕ)))
    → relevant_packet host (alone received) ≡ false
    → Timed host rest o
    → Timed host (received ∷ rest) o
Timed-later host received rest none other h = rw other h
Timed-later host received rest (some (reply, more)) other (r, e, t, w, shorter) =
    (r, rw other e, t, w, omega (arith, shorter))

pub time_packet-Timed :
    (host : Host) (reply : Memory) (incoming : List (List ℕ))
    → AllWhole incoming
    → Timed host incoming (time_packet host reply incoming)
unfolding time_packet
time_packet-Timed host reply [] h = refl
time_packet-Timed host reply (received ∷ rest) (whole, h) =
    elim (Bool-cases (relevant_packet host (alone received))) [
      | inl relevant ↦
          rw (same_relevance host reply received whole, relevant)
            (
              received,
              rw relevant refl,
              same_bytes reply received Icmp.type whole (omega arith),
              h,
              omega arith,
            )
      | inr other ↦
          rw (same_relevance host reply received whole, other)
            (Timed-later host received rest _ other
              (time_packet-Timed host (write_bytes reply 0 (take packet_len received)) rest h))
    ]
