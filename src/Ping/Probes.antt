-- ===== src/Ping/Probes.antt =====
-- How many packets `ping` and `traceroute` send, which, and when they end.
use protocoale.Base.{
  ℕ, zero, suc, ◌+◌, ◌%◌, ◌^◌, ◌<◌, ◌≡◌, refl, ap, sym, subst, arith, Bool-cases, Option-cases, inl,
  inr, none, some, List, [], ◌∷◌, length, ltb, ◌==◌, if◌then◌else◌,
}
use protocoale.Base.Int.{ℤ}
use protocoale.Bytes.{Memory, IsBytes, store8}
use protocoale.Router.Layout.Ip
use protocoale.Router.Layout.Icmp
use protocoale.Router.Packet.{init_packet}
use protocoale.Router.Packet.Reply.{store8-IsBytes, store8_below}
use protocoale.Ping.{
  Host, init_eth_hdr, time_packet, request, probe, Ending, ended, waiting, Run, behind, ping_from,
  rounds, ping, trace_from, traceroute,
}
use protocoale.Ping.Replies.{AllWhole, alone, relevant_of, Timed, time_packet-Timed}
use protocoale.Ping.Requests.{
  IsHost, IsEcho, init_eth_hdr-IsBytes, request-IsBytes, request-IsEcho, probe-IsBytes,
  probe-IsEcho,
}

-- Requests with these sequence numbers and on, and probes with these times to live and on.
abbrev pub Requests : Host → (dest sequence : ℕ) → List Memory → Type 0
Requests host dest sequence [] = Unit {0}
Requests host dest sequence (m ∷ ms) =
    IsEcho host dest 64 (sequence % 2 ^ 16) m × Requests host dest (sequence + 1) ms

abbrev pub Probes : Host → (dest ttl : ℕ) → List Memory → Type 0
Probes host dest ttl [] = Unit {0}
Probes host dest ttl (m ∷ ms) = IsEcho host dest (ttl % 256) 13 m × Probes host dest (ttl + 1) ms

abbrev Framed : Host → Memory → Type 0
Framed host m = (k : ℕ) → k < 14 → m k ≡ init_eth_hdr host init_packet.payload k

-- With enough replies all requests are sent, and else one more than there are replies.
abbrev pub EndsAfter : (left replies : ℕ) → Run → Type 0
EndsAfter left replies run =
    (run.ending ≡ (if ltb replies left then waiting else ended))
    × (length run.sent ≡ (if ltb replies left then replies + 1 else left))

abbrev pub Pinged : Host → (dest sequence left : ℕ) → (replies : List (List ℕ)) → Run → Type 0
Pinged host dest sequence left replies run =
    Requests host dest sequence run.sent × EndsAfter left (length replies) run

-- What `traceroute` does with replies: it waits behind the last if all say that the time was
-- exceeded, and ends at the first that does not.
abbrev pub end_of : List (List ℕ) → Ending
end_of [] = waiting
end_of (reply ∷ more) = if alone reply Icmp.type == 11 then end_of more else ended

abbrev pub probes_of : List (List ℕ) → ℕ
probes_of [] = 1
probes_of (reply ∷ more) = if alone reply Icmp.type == 11 then suc (probes_of more) else 1

ping_from_waiting :
    (host : Host) (dest left i : ℕ) (m : Memory) (incoming : List (List ℕ))
    → time_packet host (host.reply i) incoming ≡ none
    → ping_from host dest (suc left) i m incoming
      ≡ record { ending = waiting; sent = request host dest i m ∷ [] }
unfolding ping_from
ping_from_waiting host dest left i m incoming e = rw e refl

ping_from_next :
    (host : Host) (dest left i : ℕ) (m reply : Memory) (incoming rest : List (List ℕ))
    → time_packet host (host.reply i) incoming ≡ some (reply, rest)
    → ping_from host dest (suc left) i m incoming
      ≡ behind
          (request host dest i m)
          (ping_from host dest left (i + 1) (request host dest i m) rest)
unfolding ping_from
ping_from_next host dest left i m reply incoming rest e = rw e refl

-- A property of the replies and the run that they lead to, for equal replies and an equal run.
same_run :
    {replies replies' : List (List ℕ)} {run run' : Run} (P : List (List ℕ) → Run → Type 0)
    → replies ≡ replies'
    → run ≡ run'
    → P replies' run'
    → P replies run
same_run {replies} {replies'} {run} {run'} P d e h =
    subst (λ rs. P rs run) (sym d) (subst (P replies') (sym e) h)

Pinged-behind :
    (host : Host) (dest sequence left : ℕ) (m : Memory) (reply : List ℕ) (replies : List (List ℕ))
    (run : Run)
    → IsEcho host dest 64 (sequence % 2 ^ 16) m
    → Pinged host dest (sequence + 1) left replies run
    → Pinged host dest sequence (suc left) (reply ∷ replies) (behind m run)
Pinged-behind host dest sequence left m reply replies run echo (later, (how, many)) =
    ((echo, later), ground (arith, how, many))

-- `traceroute` has sent probes from this time to live on, and has ended as the replies say.
abbrev pub Traced : Host → (dest ttl : ℕ) → (replies : List (List ℕ)) → Run → Type 0
Traced host dest ttl replies run =
    Probes host dest ttl run.sent
    × (run.ending ≡ end_of replies)
    × (length run.sent ≡ probes_of replies)

trace_from_waiting :
    (host : Host) (dest fuel i : ℕ) (m : Memory) (incoming : List (List ℕ))
    → time_packet host (host.reply i) incoming ≡ none
    → trace_from host dest (suc fuel) i m incoming
      ≡ record { ending = waiting; sent = probe host dest m ∷ [] }
unfolding trace_from
trace_from_waiting host dest fuel i m incoming e = rw e refl

trace_from_next :
    (host : Host) (dest fuel i : ℕ) (m reply : Memory) (incoming rest : List (List ℕ)) (r : List ℕ)
    → time_packet host (host.reply i) incoming ≡ some (reply, rest)
    → reply Icmp.type ≡ alone r Icmp.type
    → trace_from host dest (suc fuel) i m incoming
      ≡ behind (probe host dest m) (
          if alone r Icmp.type == 11
          then trace_from host dest fuel (i + 1) (probe host dest m) rest
          else record { ending = ended; sent = [] })
unfolding trace_from
trace_from_next host dest fuel i m reply incoming rest r e t = rw (e, t) refl

Traced-behind :
    (host : Host) (dest ttl : ℕ) (m : Memory) (r : List ℕ) (replies : List (List ℕ)) (run : Run)
    → IsEcho host dest (ttl % 256) 13 m
    → Traced host dest (ttl + 1) replies run
    → Traced host dest ttl
        (r ∷ replies)
        (behind m (if alone r Icmp.type == 11 then run else record { ending = ended; sent = [] }))
Traced-behind host dest ttl m r replies run echo (later, how, many) =
    elim (Bool-cases (alone r Icmp.type == 11)) [
      | inl exceeded ↦ rw exceeded ((echo, later), how, ap suc many)
      | inr other ↦ rw other ((echo, tt), refl, refl)
    ]

module _ (host : Host) (dest : ℕ) (valid : IsHost host dest) where
  ping_from-Pinged :
      (left i : ℕ) (m : Memory) (incoming : List (List ℕ))
      → IsBytes m
      → Framed host m
      → AllWhole incoming
      → Pinged host dest
          (i + 1)
          left
          (relevant_of host incoming)
          (ping_from host dest left i m incoming)
  unfolding ping_from
  ping_from-Pinged zero i m incoming bytes framed whole = ground arith
  ping_from-Pinged (suc left) i m incoming bytes framed whole =
      let echo = request-IsEcho host dest valid m bytes framed i in
      let fact = time_packet-Timed host (host.reply i) incoming whole in
      elim (Option-cases (time_packet host (host.reply i) incoming)) [
        | inl nothing ↦
            let silent = subst (Timed host incoming) nothing fact in
            let only : Pinged host dest (i + 1) (suc left) []
                (record { ending = waiting; sent = request host dest i m ∷ [] }) =
              ((echo, tt), ground arith) in
            same_run (Pinged host dest (i + 1) (suc left)) silent
              (ping_from_waiting host dest left i m incoming nothing) only
        | inr ((reply, rest), e) ↦
            let (received, relevant, type, more_whole, shorter) =
              subst (Timed host incoming) e fact in
            let m' = request host dest i m in
            let later =
              ping_from-Pinged left (i + 1) m' rest
                (request-IsBytes host dest valid m bytes framed i) echo.framed more_whole in
            let all =
              Pinged-behind host dest (i + 1) left m' received (relevant_of host rest) _ echo
                later in
            same_run (Pinged host dest (i + 1) (suc left)) relevant
              (ping_from_next host dest left i m reply incoming rest e) all
      ]

  trace_from-Traced :
      (fuel i ttl : ℕ) (m : Memory) (incoming : List (List ℕ))
      → IsBytes m
      → Framed host m
      → (m Ip.ttl + 1) % 256 ≡ ttl % 256
      → AllWhole incoming
      → length incoming < fuel
      → Traced host dest ttl (relevant_of host incoming) (trace_from host dest fuel i m incoming)
  trace_from-Traced zero i ttl m incoming bytes framed now whole enough = absurd (omega arith)
  trace_from-Traced (suc fuel) i ttl m incoming bytes framed now whole enough =
      let echo : IsEcho host dest (ttl % 256) 13 (probe host dest m) =
        subst (λ n. IsEcho host dest n 13 (probe host dest m)) now
          (probe-IsEcho host dest valid m bytes framed) in
      let fact = time_packet-Timed host (host.reply i) incoming whole in
      elim (Option-cases (time_packet host (host.reply i) incoming)) [
        | inl nothing ↦
            same_run (Traced host dest ttl) (subst (Timed host incoming) nothing fact)
              (trace_from_waiting host dest fuel i m incoming nothing) ((echo, tt), refl, refl)
        | inr ((reply, rest), e) ↦
            let (received, relevant, type, more_whole, shorter) =
              subst (Timed host incoming) e fact in
            let m' = probe host dest m in
            let later =
              trace_from-Traced fuel (i + 1) (ttl + 1) m' rest
                (probe-IsBytes host dest valid m bytes framed) echo.framed
                (omega (arith, echo.lives)) more_whole (omega (arith, shorter)) in
            same_run (Traced host dest ttl) relevant
              (trace_from_next host dest fuel i m reply incoming rest received e type)
              (Traced-behind host dest ttl m' received (relevant_of host rest) _ echo later)
      ]

  -- Whatever whole packets arrive, `ping` sends valid echo requests numbered from 1 on: as many as
  -- it was asked for if there are as many relevant packets among those that arrive, and else one
  -- more than there are, and waits.
  pub ping-Pinged :
      (count : ℤ) (incoming : List (List ℕ))
      → AllWhole incoming
      → Pinged host dest 1
          (rounds count)
          (relevant_of host incoming)
          (ping host dest count incoming)
  unfolding ping
  ping-Pinged count incoming whole =
      ping_from-Pinged (rounds count) 0 (init_eth_hdr host init_packet.payload) incoming
        (init_eth_hdr-IsBytes host dest valid) (λ k h. refl) whole

  -- Whatever whole packets arrive, `traceroute` sends valid probes with times to live 2, 3 and so
  -- on, modulo 256: one more for each relevant packet that says that the time was exceeded. It ends
  -- at the first relevant packet that says something else, and waits if there is none.
  pub traceroute-Traced :
      (incoming : List (List ℕ))
      → AllWhole incoming
      → Traced host dest 2 (relevant_of host incoming) (traceroute host dest incoming)
  unfolding traceroute
  traceroute-Traced incoming whole =
      let frame = init_eth_hdr host init_packet.payload in
      trace_from-Traced (length incoming + 1) 0 2 (store8 frame Ip.ttl 1) incoming
        (store8-IsBytes frame Ip.ttl 1 (init_eth_hdr-IsBytes host dest valid))
        (λ k h. store8_below frame Ip.ttl 1 k (omega arith)) (unfold store8 in refl) whole
        (omega arith)
