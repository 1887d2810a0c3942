-- ===== src/Link/Threads/Order.antt =====
-- Packets are neither lost nor reordered between the two threads, and the buffer stays bounded.
use mathlib.Core.List.{map-append}
use protocoale.Base.{
  ℕ, suc, ◌+◌, ◌≤◌, ◌<◌, ◌≡◌, refl, sym, ap, ◌∙◌, subst, arith, true, false, List, [], ◌∷◌, ◌++◌,
  map, length, length-append, append_assoc, leb,
}
use protocoale.Link.Threads.{
  Msg, MsgInFlight, Scheduler, top, sending, looked, measured, waiting, aborted, Forwarder,
  receiving, received, keeping, crashed, State, buffer_size, stuff_in, Step, now, send, look, take,
  take_null, pass, sleep, wait, not_empty, wake, receive, drop, keep, damage, damage_faults,
  enqueue, Reach, here, later,
}

abbrev pub flying : List MsgInFlight → List Msg
flying fs = map (λ f. f.m) fs

abbrev pub delivered : List (MsgInFlight × ℕ) → List Msg
delivered ps = map (λ p. p.0.m) ps

-- A packet that has passed the test of the size has room in the buffer.
abbrev Room : Forwarder → ℕ → Type 0
Room (keeping m) n = n < buffer_size
Room (received m false) n = n < buffer_size
Room (received m true) n = Unit {0}
Room receiving n = Unit {0}
Room crashed n = Unit {0}

-- `stuff` is still true when it is used.
abbrev Stuffed : Scheduler → List Msg → Type 0
Stuffed (looked t true) ms = 0 < length ms
Stuffed (looked t false) ms = Unit {0}
Stuffed top ms = Unit {0}
Stuffed (sending t) ms = Unit {0}
Stuffed (measured t) ms = Unit {0}
Stuffed waiting ms = Unit {0}
Stuffed aborted ms = Unit {0}

record Inv (s : State) : Type 0 where
  pub conserved : delivered s.sent ++ (flying s.in_flight ++ s.buffer) ≡ s.accepted
  pub bounded : length s.buffer ≤ buffer_size
  pub room : Room s.forwarder (length s.buffer)
  pub stuffed : Stuffed s.scheduler s.buffer

Room-le : (fw : Forwarder) (n k : ℕ) → k ≤ n → Room fw n → Room fw k
Room-le (keeping m) n k h r = omega arith
Room-le (received m false) n k h r = omega arith
Room-le (received m true) n k h r = tt
Room-le receiving n k h r = tt
Room-le crashed n k h r = tt

Room-received : (m : Msg) (n : ℕ) → Room (received m (leb buffer_size n)) n
Room-received m n = ground arith

Stuffed-append :
    (sc : Scheduler) (ms : List Msg) (m : Msg) → Stuffed sc ms → Stuffed sc (ms ++ m ∷ [])
Stuffed-append (looked t true) ms m h = omega (arith, length-append ms (m ∷ []))
Stuffed-append (looked t false) ms m h = tt
Stuffed-append top ms m h = tt
Stuffed-append (sending t) ms m h = tt
Stuffed-append (measured t) ms m h = tt
Stuffed-append waiting ms m h = tt
Stuffed-append aborted ms m h = tt

Stuffed-looked : (t : ℕ) (ms : List Msg) → Stuffed (looked t (stuff_in ms)) ms
Stuffed-looked t [] = tt
Stuffed-looked t (m ∷ ms) = omega arith

module _ (serialization_delay delay loss corrupt : ℕ) where
  abbrev StepHere : State → State → Type 0
  StepHere = Step serialization_delay delay loss corrupt

  sent_conserved :
      (ps : List (MsgInFlight × ℕ)) (f : MsgInFlight) (t : ℕ) (fs : List MsgInFlight)
      (ms : List Msg)
      → delivered (ps ++ (f, t) ∷ []) ++ (flying fs ++ ms) ≡ delivered ps ++ (flying (f ∷ fs) ++ ms)
  sent_conserved ps f t fs ms =
      ap (λ l. l ++ (flying fs ++ ms))
        (map-append (λ (p : MsgInFlight × ℕ). p.0.m) ps ((f, t) ∷ []))
      ∙ append_assoc (delivered ps) (f.m ∷ []) (flying fs ++ ms)

  taken_conserved :
      (fs : List MsgInFlight) (f : MsgInFlight) (ms : List Msg)
      → flying (fs ++ f ∷ []) ++ ms ≡ flying fs ++ f.m ∷ ms
  taken_conserved fs f ms =
      ap (λ l. l ++ ms) (map-append (λ (f : MsgInFlight). f.m) fs (f ∷ []))
      ∙ append_assoc (flying fs) (f.m ∷ []) ms

  Step-Inv : {s t : State} → StepHere s t → Inv s → Inv t
  Step-Inv {s} (now t at le) v = record {
    conserved = v.conserved;
    bounded = v.bounded;
    room = v.room;
    stuffed = tt;
  }
  Step-Inv {s} (send {t} {f} {rest} at e due) v = record {
    conserved =
        sent_conserved s.sent f t rest s.buffer
        ∙ ap (λ fs. delivered s.sent ++ (flying fs ++ s.buffer)) (sym e)
        ∙ v.conserved;
    bounded = v.bounded;
    room = v.room;
    stuffed = v.stuffed;
  }
  Step-Inv {s} (look {t} at quiet) v = record {
    conserved = v.conserved;
    bounded = v.bounded;
    room = v.room;
    stuffed = Stuffed-looked t s.buffer;
  }
  Step-Inv {s} (take {t} {m} {rest} at idle e) v =
      let long : length s.buffer ≡ suc (length rest) = ap length e in
      record {
        conserved =
            ap (λ l. delivered s.sent ++ l)
              (taken_conserved s.in_flight
                (record { m = m; finish_time = t + serialization_delay + delay }) rest)
            ∙ ap (λ l. delivered s.sent ++ (flying s.in_flight ++ l)) (sym e)
            ∙ v.conserved;
        bounded = omega (arith, v.bounded);
        room = Room-le s.forwarder (length s.buffer) (length rest) (omega arith) v.room;
        stuffed = tt;
      }
  Step-Inv {s} (take_null at idle e) v = record {
    conserved = v.conserved;
    bounded = v.bounded;
    room = v.room;
    stuffed = tt;
  }
  Step-Inv {s} (pass at why) v = record {
    conserved = v.conserved;
    bounded = v.bounded;
    room = v.room;
    stuffed = tt;
  }
  Step-Inv {s} (sleep at why) v = record {
    conserved = v.conserved;
    bounded = v.bounded;
    room = v.room;
    stuffed = tt;
  }
  Step-Inv {s} (wait at idle none_due e) v = record {
    conserved = v.conserved;
    bounded = v.bounded;
    room = v.room;
    stuffed = tt;
  }
  Step-Inv {s} (not_empty at idle none_due e) v = record {
    conserved = v.conserved;
    bounded = v.bounded;
    room = v.room;
    stuffed = tt;
  }
  Step-Inv {s} (wake at) v = record {
    conserved = v.conserved;
    bounded = v.bounded;
    room = v.room;
    stuffed = tt;
  }
  Step-Inv {s} (receive m at) v = record {
    conserved = v.conserved;
    bounded = v.bounded;
    room = Room-received m (length s.buffer);
    stuffed = v.stuffed;
  }
  Step-Inv {s} (drop r at why) v = record {
    conserved = v.conserved;
    bounded = v.bounded;
    room = tt;
    stuffed = v.stuffed;
  }
  Step-Inv {s} (keep r q at kept whole) v = record {
    conserved = v.conserved;
    bounded = v.bounded;
    room = subst (λ fw. Room fw (length s.buffer)) at v.room;
    stuffed = v.stuffed;
  }
  Step-Inv {s} (damage r q a b at kept hit e) v = record {
    conserved = v.conserved;
    bounded = v.bounded;
    room = subst (λ fw. Room fw (length s.buffer)) at v.room;
    stuffed = v.stuffed;
  }
  Step-Inv {s} (damage_faults r q a b at kept hit e) v = record {
    conserved = v.conserved;
    bounded = v.bounded;
    room = tt;
    stuffed = v.stuffed;
  }
  Step-Inv {s} (enqueue {m} at) v =
      let space : length s.buffer < buffer_size =
        subst (λ fw. Room fw (length s.buffer)) at v.room in
      record {
        conserved =
            ap (λ l. delivered s.sent ++ l)
              (sym (append_assoc (flying s.in_flight) s.buffer (m ∷ [])))
            ∙ sym (append_assoc (delivered s.sent) (flying s.in_flight ++ s.buffer) (m ∷ []))
            ∙ ap (λ l. l ++ m ∷ []) v.conserved;
        bounded = omega (arith, length-append s.buffer (m ∷ []));
        room = tt;
        stuffed = Stuffed-append s.scheduler s.buffer m v.stuffed;
      }

  Reach-Inv : {s : State} → Reach serialization_delay delay loss corrupt s → Inv s
  Reach-Inv here = record { conserved = refl; bounded = omega arith; room = tt; stuffed = tt }
  Reach-Inv (later r st) = Step-Inv st (Reach-Inv r)

  -- Whatever the two threads do in whatever order: the packets that were sent, those in flight and
  -- those in the buffer are, one after the other, all that were accepted, in their order.
  pub Reach-conserved :
      (s : State)
      → Reach serialization_delay delay loss corrupt s
      → delivered s.sent ++ (flying s.in_flight ++ s.buffer) ≡ s.accepted
  Reach-conserved s r = (Reach-Inv r).conserved

  -- The buffer never holds more than BUFFER_SIZE packets, and when `link_scheduler` dequeues from it
  -- because it has seen a packet in it, there still is one.
  pub Reach-bounded :
      (s : State)
      → Reach serialization_delay delay loss corrupt s
      → (length s.buffer ≤ buffer_size)
        × ((t : ℕ) → s.scheduler ≡ looked t true → 0 < length s.buffer)
  Reach-bounded s r =
      ((Reach-Inv r).bounded, λ t at. subst (λ sc. Stuffed sc s.buffer) at (Reach-Inv r).stuffed)
