-- ===== src/Link/Threads/Timing.antt =====
-- When packets are sent: none before its time, and at the rate of the link.
use mathlib.Core.List.{map-append}
use protocoale.Base.{
  ℕ, ◌+◌, ◌≤◌, ◌≡◌, refl, sym, ap, ◌∙◌, subst, arith, List, [], ◌∷◌, ◌++◌, map, append_assoc,
}
use protocoale.Link.Threads.{
  MsgInFlight, State, Step, now, send, look, take, take_null, pass, sleep, wait, not_empty, wake,
  receive, drop, keep, damage, damage_faults, enqueue, Reach, here, later,
}

abbrev due : List MsgInFlight → List ℕ
due fs = map (λ f. f.finish_time) fs

abbrev was_due : List (MsgInFlight × ℕ) → List ℕ
was_due ps = map (λ p. p.0.finish_time) ps

-- The due times of all packets that were ever taken from the buffer, in that order.
abbrev pub due_times : State → List ℕ
due_times s = was_due s.sent ++ due s.in_flight

-- Each time is at least `gap` after the one before it.
abbrev pub Spaced : (gap : ℕ) → List ℕ → Type 0
Spaced gap [] = Unit {0}
Spaced gap (x ∷ []) = Unit {0}
Spaced gap (x ∷ y ∷ ys) = (x + gap ≤ y) × Spaced gap (y ∷ ys)

abbrev AllLe : List ℕ → ℕ → Type 0
AllLe [] h = Unit {0}
AllLe (x ∷ xs) h = (x ≤ h) × AllLe xs h

-- No packet was sent before it was due.
abbrev pub InTime : List (MsgInFlight × ℕ) → Type 0
InTime [] = Unit {0}
InTime (p ∷ ps) = (p.0.finish_time ≤ p.1) × InTime ps

AllLe-le : (xs : List ℕ) (h k : ℕ) → h ≤ k → AllLe xs h → AllLe xs k
AllLe-le [] h k p a = tt
AllLe-le (x ∷ xs) h k p a = (omega (arith, a.0), AllLe-le xs h k p a.1)

AllLe-append : (xs : List ℕ) (y h : ℕ) → AllLe xs h → y ≤ h → AllLe (xs ++ y ∷ []) h
AllLe-append [] y h a p = (p, tt)
AllLe-append (x ∷ xs) y h a p = (a.0, AllLe-append xs y h a.1 p)

Spaced-append :
    (gap : ℕ) (xs : List ℕ) (h y : ℕ)
    → Spaced gap xs
    → AllLe xs h
    → h + gap ≤ y
    → Spaced gap (xs ++ y ∷ [])
Spaced-append gap [] h y s a p = tt
Spaced-append gap (x ∷ []) h y s a p = (omega (arith, a.0), tt)
Spaced-append gap (x ∷ z ∷ xs) h y s a p = (s.0, Spaced-append gap (z ∷ xs) h y s.1 a.1 p)

InTime-append :
    (ps : List (MsgInFlight × ℕ)) (f : MsgInFlight) (t : ℕ)
    → InTime ps
    → f.finish_time ≤ t
    → InTime (ps ++ (f, t) ∷ [])
InTime-append [] f t i p = (p, tt)
InTime-append (q ∷ ps) f t i p = (i.0, InTime-append ps f t i.1 p)

due_times-send :
    (ps : List (MsgInFlight × ℕ)) (f : MsgInFlight) (t : ℕ) (fs : List MsgInFlight)
    → was_due (ps ++ (f, t) ∷ []) ++ due fs ≡ was_due ps ++ due (f ∷ fs)
due_times-send ps f t fs =
    ap (λ l. l ++ due fs) (map-append (λ (p : MsgInFlight × ℕ). p.0.finish_time) ps ((f, t) ∷ []))
    ∙ append_assoc (was_due ps) (f.finish_time ∷ []) (due fs)

due_times-take :
    (ps : List (MsgInFlight × ℕ)) (f : MsgInFlight) (fs : List MsgInFlight)
    → was_due ps ++ due (fs ++ f ∷ []) ≡ was_due ps ++ due fs ++ f.finish_time ∷ []
due_times-take ps f fs =
    ap (λ l. was_due ps ++ l) (map-append (λ (f : MsgInFlight). f.finish_time) fs (f ∷ []))
    ∙ sym (append_assoc (was_due ps) (due fs) (f.finish_time ∷ []))

module _ (serialization_delay delay loss corrupt : ℕ) where
  record Timed (s : State) : Type 0 where
    pub spaced : Spaced serialization_delay (due_times s)
    pub last : AllLe (due_times s) (s.idle_time + delay)
    pub in_time : InTime s.sent

  -- A step that leaves the times alone.
  same_times :
      (s t : State)
      → due_times t ≡ due_times s
      → s.idle_time ≤ t.idle_time
      → InTime t.sent
      → Timed s
      → Timed t
  same_times s t e p i v = record {
    spaced = subst (Spaced serialization_delay) (sym e) v.spaced;
    last =
        subst (λ l. AllLe l (t.idle_time + delay)) (sym e)
          (AllLe-le (due_times s) (s.idle_time + delay) (t.idle_time + delay) (omega arith) v.last);
    in_time = i;
  }

  Step-Timed : {s t : State} → Step serialization_delay delay loss corrupt s t → Timed s → Timed t
  Step-Timed {s} {t} (send {t = at_time} {f} {rest} at e in_due) v =
      same_times s t
        (due_times-send s.sent f at_time rest ∙ ap (λ fs. was_due s.sent ++ due fs) (sym e))
        (omega arith) (InTime-append s.sent f at_time v.in_time in_due) v
  Step-Timed {s} (take {t} {m} {rest} at idle e) v =
      let f : MsgInFlight = record { m = m; finish_time = t + serialization_delay + delay } in
      let same = due_times-take s.sent f s.in_flight in
      record {
        spaced = subst (Spaced serialization_delay) (sym same) (
            Spaced-append serialization_delay (due_times s) (s.idle_time + delay) f.finish_time
              v.spaced v.last (omega arith));
        last =
            subst (λ l. AllLe l (t + serialization_delay + delay)) (sym same)
              (AllLe-append (due_times s) f.finish_time (t + serialization_delay + delay)
                (AllLe-le (due_times s) (s.idle_time + delay) (t + serialization_delay + delay)
                  (omega arith) v.last)
                (omega arith));
        in_time = v.in_time;
      }
  Step-Timed {s} {t} (take_null at idle e) v = same_times s t refl (omega arith) v.in_time v
  Step-Timed {s} {t} (now time at p) v = same_times s t refl (omega arith) v.in_time v
  Step-Timed {s} {t} (look at quiet) v = same_times s t refl (omega arith) v.in_time v
  Step-Timed {s} {t} (pass at why) v = same_times s t refl (omega arith) v.in_time v
  Step-Timed {s} {t} (sleep at why) v = same_times s t refl (omega arith) v.in_time v
  Step-Timed {s} {t} (wait at idle none_due e) v = same_times s t refl (omega arith) v.in_time v
  Step-Timed {s} {t} (not_empty at idle none_due e) v =
      same_times s t refl (omega arith) v.in_time v
  Step-Timed {s} {t} (wake at) v = same_times s t refl (omega arith) v.in_time v
  Step-Timed {s} {t} (receive m at) v = same_times s t refl (omega arith) v.in_time v
  Step-Timed {s} {t} (drop r at why) v = same_times s t refl (omega arith) v.in_time v
  Step-Timed {s} {t} (keep r q at kept whole) v = same_times s t refl (omega arith) v.in_time v
  Step-Timed {s} {t} (damage r q a b at kept hit e) v =
      same_times s t refl (omega arith) v.in_time v
  Step-Timed {s} {t} (damage_faults r q a b at kept hit e) v =
      same_times s t refl (omega arith) v.in_time v
  Step-Timed {s} {t} (enqueue at) v = same_times s t refl (omega arith) v.in_time v

  Reach-Timed : {s : State} → Reach serialization_delay delay loss corrupt s → Timed s
  Reach-Timed here = record { spaced = tt; last = tt; in_time = tt }
  Reach-Timed (later r st) = Step-Timed st (Reach-Timed r)

  -- In every reachable state: no packet was sent before it was due, and the due times of all packets
  -- that were taken from the buffer, in that order, are at least `serialization_delay` apart.
  pub Reach-InTime :
      (s : State)
      → Reach serialization_delay delay loss corrupt s
      → InTime s.sent × Spaced serialization_delay (due_times s)
  Reach-InTime s r = ((Reach-Timed r).in_time, (Reach-Timed r).spaced)
