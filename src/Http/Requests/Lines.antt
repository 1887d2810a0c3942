-- ===== src/Http/Requests/Lines.antt =====
-- A message as lines, each behind its check: `compute_message` after `sprintf`, over and over.
use protocoale.Base.{
  ℕ, ◌+◌, ◌≤◌, ◌<◌, ◌≡◌, inl, inr, refl, sym, ap, ◌∙◌, arith, Bool, true, false, Option, none, some,
  List, [], ◌∷◌, ◌++◌, length, length-append, append_assoc, append-nil, ltb, lt→ltb, ltb→lt,
  Bool-cases, ◌&&◌, if◌then◌else◌,
}
use protocoale.Http.Text.{◌>>=◌, buflen, linelen, crlf, strcat, print_line, compute_message}

pub bind_cong :
    {A B : Type 0} (o : Option A) (f g : A → Option B)
    → ((a : A) → f a ≡ g a)
    → (o >>= f) ≡ (o >>= g)
bind_cong none f g e = refl
bind_cong (some a) f g e = e a

pub bind_assoc :
    {A B C : Type 0} (o : Option A) (f : A → Option B) (g : B → Option C)
    → (o >>= f >>= g) ≡ (o >>= λ a. f a >>= g)
bind_assoc none f g = refl
bind_assoc (some a) f g = refl

bind-some : {A : Type 0} (o : Option A) → (o >>= λ a. some a) ≡ o
bind-some none = refl
bind-some (some a) = refl

-- One line.
abbrev pub put : List ℕ → List ℕ → Option (List ℕ)
put line message = print_line line >>= λ l. compute_message message l

abbrev pub puts : List (List ℕ) → List ℕ → Option (List ℕ)
puts [] message = some message
puts (line ∷ lines) message = put line message >>= λ added. puts lines added

-- A line, and what comes after it, which may use the line again.
pub put_then :
    (line message : List ℕ) (go : List ℕ → List ℕ → Option (List ℕ))
    (after : List ℕ → Option (List ℕ))
    → (length line < linelen → (added : List ℕ) → go line added ≡ after added)
    → (print_line line >>= λ l. compute_message message l >>= λ added. go l added)
      ≡ (put line message >>= λ added. after added)
unfolding print_line
put_then line message go after e = elim (Bool-cases (ltb (length line) linelen)) [
  | inl short ↦ rw short (
      bind_cong (compute_message message line) (go line) after
        (e (ltb→lt (length line) linelen short)))
  | inr long ↦ rw long refl
]

pub puts_one :
    (line message : List ℕ)
    → length line < linelen
    → compute_message message line ≡ puts (line ∷ []) message
unfolding print_line
puts_one line message h =
    let short : ltb (length line) linelen ≡ true = lt→ltb (length line) linelen h in
    rw short (sym (bind-some (compute_message message line)))

-- The lines, each with CR LF behind it.
abbrev pub unlines : List (List ℕ) → List ℕ
unlines [] = []
unlines (line ∷ lines) = line ++ crlf ++ unlines lines

abbrev pub all_short : List (List ℕ) → Bool
all_short [] = true
all_short (line ∷ lines) = ltb (length line) linelen && all_short lines

-- The lines behind `message`, if each fits into the block for lines and all into that for messages.
abbrev pub written : List (List ℕ) → List ℕ → Option (List ℕ)
written lines message =
    if ltb (length message + length (unlines lines)) buflen && all_short lines
    then some (message ++ unlines lines)
    else none

and_false : (b : Bool) → (b && false) ≡ false
and_false true = refl
and_false false = refl

compute_message_fits :
    (message line : List ℕ)
    → length message + (length line + 2) < buflen
    → compute_message message line ≡ some (message ++ line ++ crlf)
unfolding compute_message strcat
compute_message_fits message line h =
    let a : ltb (length message + length line) buflen ≡ true = ground arith in
    let b : ltb (length (message ++ line) + 2) buflen ≡ true =
      lt→ltb (length (message ++ line) + 2) buflen (omega (arith, length-append message line)) in
    rw (a, b) refl

compute_message_full :
    (message line : List ℕ)
    → buflen ≤ length message + (length line + 2)
    → compute_message message line ≡ none
unfolding compute_message strcat
compute_message_full message line h =
    elim (Bool-cases (ltb (length message + length line) buflen)) [
      | inl a ↦
          let n = length-append message line in
          let b : ltb (length (message ++ line) + 2) buflen ≡ false = ground (arith, n) in
          rw (a, b) refl
      | inr a ↦ rw a refl
    ]

pub put_long : (line message : List ℕ) → ltb (length line) linelen ≡ false → put line message ≡ none
unfolding print_line
put_long line message long = rw long refl

pub put_short :
    (line message : List ℕ)
    → ltb (length line) linelen ≡ true
    → put line message ≡ compute_message message line
unfolding print_line
put_short line message short = rw short refl

length-line : (line rest : List ℕ) → length (line ++ crlf ++ rest) ≡ length line + 2 + length rest
length-line line rest = omega (arith, length-append (line ++ crlf) rest, length-append line crlf)

regroup :
    (message line rest : List ℕ)
    → message ++ line ++ crlf ++ rest ≡ message ++ (line ++ crlf ++ rest)
regroup message line rest =
    ap (λ l. l ++ rest) (append_assoc message line crlf) ∙ append_assoc message (line ++ crlf) rest

-- After a line the rest is written as it would be behind the message.
written_on :
    (line : List ℕ) (lines : List (List ℕ)) (message : List ℕ)
    → written lines (message ++ line ++ crlf) ≡ (
        if ltb (length message + length (unlines (line ∷ lines))) buflen && all_short lines
        then some (message ++ unlines (line ∷ lines))
        else none)
written_on line lines message =
    let total : length (message ++ line ++ crlf) + length (unlines lines)
        ≡ length message + length (unlines (line ∷ lines)) =
      omega (
        arith,
        length-line line (unlines lines),
        length-append (message ++ line) crlf,
        length-append message line,
      ) in
    rw (total, regroup message line (unlines lines)) refl

-- The lines are written if and only if they fit.
pub puts-written :
    (lines : List (List ℕ)) (message : List ℕ)
    → length message < buflen
    → puts lines message ≡ written lines message
puts-written [] message h =
    let fits : ltb (length message + 0) buflen ≡ true =
      lt→ltb (length message + 0) buflen (omega arith) in
    rw (fits, append-nil message) refl
puts-written (line ∷ lines) message h = elim (Bool-cases (ltb (length line) linelen)) [
  | inr long ↦
      rw (put_long line message long, long)
        (ap (λ t. if t then some (message ++ unlines (line ∷ lines)) else none)
          (sym (and_false (ltb (length message + length (unlines (line ∷ lines))) buflen))))
  | inl short ↦ elim (Bool-cases (ltb (length message + (length line + 2)) buflen)) [
    | inl fits ↦
        let room : length message + (length line + 2) < buflen =
          ltb→lt (length message + (length line + 2)) buflen fits in
        rw (put_short line message short, compute_message_fits message line room, short)
          (puts-written lines (message ++ line ++ crlf)
              (omega (arith, length-append (message ++ line) crlf, length-append message line))
            ∙ written_on line lines message)
    | inr full ↦
        let over : buflen ≤ length message + (length line + 2) = ground arith in
        let past : ltb (length message + length (unlines (line ∷ lines))) buflen ≡ false =
          ground (arith, length-line line (unlines lines)) in
        rw (put_short line message short, compute_message_full message line over, past) refl
  ]
]
