-- ===== src/Http/Receive/Received.antt =====
-- What `receive_from_server` returns: the bytes that were read, in their order, and a terminator.
use protocoale.Base.{
  ℕ, ◌+◌, ◌%◌, ◌^◌, ◌≤◌, ◌≡◌, none, some, List, [], ◌∷◌, ◌++◌, length, append-nil, append_assoc,
  refl, sym, ap, ◌∙◌, subst, arith, true, false, ltb, Bool,
}
use protocoale.Base.Int.{ℤ, pos}
use protocoale.Http.Buffer.{Buffer, buffer_init, buffer_add}
use protocoale.Http.Buffer.Grow.{Holds, buffer_add-Holds, buffer_init-Holds}
use protocoale.Http.Receive.{
  Read, chunk, failed, Phase, headers, exited, fault, size_of, Reply, reply, no_reply, broken,
  header_loop, finish, body_loop, receive_from_server, after_headers,
}
use protocoale.Http.Receive.Header.{
  bytes_of, Fails, Fails-append, Progress, InPhase, header_loop-InPhase,
}

-- How the second loop may end: there was nothing more to read, the peer closed, or `total` bytes
-- are there.
abbrev pub Ends : (total : ℕ) → (rest : List Read) → (ys : List ℕ) → Type 0
Ends total [] ys = Unit {0}
Ends total (failed ∷ rest) ys = total ≤ length ys
Ends total (chunk [] ∷ rest) ys = Unit {0}
Ends total (chunk (x ∷ xs) ∷ rest) ys = total ≤ length ys

-- The reply to `reads` with `xs` in the buffer: all bytes up to some read, with a terminator, or
-- none if a read failed.
abbrev pub Delivers : List Read → List ℕ → ℕ → Reply → Type 0
Delivers reads xs total broken = ⊥
Delivers reads xs total no_reply = Fails reads
Delivers reads xs total (reply ys) =
    (got : List Read) × (rest : List Read) × (reads ≡ got ++ rest)
    × (ys ≡ xs ++ bytes_of got ++ 0 ∷ [])
    × Ends total rest (xs ++ bytes_of got)

finish-Delivers :
    (reads : List Read) (b : Buffer) (xs : List ℕ) (total : ℕ)
    → Holds b xs
    → Ends total reads xs
    → Delivers reads xs total (finish b)
unfolding finish
finish-Delivers reads b xs total h e =
    let (b', added, holds, _) = buffer_add-Holds b xs (0 ∷ []) h in
    rw (added, Delivers)
      (
        [],
        reads,
        refl,
        holds.held ∙ ap (λ l. l ++ 0 ∷ []) (sym (append-nil xs)),
        subst (Ends total reads) (sym (append-nil xs)) e,
      )

goes_on :
    (reads : List Read) (xs ys : List ℕ) (total : ℕ) (r : Reply)
    → Delivers reads (xs ++ ys) total r
    → Delivers (chunk ys ∷ reads) xs total r
goes_on reads xs ys total broken d = d
goes_on reads xs ys total no_reply d = d
goes_on reads xs ys total (reply zs) d =
    let regroup = append_assoc xs ys (bytes_of d.0) in
    (
      chunk ys ∷ d.0,
      d.1,
      ap (λ l. chunk ys ∷ l) d.2,
      d.3 ∙ ap (λ l. l ++ 0 ∷ []) regroup,
      subst (Ends total d.1) regroup d.4,
    )

-- The next step of the second loop after a read of `y ∷ ys`.
next_read :
    (total : ℕ) (y : ℕ) (ys : List ℕ) (reads : List Read) (b b' : Buffer)
    → buffer_add b (y ∷ ys) ≡ some b'
    → (r : Bool)
    → (elim r [ false ↦ finish b | true ↦ body_loop total reads b' ]) ≡ elim r [
      | false ↦ finish b
      | true ↦ elim (buffer_add b (y ∷ ys)) [ none ↦ broken | some b' ↦ body_loop total reads b' ]
    ]
next_read total y ys reads b b' added false = refl
next_read total y ys reads b b' added true = rw added refl

-- The two ways on from the test of the second loop.
chosen :
    (reads : List Read) (xs : List ℕ) (total : ℕ) (go stop : Reply) (r : Bool)
    → (r ≡ true → Delivers reads xs total go)
    → (r ≡ false → Delivers reads xs total stop)
    → Delivers reads xs total (elim r [ false ↦ stop | true ↦ go ])
chosen reads xs total go stop true f g = f refl
chosen reads xs total go stop false f g = g refl

-- The second loop returns what the buffer held and the bytes of the reads up to one, and it stops
-- before the peer has closed only if `total` bytes are there, or it exits at a read that failed; it
-- writes nothing outside a block.
pub body_loop-Delivers :
    (total : ℕ) (reads : List Read) (b : Buffer) (xs : List ℕ)
    → Holds b xs
    → Delivers reads xs total (body_loop total reads b)
unfolding body_loop
body_loop-Delivers total [] b xs h = finish-Delivers [] b xs total h tt
body_loop-Delivers total (failed ∷ reads) b xs h =
    chosen (failed ∷ reads) xs total no_reply (finish b) (ltb b.size total) (λ more. tt)
      λ enough.
        let e : total ≤ length xs = ground (arith, h.sized) in
        finish-Delivers (failed ∷ reads) b xs total h e
body_loop-Delivers total (chunk [] ∷ reads) b xs h =
    finish-Delivers (chunk [] ∷ reads) b xs total h tt
body_loop-Delivers total (chunk (y ∷ ys) ∷ reads) b xs h =
    let (b', added, holds, _) = buffer_add-Holds b xs (y ∷ ys) h in
    let rest = chunk (y ∷ ys) ∷ reads in
    subst (Delivers rest xs total) (next_read total y ys reads b b' added (ltb b.size total)) (
      chosen rest xs total (body_loop total reads b') (finish b) (ltb b.size total)
        (λ more.
          goes_on reads xs (y ∷ ys) total (body_loop total reads b')
            (body_loop-Delivers total reads b' (xs ++ y ∷ ys) holds))
        (λ enough.
          let e : total ≤ length xs = ground (arith, h.sized) in
          finish-Delivers rest b xs total h e))

-- Nothing is read or written outside a block, and what is returned is the bytes of the reads up to
-- one of them, in their order, and a terminator; or a read has failed.
abbrev pub Returns : List Read → Reply → Type 0
Returns reads broken = ⊥
Returns reads no_reply = Fails reads
Returns reads (reply ys) =
    (got : List Read) × (rest : List Read) × (reads ≡ got ++ rest) × (ys ≡ bytes_of got ++ 0 ∷ [])

bytes_of-append : (r s : List Read) → bytes_of (r ++ s) ≡ bytes_of r ++ bytes_of s
bytes_of-append [] s = refl
bytes_of-append (failed ∷ r) s = bytes_of-append r s
bytes_of-append (chunk xs ∷ r) s =
    ap (λ l. xs ++ l) (bytes_of-append r s) ∙ sym (append_assoc xs (bytes_of r) (bytes_of s))

both_phases :
    (reads : List Read) (b : Buffer) (rest : List Read) (total : ℕ) (r : Reply)
    → (p : Progress reads [] b rest) → Delivers rest (bytes_of p.got) total r
    → Returns reads r
both_phases reads b rest total broken p d = d
both_phases reads b rest total no_reply p d = subst Fails (sym p.split) (Fails-append p.got rest d)
both_phases reads b rest total (reply ys) p d = (
  p.got ++ d.0,
  d.1,
  p.split ∙ ap (λ l. p.got ++ l) d.2 ∙ sym (append_assoc p.got d.0 d.1),
  d.3 ∙ ap (λ l. l ++ 0 ∷ []) (sym (bytes_of-append p.got d.0)),
)

continued : (reads : List Read) (p : Phase) → InPhase reads [] p → Returns reads (after_headers p)
unfolding after_headers
continued reads fault q = absurd q
continued reads exited q = q
continued reads (headers b header_end content_length rest) q =
    let total = (size_of content_length + size_of header_end) % 2 ^ 64 in
    both_phases reads b rest total (body_loop total rest b) q
      (body_loop-Delivers total rest b (bytes_of q.got) q.holds)

-- Whatever the header and the numbers in it say, `receive_from_server` accesses nothing outside its
-- buffer, the reads of `strtol` aside, and what it returns is the bytes of the reads up to one of
-- them, in their order, and a terminator; or it exits at a read that failed.
pub receive_from_server-Returns :
    (tolower : ℕ → ℕ) (strtol : List ℕ → ℤ) (reads : List Read)
    → Returns reads (receive_from_server tolower strtol reads)
unfolding receive_from_server
receive_from_server-Returns tolower strtol reads =
    continued reads (header_loop tolower strtol reads buffer_init (pos 0))
      (header_loop-InPhase tolower strtol reads buffer_init (pos 0) [] buffer_init-Holds)
