-- ===== src/Http/Receive/Header.antt =====
-- The first loop of `receive_from_server`: the buffer holds what has been read.
use protocoale.Base.{
  ℕ, ◌+◌, ◌≡◌, ◌≢◌, Option, none, some, List, [], ◌∷◌, ◌++◌, append-nil, append_assoc, refl, sym,
  ap, subst,
}
use protocoale.Base.Int.{ℤ, pos, negsuc}
use protocoale.Http.Buffer.{Buffer, buffer_find, buffer_find_insensitive}
use protocoale.Http.Buffer.Grow.{Holds, buffer_add-Holds}
use protocoale.Http.Buffer.Find.{buffer_find-ne-none, buffer_find_insensitive-ne-none}
use protocoale.Http.Receive.{
  Read, chunk, failed, header_terminator, content_length_text, Phase, headers, exited, fault,
  with_length, with_header, header_loop,
}

abbrev pub bytes_of : List Read → List ℕ
bytes_of [] = []
bytes_of (failed ∷ reads) = bytes_of reads
bytes_of (chunk xs ∷ reads) = xs ++ bytes_of reads

-- Some read failed.
abbrev pub Fails : List Read → Type 0
Fails [] = ⊥
Fails (failed ∷ reads) = Unit {0}
Fails (chunk xs ∷ reads) = Fails reads

pub Fails-append : (got rest : List Read) → Fails rest → Fails (got ++ rest)
Fails-append [] rest h = h
Fails-append (failed ∷ got) rest h = tt
Fails-append (chunk xs ∷ got) rest h = Fails-append got rest h

-- The reads so far were `got`, and the buffer holds their bytes behind `xs`.
pub record Progress (reads : List Read) (xs : List ℕ) (b : Buffer) (rest : List Read) : Type 0 where
  pub got : List Read
  pub split : reads ≡ got ++ rest
  pub holds : Holds b (xs ++ bytes_of got)

abbrev pub InPhase : List Read → List ℕ → Phase → Type 0
InPhase reads xs fault = ⊥
InPhase reads xs exited = Fails reads
InPhase reads xs (headers b header_end content_length rest) = Progress reads xs b rest

nothing_read :
    (reads : List Read) (xs : List ℕ) (b : Buffer) → Holds b xs → Progress reads xs b reads
nothing_read reads xs b h = record {
  got = [];
  split = refl;
  holds = subst (Holds b) (sym (append-nil xs)) h;
}

one_read :
    (reads : List Read) (xs ys : List ℕ) (b : Buffer) (rest : List Read)
    → Progress reads (xs ++ ys) b rest
    → Progress (chunk ys ∷ reads) xs b rest
one_read reads xs ys b rest p = record {
  got = chunk ys ∷ p.got;
  split = ap (λ l. chunk ys ∷ l) p.split;
  holds = subst (Holds b) (append_assoc xs ys (bytes_of p.got)) p.holds;
}

module _ (tolower : ℕ → ℕ) (strtol : List ℕ → ℤ) where
  module _ (reads : List Read) (xs block : List ℕ) (b : Buffer) (rest : List Read)
      (again : ℤ → Phase) (done : Progress reads xs b rest)
      (later : (found : ℤ) → InPhase reads xs (again found)) where
    with_length-InPhase :
        (header_end : ℕ) (r : Option ℤ)
        → r ≢ none
        → InPhase reads xs (with_length tolower strtol b rest again header_end r)
    unfolding with_length
    with_length-InPhase header_end none f = absurd (f refl)
    with_length-InPhase header_end (some (negsuc n)) f = later (pos header_end)
    with_length-InPhase header_end (some (pos j)) f = done

    with_header-InPhase :
        (r : Option ℤ)
        → Holds b block
        → r ≢ none
        → InPhase reads xs (with_header tolower strtol b rest again r)
    unfolding with_header
    with_header-InPhase none h f = absurd (f refl)
    with_header-InPhase (some (negsuc n)) h f = later (negsuc n)
    with_header-InPhase (some (pos i)) h f =
        with_length-InPhase (i + 4) (buffer_find_insensitive tolower b content_length_text)
          (buffer_find_insensitive-ne-none tolower b block content_length_text h)

  -- A step of the first loop that has read `ys` goes on as the loop does from there.
  one_more :
      (reads : List Read) (xs ys : List ℕ) (p : Phase)
      → InPhase reads (xs ++ ys) p
      → InPhase (chunk ys ∷ reads) xs p
  one_more reads xs ys fault q = q
  one_more reads xs ys exited q = q
  one_more reads xs ys (headers b header_end content_length rest) q = one_read reads xs ys b rest q

  pub header_loop-InPhase :
      (reads : List Read) (b : Buffer) (header_end : ℤ) (xs : List ℕ)
      → Holds b xs
      → InPhase reads xs (header_loop tolower strtol reads b header_end)
  unfolding header_loop
  header_loop-InPhase [] b header_end xs h = nothing_read [] xs b h
  header_loop-InPhase (failed ∷ reads) b header_end xs h = tt
  header_loop-InPhase (chunk [] ∷ reads) b header_end xs h = record {
    got = chunk [] ∷ [];
    split = refl;
    holds = subst (Holds b) (sym (append-nil xs)) h;
  }
  header_loop-InPhase (chunk (y ∷ ys) ∷ reads) b header_end xs h =
      let (b', added, holds, _) = buffer_add-Holds b xs (y ∷ ys) h in
      let next = xs ++ y ∷ ys in
      rw (added, InPhase)
        (one_more reads xs (y ∷ ys) _ (
          with_header-InPhase reads next next b' reads
            (λ found. header_loop tolower strtol reads b' found) (nothing_read reads next b' holds)
            (λ found. header_loop-InPhase reads b' found next holds)
            (buffer_find b' header_terminator) holds
            (buffer_find-ne-none b' next header_terminator holds)))
