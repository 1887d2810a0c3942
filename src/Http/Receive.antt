-- ===== src/Http/Receive.antt =====
-- `receive_from_server` of lab10/helpers.c, over the results of its calls of `read`.
pub mod Header
pub mod Received
use protocoale.Base.{
  ℕ, zero, suc, ◌+◌, ◌-◌, ◌%◌, ◌^◌, Bool, true, false, Option, none, some, List, [], ◌∷◌, ◌++◌,
  length, drop, ltb,
}
use protocoale.Base.Int.{ℤ, pos, negsuc}
use protocoale.Http.Buffer.{Buffer, buffer_init, buffer_add, buffer_find, buffer_find_insensitive}
use protocoale.Http.Buffer.Grow.{contents}

-- The bytes that a call of `read` delivered; none means that the peer has closed. -1 is an error.
pub data Read : Type 0 where
  chunk : List ℕ → Read
  failed : Read

abbrev pub header_terminator : List ℕ
header_terminator = 13 ∷ 10 ∷ 13 ∷ 10 ∷ []

-- "Content-Length: "
abbrev pub content_length_text : List ℕ
content_length_text =
    67 ∷ 111 ∷ 110 ∷ 116 ∷ 101 ∷ 110 ∷ 116 ∷ 45 ∷ 76 ∷ 101 ∷ 110 ∷ 103 ∷ 116 ∷ 104 ∷ 58 ∷ 32 ∷ []

-- The end of the first loop: the buffer, `header_end`, `content_length` and the reads to come; or
-- `exit`; or an access outside a block.
pub data Phase : Type 0 where
  headers : Buffer → (header_end content_length : ℤ) → List Read → Phase
  exited : Phase
  fault : Phase

-- An `int` as a `size_t`.
unfoldable pub size_of : ℤ → ℕ
size_of (pos n) = n
size_of (negsuc n) = 2 ^ 64 - suc n

pub data Reply : Type 0 where
  reply : List ℕ → Reply
  no_reply : Reply
  broken : Reply

-- `buffer_add(&buffer, "", 1); return buffer.data;`
unfoldable pub finish : Buffer → Reply
finish b = elim (buffer_add b (0 ∷ [])) [ none ↦ broken | some b' ↦ reply (contents b') ]

-- The second loop, up to `total` bytes.
unfoldable pub body_loop : (total : ℕ) → List Read → Buffer → Reply
body_loop total [] b = finish b
body_loop total (failed ∷ reads) b = elim (ltb b.size total) [ false ↦ finish b | true ↦ no_reply ]
body_loop total (chunk [] ∷ reads) b = finish b
body_loop total (chunk (x ∷ xs) ∷ reads) b = elim (ltb b.size total) [
  | false ↦ finish b
  | true ↦ elim (buffer_add b (x ∷ xs)) [ none ↦ broken | some b' ↦ body_loop total reads b' ]
]

-- The second loop, and the end, after the first.
unfoldable pub after_headers : Phase → Reply
after_headers (headers b header_end content_length rest) =
    body_loop ((size_of content_length + size_of header_end) % 2 ^ 64) rest b
after_headers exited = no_reply
after_headers fault = broken

-- `tolower` and `strtol` are the C library's; `strtol` is given the bytes from its start on.
module _ (tolower : ℕ → ℕ) (strtol : List ℕ → ℤ) where
  -- The header ends at `header_end`: with a length the loop is done, without one it goes on.
  unfoldable pub with_length :
      Buffer → List Read → (ℤ → Phase) → (header_end : ℕ) → Option ℤ → Phase
  with_length b rest again header_end none = fault
  with_length b rest again header_end (some (negsuc n)) = again (pos header_end)
  with_length b rest again header_end (some (pos j)) =
      headers b (pos header_end) (strtol (drop (j + 16) (contents b))) rest

  unfoldable pub with_header : Buffer → List Read → (ℤ → Phase) → Option ℤ → Phase
  with_header b rest again none = fault
  with_header b rest again (some (negsuc n)) = again (negsuc n)
  with_header b rest again (some (pos i)) =
      with_length b rest again (i + 4) (buffer_find_insensitive tolower b content_length_text)

  -- The first loop. When the reads are used up the peer has closed.
  unfoldable pub header_loop : List Read → Buffer → (header_end : ℤ) → Phase
  header_loop [] b header_end = headers b header_end (pos 0) []
  header_loop (failed ∷ reads) b header_end = exited
  header_loop (chunk [] ∷ reads) b header_end = headers b header_end (pos 0) reads
  header_loop (chunk (x ∷ xs) ∷ reads) b header_end = elim (buffer_add b (x ∷ xs)) [
    | none ↦ fault
    | some b' ↦
        with_header b' reads (λ header_end. header_loop reads b' header_end)
          (buffer_find b' header_terminator)
  ]

  unfoldable pub receive_from_server : List Read → Reply
  receive_from_server reads = after_headers (header_loop reads buffer_init (pos 0))
