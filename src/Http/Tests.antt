-- ===== src/Http/Tests.antt =====
-- The theorems on lab10 at concrete inputs.
use protocoale.Base.{
  ℕ, ◌+◌, ◌≡◌, some, none, List, [], ◌∷◌, ◌++◌, refl, arith, ltb, false, if◌then◌else◌,
}
use protocoale.Base.Int.{pos}
use protocoale.Http.Buffer.{Buffer, buffer_add, buffer_is_empty, buffer_find}
use protocoale.Http.Buffer.Grow.{Holds, buffer_add-Holds}
use protocoale.Http.Buffer.Find.{FindsFirst, buffer_find-FindsFirst}
use protocoale.Http.Receive.{chunk, failed, header_terminator, body_loop, receive_from_server}
use protocoale.Http.Receive.Received.{
  Delivers, Returns, body_loop-Delivers, receive_from_server-Returns,
}
use protocoale.Http.Send.{accepted, returned, send_to_server}
use protocoale.Http.Send.Sent.{send_to_server_all}
use protocoale.Http.Requests.{compute_post_request}
use protocoale.Http.Requests.Lines.{written}
use protocoale.Http.Requests.Written.{post_lines, compute_post_request-written}

-- "OK", a line, an empty line.
abbrev text : List ℕ
text = 79 ∷ 75 ∷ 13 ∷ 10 ∷ 13 ∷ 10 ∷ []

abbrev buffer : Buffer
buffer = record { bytes = some text; size = 6 }

buffer-Holds : Holds buffer text
buffer-Holds = record { held = refl; sized = refl }

-- A `tolower` for the capitals of the tests.
abbrev lower : ℕ → ℕ
lower c = if ltb c 91 then c + 32 else c

buffer_add-Holds_example :
    (b' : Buffer) × (buffer_add buffer (65 ∷ []) ≡ some b')
    × Holds b' (text ++ 65 ∷ [])
    × (buffer_is_empty b' ≡ false)
buffer_add-Holds_example = buffer_add-Holds buffer text (65 ∷ []) buffer-Holds

buffer_find-FindsFirst_example :
    FindsFirst (λ c. c) text header_terminator (buffer_find buffer header_terminator)
buffer_find-FindsFirst_example =
    buffer_find-FindsFirst buffer text header_terminator buffer-Holds (omega arith)

body_loop-Delivers_example :
    Delivers
      (chunk (65 ∷ []) ∷ failed ∷ [])
      text
      7
      (body_loop 7 (chunk (65 ∷ []) ∷ failed ∷ []) buffer)
body_loop-Delivers_example =
    body_loop-Delivers 7 (chunk (65 ∷ []) ∷ failed ∷ []) buffer text buffer-Holds

receive_from_server-Returns_example :
    Returns
      (chunk text ∷ chunk [] ∷ [])
      (receive_from_server lower (λ digits. pos 0) (chunk text ∷ chunk [] ∷ []))
receive_from_server-Returns_example =
    receive_from_server-Returns lower (λ digits. pos 0) (chunk text ∷ chunk [] ∷ [])

abbrev host : List ℕ
host = b'h' ∷ b'o' ∷ []

abbrev url : List ℕ
url = b'/' ∷ b'u' ∷ []

abbrev cookie : List ℕ
cookie = b'c' ∷ b'=' ∷ b'1' ∷ []

-- The body is a=b&c=1.
compute_post_request-written_example :
    compute_post_request (some host) url url ((b'a' ∷ b'=' ∷ b'b' ∷ []) ∷ cookie ∷ []) none
    ≡ written
        (post_lines
          (some host)
          url
          url
          (pos 7)
          none
          (b'a' ∷ b'=' ∷ b'b' ∷ b'&' ∷ b'c' ∷ b'=' ∷ b'1' ∷ []))
        []
compute_post_request-written_example =
    compute_post_request-written (some host) url url (b'a' ∷ b'=' ∷ b'b' ∷ []) (cookie ∷ []) none

send_to_server_all_example : send_to_server url (accepted 1 ∷ accepted 1 ∷ []) ≡ returned url
send_to_server_all_example =
    send_to_server_all url (accepted 1 ∷ accepted 1 ∷ []) (omega arith, (omega arith, tt))
      (omega arith) (omega arith)
