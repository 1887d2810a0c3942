-- ===== src/Http/Requests.antt =====
-- lab10/requests.c: the text of a GET and of a POST request. `none` is a write behind a block.
pub mod Lines
pub mod Fields
pub mod Puts
pub mod Written
use protocoale.Base.{ℕ, ◌+◌, Option, none, some, List, [], ◌∷◌, ◌++◌, length}
use protocoale.Base.Int.{ℤ, sub_ℕ}
use protocoale.Http.Text.{◌>>=◌, linelen, strcat, print_line, compute_message, decimal}

abbrev pub get_text : List ℕ
get_text = b'G' ∷ b'E' ∷ b'T' ∷ b' ' ∷ []

abbrev pub post_text : List ℕ
post_text = b'P' ∷ b'O' ∷ b'S' ∷ b'T' ∷ b' ' ∷ []

abbrev pub protocol_text : List ℕ
protocol_text = b' ' ∷ b'H' ∷ b'T' ∷ b'T' ∷ b'P' ∷ b'/' ∷ b'1' ∷ b'.' ∷ b'1' ∷ []

abbrev pub host_text : List ℕ
host_text = b'H' ∷ b'o' ∷ b's' ∷ b't' ∷ b':' ∷ b' ' ∷ []

abbrev pub cookie_text : List ℕ
cookie_text = b'C' ∷ b'o' ∷ b'o' ∷ b'k' ∷ b'i' ∷ b'e' ∷ b':' ∷ b' ' ∷ []

abbrev pub content_type_text : List ℕ
content_type_text =
    b'C' ∷ b'o' ∷ b'n' ∷ b't' ∷ b'e' ∷ b'n' ∷ b't' ∷ b'-' ∷ b'T' ∷ b'y' ∷ b'p' ∷ b'e' ∷ b':' ∷ b' '
    ∷ []

abbrev pub length_text : List ℕ
length_text =
    b'C' ∷ b'o' ∷ b'n' ∷ b't' ∷ b'e' ∷ b'n' ∷ b't' ∷ b'-' ∷ b'L' ∷ b'e' ∷ b'n' ∷ b'g' ∷ b't' ∷ b'h'
    ∷ b':' ∷ b' ' ∷ []

-- Step 1 of a GET request; no query is `NULL`.
unfoldable pub request_line : (url : List ℕ) → (query : Option (List ℕ)) → List ℕ
request_line url none = get_text ++ url ++ protocol_text
request_line url (some query) = get_text ++ url ++ b'?' ∷ query ++ protocol_text

-- What `line` holds after step 2. Without a host it is what it was.
unfoldable pub host_line : (host : Option (List ℕ)) → (line : List ℕ) → Option (List ℕ)
host_line none line = some line
host_line (some host) line = print_line (host_text ++ host)

-- The loop over the cookies.
unfoldable pub add_cookies : (cookies : List (List ℕ)) → (message : List ℕ) → Option (List ℕ)
add_cookies [] message = some message
add_cookies (cookie ∷ cookies) message = do
  line ← print_line (cookie_text ++ cookie)
  added ← compute_message message line
  add_cookies cookies added

-- `cookies` is `NULL` or as many as `cookies_count` says.
unfoldable pub with_cookies : Option (List (List ℕ)) → (message : List ℕ) → Option (List ℕ)
with_cookies none message = some message
with_cookies (some cookies) message = add_cookies cookies message

unfoldable pub compute_get_request :
    (host : Option (List ℕ)) (url : List ℕ) (query : Option (List ℕ))
    (cookies : Option (List (List ℕ)))
    → Option (List ℕ)
compute_get_request host url query cookies = do
  line ← print_line (request_line url query)
  m1 ← compute_message [] line
  line2 ← host_line host line
  m2 ← compute_message m1 line2
  m3 ← with_cookies cookies m2
  compute_message m3 []

-- The body so far and `content_length`.
pub record Body : Type 0 where
  pub text : List ℕ
  pub content_length : ℕ

-- The loop over the fields of the body.
unfoldable pub add_fields : (fields : List (List ℕ)) → Body → Option Body
add_fields [] body = some body
add_fields (field ∷ []) body = do
  text ← strcat linelen body.text field
  some (record { text = text; content_length = body.content_length + length field })
add_fields (field ∷ next ∷ fields) body = do
  text ← strcat linelen body.text field
  joined ← strcat linelen text (b'&' ∷ [])
  add_fields (next ∷ fields)
      (record { text = joined; content_length = body.content_length + length field })

-- `content_length += body_data_fields_count - 1`.
unfoldable pub total_length : ℕ → (fields : List (List ℕ)) → ℤ
total_length n fields = sub_ℕ (n + length fields) 1

unfoldable pub compute_post_request :
    (host : Option (List ℕ)) (url content_type : List ℕ) (fields : List (List ℕ))
    (cookies : Option (List (List ℕ)))
    → Option (List ℕ)
compute_post_request host url content_type fields cookies = do
  line ← print_line (post_text ++ url ++ protocol_text)
  m1 ← compute_message [] line
  line2 ← host_line host line
  m2 ← compute_message m1 line2
  line3 ← print_line (content_type_text ++ content_type)
  m3 ← compute_message m2 line3
  body ← add_fields fields (record { text = []; content_length = 0 })
  line4 ← print_line (length_text ++ decimal (total_length body.content_length fields))
  m4 ← compute_message m3 line4
  m5 ← with_cookies cookies m4
  m6 ← compute_message m5 []
  compute_message m6 body.text
