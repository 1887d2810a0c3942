-- ===== src/Http/Requests/Puts.antt =====
-- The parts of a request as lines that are put behind one another.
use protocoale.Base.{
  ℕ, ◌<◌, ◌≡◌, refl, sym, ap, ◌∙◌, true, Option, none, some, List, [], ◌∷◌, ◌++◌, map, length, ltb,
  lt→ltb,
}
use protocoale.Http.Text.{◌>>=◌, linelen, print_line, compute_message}
use protocoale.Http.Requests.{
  host_text, cookie_text, request_line, host_line, add_cookies, with_cookies,
}
use protocoale.Http.Requests.Lines.{bind_cong, bind_assoc, put, puts, put_then}

-- The second line: without a host it is the first one again.
abbrev pub second_line : Option (List ℕ) → List ℕ → List ℕ
second_line none line = line
second_line (some host) line = host_text ++ host

abbrev pub cookie_lines : Option (List (List ℕ)) → List (List ℕ)
cookie_lines none = []
cookie_lines (some cookies) = map (λ cookie. cookie_text ++ cookie) cookies

abbrev pub get_lines :
    Option (List ℕ) → List ℕ → Option (List ℕ) → Option (List (List ℕ)) → List (List ℕ)
get_lines host url query cookies =
    let line = request_line url query in
    line ∷ second_line host line ∷ (cookie_lines cookies ++ [] ∷ [])

puts-append :
    (before after : List (List ℕ)) (message : List ℕ)
    → puts (before ++ after) message ≡ (puts before message >>= λ m. puts after m)
puts-append [] after message = refl
puts-append (line ∷ before) after message =
    bind_cong (put line message) (λ m. puts (before ++ after) m)
      (λ m. puts before m >>= λ m'. puts after m') (λ m. puts-append before after m)
    ∙ sym (bind_assoc (put line message) (λ m. puts before m) (λ m. puts after m))

add_cookies-puts :
    (cookies : List (List ℕ)) (message : List ℕ)
    → add_cookies cookies message ≡ puts (cookie_lines (some cookies)) message
unfolding add_cookies
add_cookies-puts [] message = refl
add_cookies-puts (cookie ∷ cookies) message =
    put_then (cookie_text ++ cookie) message (λ _ added. add_cookies cookies added)
      (λ added. puts (cookie_lines (some cookies)) added)
      (λ short added. add_cookies-puts cookies added)

with_cookies-puts :
    (cookies : Option (List (List ℕ))) (message : List ℕ)
    → with_cookies cookies message ≡ puts (cookie_lines cookies) message
unfolding with_cookies
with_cookies-puts none message = refl
with_cookies-puts (some cookies) message = add_cookies-puts cookies message

-- The cookies, and what follows them.
pub cookies_then :
    (cookies : Option (List (List ℕ))) (message : List ℕ) (go : List ℕ → Option (List ℕ))
    (after : List (List ℕ))
    → ((added : List ℕ) → go added ≡ puts after added)
    → (with_cookies cookies message >>= λ m. go m) ≡ puts (cookie_lines cookies ++ after) message
cookies_then cookies message go after e =
    bind_cong (with_cookies cookies message) go (λ m. puts after m) e
    ∙ ap (λ o. o >>= λ m. puts after m) (with_cookies-puts cookies message)
    ∙ sym (puts-append (cookie_lines cookies) after message)

host_line-print_line :
    (host : Option (List ℕ)) (line : List ℕ)
    → length line < linelen
    → host_line host line ≡ print_line (second_line host line)
unfolding host_line print_line
host_line-print_line none line h =
    let short : ltb (length line) linelen ≡ true = lt→ltb (length line) linelen h in rw short refl
host_line-print_line (some host) line h = refl

-- The first two lines, and what follows them.
pub start_then :
    (host : Option (List ℕ)) (line : List ℕ) (go : List ℕ → Option (List ℕ)) (after : List (List ℕ))
    → ((added : List ℕ) → go added ≡ puts after added)
    → (print_line line >>= λ l. compute_message [] l >>= λ m1.
        host_line host l >>= λ l2. compute_message m1 l2 >>= λ m2. go m2)
      ≡ puts (line ∷ second_line host line ∷ after) []
start_then host line go after e =
    put_then line [] (λ l m1. host_line host l >>= λ l2. compute_message m1 l2 >>= λ m2. go m2)
      (λ m1. puts (second_line host line ∷ after) m1)
      λ short m1.
        rw (host_line-print_line host line short)
          (put_then (second_line host line) m1 (λ _ m2. go m2) (λ m2. puts after m2) (λ _ m2. e m2))
