-- ===== src/Http/Requests/Written.antt =====
-- The texts that lab10/requests.c computes, as lines, and when they fit.
use protocoale.Base.{
  ℕ, ◌+◌, ◌≤◌, ◌<◌, ◌≡◌, refl, sym, ap, ◌∙◌, arith, false, Option, none, some, List, [], ◌∷◌, ◌++◌,
  length, ltb, ltb→lt, Bool-cases, inl, inr,
}
use protocoale.Base.Int.{ℤ, pos, negsuc}
use protocoale.Http.Text.{◌>>=◌, linelen, print_line, compute_message, decimal}
use protocoale.Http.Requests.{
  Body, post_text, protocol_text, content_type_text, length_text, request_line, with_cookies,
  compute_get_request, add_fields, total_length, compute_post_request,
}
use protocoale.Http.Requests.Lines.{
  bind_cong, put, puts, put_then, puts_one, put_short, put_long, written, puts-written,
}
use protocoale.Http.Requests.Fields.{
  joined, total, total_length-joined, body_of, add_fields_fits, add_fields_full,
}
use protocoale.Http.Requests.Puts.{second_line, cookie_lines, get_lines, cookies_then, start_then}

-- `compute_get_request` writes the request line, the host, the cookies and an empty line, each
-- ended by CR LF, if each line is shorter than LINELEN and the text than BUFLEN; otherwise it writes
-- behind a block. Without a host the request line stands there twice.
compute_get_request-written :
    (host : Option (List ℕ)) (url : List ℕ) (query : Option (List ℕ))
    (cookies : Option (List (List ℕ)))
    → compute_get_request host url query cookies ≡ written (get_lines host url query cookies) []
unfolding compute_get_request
compute_get_request-written host url query cookies =
    start_then host (request_line url query)
      (λ m. with_cookies cookies m >>= λ m3. compute_message m3 [])
      (cookie_lines cookies ++ [] ∷ [])
      (λ m.
        cookies_then cookies m (λ m3. compute_message m3 []) ([] ∷ [])
          (λ m3. puts_one [] m3 (omega arith)))
    ∙ puts-written (get_lines host url query cookies) [] (omega arith)

-- The lines of a POST request with this body and this announced length; the body is the last one.
abbrev pub post_lines :
    Option (List ℕ)
    → (url content_type : List ℕ) → (announced : ℤ) → Option (List (List ℕ))
    → (body : List ℕ) → List (List ℕ)
post_lines host url content_type announced cookies body =
    let line = post_text ++ url ++ protocol_text in
    line
    ∷ second_line host line
    ∷ (content_type_text ++ content_type)
    ∷ (length_text ++ decimal announced)
    ∷ (cookie_lines cookies ++ [] ∷ body ∷ [])

abbrev rest_from :
    (announced : ℤ) → Option (List (List ℕ)) → (body message : List ℕ) → Option (List ℕ)
rest_from announced cookies body message = print_line (length_text ++ decimal announced) >>= λ l.
    compute_message message l >>= λ m4.
    with_cookies cookies m4 >>= λ m5. compute_message m5 [] >>= λ m6. compute_message m6 body

-- All after the third line, from the body and its announced length.
rest_puts :
    (announced : ℤ) (cookies : Option (List (List ℕ))) (body message : List ℕ)
    → length body < linelen
    → rest_from announced cookies body message
      ≡ puts ((length_text ++ decimal announced) ∷ (cookie_lines cookies ++ [] ∷ body ∷ [])) message
rest_puts announced cookies body message short =
    put_then (length_text ++ decimal announced) message
      (λ _ m4.
        with_cookies cookies m4 >>= λ m5. compute_message m5 [] >>= λ m6. compute_message m6 body)
      (λ m4. puts (cookie_lines cookies ++ [] ∷ body ∷ []) m4)
      λ _ m4.
        cookies_then cookies m4 (λ m5. compute_message m5 [] >>= λ m6. compute_message m6 body)
          ([] ∷ body ∷ [])
          λ m5.
            bind_cong (compute_message m5 []) (λ m6. compute_message m6 body)
              (λ m6. puts (body ∷ []) m6) (λ m6. puts_one body m6 short)
            ∙ ap (λ o. o >>= λ m6. puts (body ∷ []) m6) (sym (put_short [] m5 refl))

none_after :
    {A B : Type 0} (o : Option A) (f : A → Option B) → ((a : A) → f a ≡ none) → (o >>= f) ≡ none
none_after none f e = refl
none_after (some a) f e = e a

-- A last line that is too long for its block is not written.
puts-none :
    (before : List (List ℕ)) (last message : List ℕ)
    → linelen ≤ length last
    → puts (before ++ [] ∷ last ∷ []) message ≡ none
puts-none [] last message h =
    let long : ltb (length last) linelen ≡ false = ground arith in
    none_after (put [] message) (λ m. puts (last ∷ []) m)
      λ m. ap (λ o. o >>= λ m'. some m') (put_long last m long)
puts-none (line ∷ before) last message h =
    none_after (put line message) (λ m. puts (before ++ [] ∷ last ∷ []) m)
      λ m. puts-none before last m h

-- What `compute_post_request` does with the body.
abbrev after_body : List (List ℕ) → Option (List (List ℕ)) → List ℕ → Body → Option (List ℕ)
after_body fields cookies message body =
    rest_from (total_length body.content_length fields) cookies body.text message

-- The lines behind the third one, with the body that its fields make.
abbrev last_lines : Option (List (List ℕ)) → List ℕ → List (List ℕ)
last_lines cookies body =
    (length_text ++ decimal (pos (length body))) ∷ (cookie_lines cookies ++ [] ∷ body ∷ [])

body_puts :
    (field : List ℕ) (fields : List (List ℕ)) (cookies : Option (List (List ℕ))) (message : List ℕ)
    → (add_fields (field ∷ fields) (body_of [] 0) >>= λ b.
        after_body (field ∷ fields) cookies message b)
      ≡ puts (last_lines cookies (joined (field ∷ fields))) message
body_puts field fields cookies message =
    let body = joined (field ∷ fields) in
    let plain : 0 + total (field ∷ fields) ≡ total (field ∷ fields) = omega arith in
    elim (Bool-cases (ltb (length body) linelen)) [
      | inl fits ↦
          let short : length body < linelen = ltb→lt (length body) linelen fits in
          rw (add_fields_fits field fields [] 0 (omega arith)) (
            ap (λ n. rest_from (total_length n (field ∷ fields)) cookies body message) plain
            ∙ ap (λ n. rest_from n cookies body message) (total_length-joined field fields)
            ∙ rest_puts (pos (length body)) cookies body message short)
      | inr over ↦
          let long : linelen ≤ length body = ground arith in
          rw (add_fields_full field fields [] 0 (omega arith)) (
            sym (
              puts-none ((length_text ++ decimal (pos (length body))) ∷ cookie_lines cookies) body
                message long))
    ]

no_fields :
    (cookies : Option (List (List ℕ))) (message : List ℕ)
    → (add_fields [] (body_of [] 0) >>= λ b. after_body [] cookies message b)
      ≡ puts ((length_text ++ decimal (negsuc 0)) ∷ (cookie_lines cookies ++ [] ∷ [] ∷ [])) message
unfolding add_fields total_length
no_fields cookies message = rest_puts (negsuc 0) cookies [] message (omega arith)

-- `compute_post_request` for at least one field writes the request line, the host, the content
-- type, the length of the joined fields, the cookies, an empty line and the joined fields, each ended
-- by CR LF, if each is shorter than LINELEN and the text than BUFLEN; otherwise it writes behind a
-- block.
pub compute_post_request-written :
    (host : Option (List ℕ)) (url content_type field : List ℕ) (fields : List (List ℕ))
    (cookies : Option (List (List ℕ)))
    → compute_post_request host url content_type (field ∷ fields) cookies
      ≡ written
          (post_lines host url content_type
            (pos (length (joined (field ∷ fields))))
            cookies
            (joined (field ∷ fields)))
          []
unfolding compute_post_request
compute_post_request-written host url content_type field fields cookies =
    let body = joined (field ∷ fields) in
    let third = content_type_text ++ content_type in
    start_then host (post_text ++ url ++ protocol_text)
      (λ m2. print_line third >>= λ l. compute_message m2 l >>= λ m3.
        add_fields (field ∷ fields) (body_of [] 0) >>= λ b.
        after_body (field ∷ fields) cookies m3 b)
      (third ∷ last_lines cookies body)
      (λ m2.
        put_then third m2
          (λ _ m3. add_fields (field ∷ fields) (body_of [] 0) >>= λ b.
            after_body (field ∷ fields) cookies m3 b)
          (λ m3. puts (last_lines cookies body) m3) (λ _ m3. body_puts field fields cookies m3))
    ∙ puts-written (post_lines host url content_type (pos (length body)) cookies body) []
        (omega arith)

-- Without fields `compute_post_request` announces a length of -1.
compute_post_request_empty :
    (host : Option (List ℕ)) (url content_type : List ℕ) (cookies : Option (List (List ℕ)))
    → compute_post_request host url content_type [] cookies
      ≡ written (post_lines host url content_type (negsuc 0) cookies []) []
unfolding compute_post_request
compute_post_request_empty host url content_type cookies =
    let third = content_type_text ++ content_type in
    let last = (length_text ++ decimal (negsuc 0)) ∷ (cookie_lines cookies ++ [] ∷ [] ∷ []) in
    start_then host (post_text ++ url ++ protocol_text)
      (λ m2. print_line third >>= λ l. compute_message m2 l >>= λ m3.
        add_fields [] (body_of [] 0) >>= λ b. after_body [] cookies m3 b)
      (third ∷ last)
      (λ m2.
        put_then third m2 (λ _ m3. add_fields [] (body_of [] 0) >>= λ b. after_body [] cookies m3 b)
          (λ m3. puts last m3) (λ _ m3. no_fields cookies m3))
    ∙ puts-written (post_lines host url content_type (negsuc 0) cookies []) [] (omega arith)
