-- ===== src/Http/Requests/Fields.antt =====
-- The body of a POST request: its fields joined by `&`, and its length.
use protocoale.Base.{
  ℕ, suc, ◌+◌, ◌≤◌, ◌<◌, ◌≡◌, refl, ap, ◌∙◌, arith, true, none, some, List, [], ◌∷◌, ◌++◌, length,
  length-append, append_assoc, ltb, leb, ltb→lt, ◌-◌, Bool-cases, inl, inr,
}
use protocoale.Base.Int.{pos, sub_ℕ}
use protocoale.Http.Text.{◌>>=◌, linelen, strcat}
use protocoale.Http.Text.Strcat.{strcat_fits, strcat_full}
use protocoale.Http.Requests.{Body, add_fields, total_length}

-- The fields with `&` between them.
abbrev pub joined : List (List ℕ) → List ℕ
joined [] = []
joined (field ∷ []) = field
joined (field ∷ next ∷ fields) = field ++ b'&' ∷ joined (next ∷ fields)

abbrev pub total : List (List ℕ) → ℕ
total [] = 0
total (field ∷ fields) = length field + total fields

length-joined :
    (field : List ℕ) (fields : List (List ℕ))
    → length (joined (field ∷ fields)) ≡ total (field ∷ fields) + length fields
length-joined field [] = omega arith
length-joined field (next ∷ fields) =
    omega (arith, length-append field (b'&' ∷ joined (next ∷ fields)), length-joined next fields)

sub_one : (n : ℕ) → sub_ℕ (suc n) 1 ≡ pos n
sub_one n =
    let at_least : leb 1 (suc n) ≡ true = ground arith in
    let e : suc n - 1 ≡ n = omega arith in rw (at_least, e) refl

-- The length that is announced for at least one field is that of the body.
pub total_length-joined :
    (field : List ℕ) (fields : List (List ℕ))
    → total_length (total (field ∷ fields)) (field ∷ fields)
      ≡ pos (length (joined (field ∷ fields)))
unfolding total_length
total_length-joined field fields =
    let e : total (field ∷ fields) + length (field ∷ fields)
        ≡ suc (length (joined (field ∷ fields))) =
      omega (arith, length-joined field fields) in
    rw e (sub_one (length (joined (field ∷ fields))))

abbrev pub body_of : List ℕ → ℕ → Body
body_of text n = record { text = text; content_length = n }

pub add_fields_fits :
    (field : List ℕ) (fields : List (List ℕ)) (text : List ℕ) (n : ℕ)
    → length text + length (joined (field ∷ fields)) < linelen
    → add_fields (field ∷ fields) (body_of text n)
      ≡ some (body_of (text ++ joined (field ∷ fields)) (n + total (field ∷ fields)))
unfolding add_fields
add_fields_fits field [] text n h =
    rw (strcat_fits linelen text field h) (ap (λ k. some (body_of (text ++ field) k)) (omega arith))
add_fields_fits field (next ∷ fields) text n h =
    let rest = b'&' ∷ joined (next ∷ fields) in
    let len = length-append field rest in
    let first : length text + length field < linelen = omega arith in
    let second : length (text ++ field) + 1 < linelen = omega (arith, length-append text field) in
    let third : length (text ++ field ++ b'&' ∷ []) + length (joined (next ∷ fields)) < linelen =
      omega (arith, length-append (text ++ field) (b'&' ∷ []), length-append text field) in
    let sum : n + length field + total (next ∷ fields) ≡ n + total (field ∷ next ∷ fields) =
      omega arith in
    rw
      (strcat_fits linelen text field first, strcat_fits linelen (text ++ field) (b'&' ∷ []) second)
      (add_fields_fits next fields (text ++ field ++ b'&' ∷ []) (n + length field) third
        ∙ ap (λ k. some (body_of (text ++ field ++ b'&' ∷ [] ++ joined (next ∷ fields)) k)) sum
        ∙ ap (λ l. some (body_of l (n + total (field ∷ next ∷ fields))))
            (append_assoc (text ++ field) (b'&' ∷ []) (joined (next ∷ fields))
              ∙ append_assoc text field rest))

no_rest :
    (field next : List ℕ) (fields : List (List ℕ)) (text : List ℕ) (n : ℕ)
    → linelen ≤ length text + length (joined (field ∷ next ∷ fields))
    → ((t : List ℕ)
        → linelen ≤ length t + length (joined (next ∷ fields))
        → add_fields (next ∷ fields) (body_of t (n + length field)) ≡ none)
    → (strcat linelen (text ++ field) (b'&' ∷ []) >>= λ t.
        add_fields (next ∷ fields) (body_of t (n + length field)))
      ≡ none
no_rest field next fields text n h full =
    elim (Bool-cases (ltb (length (text ++ field) + 1) linelen)) [
      | inr over ↦
          let past : linelen ≤ length (text ++ field) + 1 = ground arith in
          rw (strcat_full linelen (text ++ field) (b'&' ∷ []) past) refl
      | inl fits ↦
          let second : length (text ++ field) + 1 < linelen =
            ltb→lt (length (text ++ field) + 1) linelen fits in
          let len = length-append field (b'&' ∷ joined (next ∷ fields)) in
          rw (strcat_fits linelen (text ++ field) (b'&' ∷ []) second) (
            full (text ++ field ++ b'&' ∷ [])
              (omega (arith, length-append (text ++ field) (b'&' ∷ []), length-append text field)))
    ]

pub add_fields_full :
    (field : List ℕ) (fields : List (List ℕ)) (text : List ℕ) (n : ℕ)
    → linelen ≤ length text + length (joined (field ∷ fields))
    → add_fields (field ∷ fields) (body_of text n) ≡ none
unfolding add_fields
add_fields_full field [] text n h = rw (strcat_full linelen text field h) refl
add_fields_full field (next ∷ fields) text n h =
    elim (Bool-cases (ltb (length text + length field) linelen)) [
      | inr over ↦
          let past : linelen ≤ length text + length field = ground arith in
          rw (strcat_full linelen text field past) refl
      | inl fits ↦
          let first : length text + length field < linelen =
            ltb→lt (length text + length field) linelen fits in
          rw (strcat_fits linelen text field first) (
            no_rest field next fields text n h
              (λ t over. add_fields_full next fields t (n + length field) over))
    ]
