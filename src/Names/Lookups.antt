-- ===== src/Names/Lookups.antt =====
-- The tables after an entry was added, and the loops that put a reply together.
use protocoale.Base.{
  ℕ, ◌+◌, ◌<◌, ◌≡◌, inl, inr, refl, ap, arith, true, Option, none, some, List, [], ◌∷◌, ◌++◌,
  length, ltb, if◌then◌else◌, Bool-cases, append_assoc, length-append, append-nil,
}
use protocoale.Text.{same_text}
use protocoale.Text.Prefix.{same_text-equal}
use protocoale.Http.Text.Strcat.{strcat_fits, strcat_full}
use protocoale.Names.{
  String, buflen, Dictionary, assign, push_back, padded, addresses, mail_servers,
}

-- A list in a table, with further values behind it.
abbrev pub extend : Option (List String) → List String → Option (List String)
extend o [] = o
extend none (v ∷ vs) = some (v ∷ vs)
extend (some us) (v ∷ vs) = some (us ++ v ∷ vs)

pub extend-extend :
    (o : Option (List String)) (v : String) (vs : List String)
    → extend (extend o (v ∷ [])) vs ≡ extend o (v ∷ vs)
extend-extend none v [] = refl
extend-extend none v (w ∷ vs) = refl
extend-extend (some us) v [] = refl
extend-extend (some us) v (w ∷ vs) = ap some (append_assoc us (v ∷ []) (w ∷ vs))

pub push_back-lookup :
    (table : Dictionary (List String)) (key value s : String)
    → push_back table key value s
      ≡ (if same_text s key then extend (table s) (value ∷ []) else table s)
unfolding push_back assign
push_back-lookup table key value s = elim (Bool-cases (same_text s key)) [
  | inl same ↦ let e = same_text-equal s key same in ground (arith, same, e)
  | inr other ↦ ground (arith, other)
]

abbrev pub concat : List String → String
concat [] = []
concat (v ∷ vs) = v ++ concat vs

-- All the addresses, if they fit into the buffer.
pub addresses-concat :
    (buffer : String) (values : List String)
    → length buffer < buflen
    → addresses buffer values ≡ (
        if ltb (length (buffer ++ concat values)) buflen
        then some (buffer ++ concat values)
        else none)
unfolding addresses
addresses-concat buffer [] h =
    let fits : ltb (length (buffer ++ [])) buflen ≡ true = ground (arith, append-nil buffer) in
    rw (fits, append-nil buffer) refl
addresses-concat buffer (v ∷ vs) h = elim (Bool-cases (ltb (length buffer + length v) buflen)) [
  | inl fits ↦ ground (
    arith,
    strcat_fits buflen buffer v,
    length-append buffer v,
    append_assoc buffer v (concat vs),
    addresses-concat (buffer ++ v) vs,
  )
  | inr over ↦ ground (
    arith,
    strcat_full buflen buffer v,
    length-append buffer v,
    length-append buffer (v ++ concat vs),
    length-append v (concat vs),
  )
]

-- The last of several strings.
abbrev pub last_of : String → List String → String
last_of v [] = v
last_of v (w ∷ vs) = last_of w vs

abbrev pub AllShort : List String → Type 0
AllShort [] = Unit {0}
AllShort (v ∷ vs) = (length v < buflen) × AllShort vs

pub last_of-short :
    (v : String) (vs : List String) → AllShort (v ∷ vs) → length (last_of v vs) < buflen
last_of-short v [] h = h.0
last_of-short v (w ∷ vs) h = last_of-short w vs h.1

-- Only the last mail server is left in the buffer.
pub mail_servers-last_of :
    (buffer : List ℕ) (v : String) (vs : List String)
    → AllShort (v ∷ vs)
    → mail_servers buffer (v ∷ vs) ≡ some (padded (last_of v vs))
unfolding mail_servers
mail_servers-last_of buffer v [] h = rw (strcat_fits buflen [] v (omega (arith, h.0))) refl
mail_servers-last_of buffer v (w ∷ vs) h =
    rw (strcat_fits buflen [] v (omega (arith, h.0))) (mail_servers-last_of (padded v) w vs h.1)
