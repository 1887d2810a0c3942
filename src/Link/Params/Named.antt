-- ===== src/Link/Params/Named.antt =====
-- What `split_param` makes of a name, an equals sign and a value.
use protocoale.Base.{
  ℕ, ◌+◌, ◌≤◌, ◌<◌, ◌≡◌, ◌≢◌, Bool, true, false, Option, none, some, List, [], ◌∷◌, ◌++◌, length,
  leb, ◌==◌, ◌&&◌, if◌then◌else◌, arith, refl, ◌∙◌, ap,
}
use protocoale.Bytes.{Memory, read_bytes, write_bytes}
use protocoale.Bytes.Copy.{read_bytes-ext, read_bytes-write_bytes}
use protocoale.Link.Params.{
  block_len, Split, Outcome, returned, unknown, Progress, goes_on, ends, speed, delay, loss,
  corrupt, put, type_of, named, round_at, round, split_from, split_param,
}

-- A letter of the C locale in lower case, and equality up to it.
abbrev pub lower_case : ℕ → ℕ
lower_case c = if leb b'A' c && leb c b'Z' then c + 32 else c

abbrev pub equal_folded : List ℕ → List ℕ → Bool
equal_folded [] [] = true
equal_folded [] (d ∷ ds) = false
equal_folded (c ∷ cs) [] = false
equal_folded (c ∷ cs) (d ∷ ds) = lower_case c == lower_case d && equal_folded cs ds

abbrev pub Without : ℕ → List ℕ → Type 0
Without x [] = Unit {0}
Without x (c ∷ cs) = (c ≢ x) × Without x cs

-- `strcasecmp` on a text that is ended by a 0.
abbrev pub Compares : (Memory → List ℕ → Bool) → Type 0
Compares same =
    (c : Memory) (text name : List ℕ)
    → read_bytes c 0 (length text) ≡ text
    → c (length text) ≡ 0
    → Without 0 text
    → Without 0 name
    → same c name ≡ equal_folded text name

-- The type that a name stands for.
abbrev pub known : List ℕ → Option ℕ
known name =
    if equal_folded name speed
    then some 1
    else if equal_folded name delay
    then some 2
    else if equal_folded name loss
    then some 3
    else if equal_folded name corrupt
    then some 4
    else none

-- What is returned for a name of that type, with the value in `c`.
abbrev pub valued : Option ℕ → Memory → Outcome
valued (some type) c = returned (some type) c
valued none c = unknown

-- The name and its end in the block.
abbrev pub with_name : Memory → List ℕ → Memory
with_name c name = put (write_bytes c 0 name) (length name) 0

module _ (same : Memory → List ℕ → Bool) where
  -- A round that stores the character, and the rest of the loop.
  stored :
      (p : ℕ) (ps : List ℕ) (s : Split)
      → (s.t && p == b'=') ≡ false
      → s.crt < block_len
      → split_from same (p ∷ ps) s
        ≡ split_from same ps (record s { c = put s.c s.crt p; crt = s.crt + 1 })
  unfolding split_from round round_at
  stored p ps s plain inside =
      let room : leb block_len s.crt ≡ false = ground arith in
      let next : Split = record s { c = put s.c s.crt p; crt = s.crt + 1 } in
      let step : round same p s ≡ goes_on next =
        ap (λ full. round_at same full (s.t && p == b'=') p s) room
        ∙ ap (λ ends_name. round_at same false ends_name p s) plain in
      ap (λ (r : Progress). elim r [ goes_on s' ↦ split_from same ps s' | ends o ↦ o ]) step

  -- The value is written from the start of the block on, with no 0 behind it.
  value_copied :
      (value : List ℕ) (s : Split)
      → s.t ≡ false
      → s.crt + length value ≤ block_len
      → split_from same value s ≡ returned s.type (write_bytes s.c s.crt value)
  unfolding split_from write_bytes
  value_copied [] s e fits = refl
  value_copied (p ∷ ps) s e fits =
      stored p ps s (ground arith) (omega arith)
      ∙ value_copied ps (record s { c = put s.c s.crt p; crt = s.crt + 1 }) e (omega arith)

  name_copied :
      (name rest : List ℕ) (s : Split)
      → Without b'=' name
      → s.crt + length name < block_len
      → split_from same (name ++ rest) s
        ≡ split_from same rest
            (record s { c = write_bytes s.c s.crt name; crt = s.crt + length name })
  unfolding write_bytes
  name_copied [] rest s w fits = ap (λ n. split_from same rest (record s { crt = n })) (omega arith)
  name_copied (p ∷ ps) rest s w fits =
      let next : Split = record s { c = put s.c s.crt p; crt = s.crt + 1 } in
      stored p (ps ++ rest) s (ground arith) (omega arith)
      ∙ name_copied ps rest next w.1 (omega arith)
      ∙ ap (λ n. split_from same rest (record next { c = write_bytes next.c next.crt ps; crt = n }))
          (omega arith)

  -- The round for the equals sign behind a name.
  ended :
      (ps : List ℕ) (s : Split)
      → s.t ≡ true
      → s.crt < block_len
      → split_from same (b'=' ∷ ps) s
        ≡ elim (named same s (put s.c s.crt 0) (type_of same (put s.c s.crt 0))) [
          | goes_on s' ↦ split_from same ps s'
          | ends o ↦ o
        ]
  unfolding split_from round round_at
  ended ps s e inside =
      let room : leb block_len s.crt ≡ false = ground arith in
      let first : (s.t && b'=' == b'=') ≡ true = ground arith in
      ap (λ (r : Progress). elim r [ goes_on s' ↦ split_from same ps s' | ends o ↦ o ])
        (ap (λ full. round_at same full (s.t && b'=' == b'=') b'=' s) room
          ∙ ap (λ ends_name. round_at same false ends_name b'=' s) first)

  module _ (compares : Compares same) where
    type_of-known :
        (c : Memory) (name : List ℕ) → Without 0 name → type_of same (with_name c name) ≡ known name
    unfolding type_of
    type_of-known c name w =
        let written : read_bytes (with_name c name) 0 (length name) ≡ name =
          read_bytes-ext (write_bytes c 0 name) (with_name c name) 0 (length name)
            (λ i p q. ground arith)
          ∙ read_bytes-write_bytes c 0 name in
        let compared = λ (text : List ℕ) (z : Without 0 text).
          compares (with_name c name) name text written (ground arith) w z in
        rw
          (
            compared speed (ground arith),
            compared delay (ground arith),
            compared loss (ground arith),
            compared corrupt (ground arith),
          )
          refl

    named-valued :
        (k : Option ℕ) (s : Split) (c : Memory) (value : List ℕ)
        → length value ≤ block_len
        → elim (named same s c k) [ goes_on s' ↦ split_from same value s' | ends o ↦ o ]
          ≡ valued k (write_bytes c 0 value)
    unfolding named
    named-valued none s c value fits = refl
    named-valued (some type) s c value fits =
        value_copied value (record { c = c; crt = 0; t = false; type = some type }) refl
          (omega arith)

    -- For an argument of a name without an equals sign, one, and a value, which both fit: -1 for an
    -- unknown name, and else its type, with the value written over the name from the start of the
    -- block, and without a 0 behind it.
    split_param-known :
        (name value : List ℕ) (type : Option ℕ) (c : Memory)
        → Without 0 name
        → Without b'=' name
        → length name < block_len
        → length value ≤ block_len
        → split_param same (name ++ b'=' ∷ value) type c
          ≡ valued (known name) (write_bytes (with_name c name) 0 value)
    unfolding split_param
    split_param-known name value type c w0 w short fits =
        let begin : Split = record { c = c; crt = 0; t = true; type = type } in
        let after = λ (n : ℕ). record begin { c = write_bytes c 0 name; crt = n } in
        name_copied name (b'=' ∷ value) begin w (omega arith)
        ∙ ap (λ n. split_from same (b'=' ∷ value) (after n)) (omega arith)
        ∙ ended value (after (length name)) refl short
        ∙ ap
            (λ k. elim (named same (after (length name)) (with_name c name) k) [
              | goes_on s' ↦ split_from same value s'
              | ends o ↦ o
            ])
            (type_of-known c name w0)
        ∙ named-valued (known name) (after (length name)) (with_name c name) value fits
