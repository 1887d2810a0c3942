-- ===== src/Link/Params.antt =====
-- `split_param` of 3lab/link_emulator/link.c: an argument `name=value` of the link emulator.
-- `strcasecmp` and `atof` are calls of the C library: the first is a parameter, and the result is the
-- block that the second is called with.
pub mod Named
use protocoale.Base.{
  ℕ, zero, suc, ◌+◌, ◌≡◌, Bool, true, false, Option, none, some, List, [], ◌∷◌, length, ltb, leb,
  ◌==◌, ◌&&◌, if◌then◌else◌,
}
use protocoale.Bytes.{Memory}

-- `char c[100]`.
abbrev pub block_len : ℕ
block_len = 100

-- `c`, `crt` and `t`, and what was written to `*type`.
pub record Split : Type 0 where
  pub c : Memory
  pub crt : ℕ
  pub t : Bool
  pub type : Option ℕ

-- 0 with `*type` and the block of the value; -1; or a write behind the block.
pub data Outcome : Type 0 where
  returned : Option ℕ → Memory → Outcome
  unknown : Outcome
  overflow : Outcome

pub data Progress : Type 0 where
  goes_on : Split → Progress
  ends : Outcome → Progress

abbrev pub speed : List ℕ
speed = b's' ∷ b'p' ∷ b'e' ∷ b'e' ∷ b'd' ∷ []

abbrev pub delay : List ℕ
delay = b'd' ∷ b'e' ∷ b'l' ∷ b'a' ∷ b'y' ∷ []

abbrev pub loss : List ℕ
loss = b'l' ∷ b'o' ∷ b's' ∷ b's' ∷ []

abbrev pub corrupt : List ℕ
corrupt = b'c' ∷ b'o' ∷ b'r' ∷ b'r' ∷ b'u' ∷ b'p' ∷ b't' ∷ []

-- `c[at] = v`.
abbrev pub put : Memory → (at v : ℕ) → Memory
put c at v i = if i == at then v else c i

-- `same c text` is `!strcasecmp(c, text)`.
module _ (same : Memory → List ℕ → Bool) where
  -- SPEED, DELAY, LOSS and CORRUPT.
  unfoldable pub type_of : Memory → Option ℕ
  type_of c =
      if same c speed
      then some 1
      else if same c delay
      then some 2
      else if same c loss
      then some 3
      else if same c corrupt
      then some 4
      else none

  unfoldable pub named : Split → Memory → Option ℕ → Progress
  named s c (some type) = goes_on (record { c = c; crt = 0; t = false; type = some type })
  named s c none = ends unknown

  -- `full` is a write behind the block, `ends_name` the test for the first equals sign.
  unfoldable pub round_at : (full ends_name : Bool) → (p : ℕ) → Split → Progress
  unfolding type_of named
  round_at true ends_name p s = ends overflow
  round_at false true p s = let ended = put s.c s.crt 0 in named s ended (type_of ended)
  round_at false false p s = goes_on (record s { c = put s.c s.crt p; crt = s.crt + 1 })

  -- A round of the loop for the character `p`.
  unfoldable pub round : (p : ℕ) → Split → Progress
  unfolding round_at
  round p s = round_at (leb block_len s.crt) (s.t && p == b'=') p s

  unfoldable pub split_from : List ℕ → Split → Outcome
  unfolding round
  split_from [] s = returned s.type s.c
  split_from (p ∷ ps) s = elim (round p s) [ goes_on s' ↦ split_from ps s' | ends o ↦ o ]

  -- `type` and `c` are what stood there before.
  unfoldable pub split_param : List ℕ → (type : Option ℕ) → (c : Memory) → Outcome
  unfolding split_from
  split_param p type c = split_from p (record { c = c; crt = 0; t = true; type = type })
