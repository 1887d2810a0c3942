-- ===== src/Http/Text.antt =====
-- C strings in blocks of fixed size, as lab10/helpers.c and lab10/requests.c build them. A string is
-- its bytes before the terminator.
pub mod Decimal
pub mod Strcat
use protocoale.Base.{
  ℕ, zero, suc, ◌+◌, ◌/◌, ◌%◌, Bool, true, false, Option, none, some, List, [], ◌∷◌, ◌++◌, length,
  ltb, if◌then◌else◌,
}
use protocoale.Base.Int.{ℤ, pos, negsuc}

-- What follows an access outside a block, `none`, is not run.
infixl 5 ◌>>=◌
abbrev pub ◌>>=◌ {ℓ κ} : {A : Type ℓ} {B : Type κ} → Option A → (A → Option B) → Option B
none >>= f = none
some a >>= f = f a

abbrev pub buflen : ℕ
buflen = 4096

abbrev pub linelen : ℕ
linelen = 1000

abbrev pub crlf : List ℕ
crlf = 13 ∷ 10 ∷ []

-- `strcat` onto a string in a block of `capacity` bytes; `none` is a write behind the block.
unfoldable pub strcat : (capacity : ℕ) → List ℕ → List ℕ → Option (List ℕ)
strcat capacity s xs = if ltb (length s + length xs) capacity then some (s ++ xs) else none

-- `sprintf` of this text into `line`.
unfoldable pub print_line : List ℕ → Option (List ℕ)
print_line xs = if ltb (length xs) linelen then some xs else none

unfoldable pub compute_message : (message line : List ℕ) → Option (List ℕ)
compute_message message line = do added ← strcat buflen message line; strcat buflen added crlf

-- The digits of a number, on fuel. `n + 1` rounds are enough.
unfoldable pub digits : (fuel n : ℕ) → List ℕ
digits zero n = []
digits (suc fuel) n = elim (ltb n 10) [
  | true ↦ (b'0' + n) ∷ []
  | false ↦ digits fuel (n / 10) ++ (b'0' + n % 10) ∷ []
]

-- `%d`.
unfoldable pub decimal : ℤ → List ℕ
decimal (pos n) = digits (n + 1) n
decimal (negsuc n) = b'-' ∷ digits (n + 2) (n + 1)
