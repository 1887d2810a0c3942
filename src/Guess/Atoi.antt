-- ===== src/Guess/Atoi.antt =====
-- `atoi`, and its reading of what `%d` prints of an `int`.
use protocoale.Base.{
  ℕ, zero, suc, ◌+◌, ◌-◌, ◌*◌, ◌/◌, ◌%◌, ◌^◌, ◌<◌, ◌≡◌, ◌∙◌, refl, ap, arith, Bool, true, false,
  ◌&&◌, length, length-append, [], ◌∷◌, ◌++◌, ltb, leb, ◌==◌, if◌then◌else◌, Bool-cases, inl, inr,
}
use protocoale.Base.Int.{ℤ, pos, negsuc, narrowed, IsInt, narrowed-IsInt}
use protocoale.Text.Prefix.{Without}
use protocoale.Http.Text.{digits, decimal}
use protocoale.Http.Text.Decimal.{number_of, digits-number_of, digits_small, digits_large}
use protocoale.Hangman.Scan.{String, skip_spaces}

abbrev pub is_digit : ℕ → Bool
is_digit c = leb b'0' c && leb c b'9'

-- The number that the digits at the start write, with `n` read before them.
unfoldable pub digits_from : (n : ℕ) → String → ℕ
digits_from n [] = n
digits_from n (c ∷ cs) = if is_digit c then digits_from (10 * n + (c - b'0')) cs else n

abbrev pub negated : ℕ → ℤ
negated zero = pos 0
negated (suc n) = negsuc n

abbrev pub signed : String → ℤ
signed [] = pos 0
signed (c ∷ cs) =
    if c == b'-'
    then negated (digits_from 0 cs)
    else if c == b'+'
    then pos (digits_from 0 cs)
    else pos (digits_from 0 (c ∷ cs))

-- A `long` is as near to the number as 64 bits allow.
abbrev pub saturated : ℤ → ℤ
saturated (pos n) = pos (if ltb n (2 ^ 63) then n else 2 ^ 63 - 1)
saturated (negsuc n) = negsuc (if ltb n (2 ^ 63) then n else 2 ^ 63 - 1)

-- `(int) strtol(s, NULL, 10)`.
unfoldable pub atoi : String → ℤ
atoi s = narrowed (saturated (signed (skip_spaces s)))

saturated-IsInt : (z : ℤ) → IsInt z → narrowed (saturated z) ≡ z
saturated-IsInt z h = ap narrowed (in_range z h) ∙ narrowed-IsInt z h
  where
    in_range : (z : ℤ) → IsInt z → saturated z ≡ z
    in_range (pos n) h = ground arith
    in_range (negsuc n) h = ground arith

abbrev AllDigits : String → Type 0
AllDigits [] = Unit {0}
AllDigits (c ∷ cs) = (is_digit c ≡ true) × AllDigits cs

AllDigits-append : (cs ds : String) → AllDigits cs → AllDigits ds → AllDigits (cs ++ ds)
AllDigits-append [] ds p q = q
AllDigits-append (c ∷ cs) ds (d, p) q = (d, AllDigits-append cs ds p q)

digits-AllDigits : (fuel n : ℕ) → AllDigits (digits fuel n)
unfolding digits
digits-AllDigits zero n = tt
digits-AllDigits (suc fuel) n = elim (Bool-cases (ltb n 10)) [
  | inl small ↦ rw (digits_small fuel n small) (ground arith)
  | inr large ↦
      rw (digits_large fuel n large)
        (AllDigits-append (digits fuel (n / 10)) _ (digits-AllDigits fuel (n / 10)) (ground arith))
]

digits_from-number_of : (cs : String) (n : ℕ) → AllDigits cs → digits_from n cs ≡ number_of cs n
unfolding digits_from
digits_from-number_of [] n h = refl
digits_from-number_of (c ∷ cs) n (d, h) = rw d (digits_from-number_of cs _ h)

digits_from-digits : (fuel n : ℕ) → n < fuel → digits_from 0 (digits fuel n) ≡ n
digits_from-digits fuel n h =
    digits_from-number_of (digits fuel n) 0 (digits-AllDigits fuel n) ∙ digits-number_of fuel n h

-- A text of digits begins with neither white space nor a sign.
signed-AllDigits : (cs : String) → AllDigits cs → signed (skip_spaces cs) ≡ pos (digits_from 0 cs)
unfolding skip_spaces digits_from
signed-AllDigits [] h = refl
signed-AllDigits (c ∷ cs) (d, h) = ground (arith, d)

signed-decimal : (z : ℤ) → signed (skip_spaces (decimal z)) ≡ z
unfolding decimal skip_spaces digits_from
signed-decimal (pos n) =
    signed-AllDigits (digits (n + 1) n) (digits-AllDigits (n + 1) n)
    ∙ ap pos (digits_from-digits (n + 1) n (omega arith))
signed-decimal (negsuc n) = ap negated (digits_from-digits (n + 2) (n + 1) (omega arith) ∙ one_more)
  where
    one_more : n + 1 ≡ suc n
    one_more = omega arith

pub atoi-decimal : (z : ℤ) → IsInt z → atoi (decimal z) ≡ z
unfolding atoi
atoi-decimal z h = ap (λ n. narrowed (saturated n)) (signed-decimal z) ∙ saturated-IsInt z h

AllDigits-Without : (b : ℕ) (cs : String) → is_digit b ≡ false → AllDigits cs → Without b cs
AllDigits-Without b [] h p = tt
AllDigits-Without b (c ∷ cs) h (d, p) = (λ e. ground (arith, d, h, e), AllDigits-Without b cs h p)

pub decimal-Without :
    (b : ℕ) (z : ℤ) → is_digit b ≡ false → (b == b'-') ≡ false → Without b (decimal z)
unfolding decimal
decimal-Without b (pos n) h m = AllDigits-Without b _ h (digits-AllDigits (n + 1) n)
decimal-Without b (negsuc n) h m =
    (ground (arith, m), AllDigits-Without b _ h (digits-AllDigits (n + 2) (n + 1)))

digits-positive : (fuel n : ℕ) → 0 < length (digits (suc fuel) n)
digits-positive fuel n = elim (Bool-cases (ltb n 10)) [
  | inl small ↦ rw (digits_small fuel n small) (omega arith)
  | inr large ↦
      rw (digits_large fuel n large)
        (omega (arith, length-append (digits fuel (n / 10)) ((b'0' + n % 10) ∷ [])))
]

-- `%d` prints something.
pub decimal-positive : (z : ℤ) → 0 < length (decimal z)
unfolding decimal
decimal-positive (pos n) = let e : n + 1 ≡ suc n = omega arith in rw e (digits-positive n n)
decimal-positive (negsuc n) = omega arith
