-- ===== src/Http/Text/Decimal.antt =====
-- `%d` prints what a reader of decimal digits reads back.
use protocoale.Base.{
  ℕ, zero, suc, ◌+◌, ◌-◌, ◌*◌, ◌/◌, ◌%◌, ◌≤◌, ◌<◌, ◌≡◌, refl, arith, true, false, List, [], ◌∷◌,
  ◌++◌, ltb, Bool-cases, inl, inr,
}
use protocoale.Base.Int.{pos}
use protocoale.Http.Text.{digits, decimal}

-- The number that decimal digits write, with `n` read before them.
abbrev pub number_of : List ℕ → ℕ → ℕ
number_of [] n = n
number_of (c ∷ cs) n = number_of cs (10 * n + (c - b'0'))

number_of-append :
    (cs : List ℕ) (c n : ℕ) → number_of (cs ++ c ∷ []) n ≡ 10 * number_of cs n + (c - b'0')
number_of-append [] c n = refl
number_of-append (x ∷ cs) c n = number_of-append cs c (10 * n + (x - b'0'))

pub digits_small : (fuel n : ℕ) → ltb n 10 ≡ true → digits (suc fuel) n ≡ (b'0' + n) ∷ []
unfolding digits
digits_small fuel n small = rw (small, digits) refl

pub digits_large :
    (fuel n : ℕ)
    → ltb n 10 ≡ false
    → digits (suc fuel) n ≡ digits fuel (n / 10) ++ (b'0' + n % 10) ∷ []
unfolding digits
digits_large fuel n large = rw (large, digits) refl

pub digits-number_of : (fuel n : ℕ) → n < fuel → number_of (digits fuel n) 0 ≡ n
digits-number_of zero n h = absurd (omega arith)
digits-number_of (suc fuel) n h = elim (Bool-cases (ltb n 10)) [
  | inl small ↦ rw (digits_small fuel n small) (omega arith)
  | inr large ↦
      let ten : 10 ≤ n = ground arith in
      let rest = digits-number_of fuel (n / 10) (omega arith) in
      let last = number_of-append (digits fuel (n / 10)) (b'0' + n % 10) 0 in
      rw (digits_large fuel n large) (omega (arith, last, rest))
]

-- The text that `%d` prints for a number is read back as that number.
decimal-number_of : (n : ℕ) → number_of (decimal (pos n)) 0 ≡ n
unfolding decimal
decimal-number_of n = digits-number_of (n + 1) n (omega arith)
