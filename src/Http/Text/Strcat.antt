-- ===== src/Http/Text/Strcat.antt =====
-- Both outcomes of `strcat` onto a string in a block.
use protocoale.Base.{
  ℕ, ◌+◌, ◌≤◌, ◌<◌, ◌≡◌, refl, arith, none, some, List, ◌++◌, length, ltb, true, false,
}
use protocoale.Http.Text.{strcat}

pub strcat_fits :
    (capacity : ℕ) (s xs : List ℕ)
    → length s + length xs < capacity
    → strcat capacity s xs ≡ some (s ++ xs)
unfolding strcat
strcat_fits capacity s xs h =
    let fits : ltb (length s + length xs) capacity ≡ true = ground arith in rw fits refl

pub strcat_full :
    (capacity : ℕ) (s xs : List ℕ) → capacity ≤ length s + length xs → strcat capacity s xs ≡ none
unfolding strcat
strcat_full capacity s xs h =
    let full : ltb (length s + length xs) capacity ≡ false = ground arith in rw full refl
