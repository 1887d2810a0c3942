-- ===== src/Names/Split/Spaces.antt =====
-- A function that splits at spaces as the server relies on `boost::split` to do.
use native.Mathlib.Decide.{ℕ_discrete}
use protocoale.Base.{ℕ, ◌≡◌, ◌≢◌, refl, arith, true, false, List, [], ◌∷◌, ◌==◌, if◌then◌else◌}
use protocoale.Names.{String}
use protocoale.Names.Split.{Parts, IsSplit}

abbrev to_first : (c : ℕ) → List String → List String
to_first c [] = (c ∷ []) ∷ []
to_first c (word ∷ words) = (c ∷ word) ∷ words

abbrev pub split_at_spaces : String → List String
split_at_spaces [] = [] ∷ []
split_at_spaces (c ∷ cs) =
    let words = split_at_spaces cs in if c == 32 then [] ∷ words else to_first c words

to_first-Parts :
    (c : ℕ) (s : String) (words : List String)
    → c ≢ 32
    → Parts s words
    → Parts (c ∷ s) (to_first c words)
unfolding Parts
to_first-Parts c s [] n h = absurd h
to_first-Parts c s (w ∷ []) n (p, e) = ((n, p), cc e)
to_first-Parts c s (w ∷ v ∷ more) n (p, r, e, h) = ((n, p), r, cc e, h)

next_space : (s : String) (words : List String) → Parts s words → Parts (32 ∷ s) ([] ∷ words)
unfolding Parts
next_space s [] h = absurd h
next_space s (w ∷ more) h = (tt, s, refl, h)

split_at_spaces-Parts : (s : String) → Parts s (split_at_spaces s)
unfolding Parts
split_at_spaces-Parts [] = (tt, refl)
split_at_spaces-Parts (c ∷ cs) = elim (ℕ_discrete c 32) [
  | yes space ↦
      let test : (c == 32) ≡ true = ground arith in
      rw (test, space) (next_space cs (split_at_spaces cs) (split_at_spaces-Parts cs))
  | no letter ↦
      let test : (c == 32) ≡ false = ground arith in
      rw test (to_first-Parts c cs (split_at_spaces cs) letter (split_at_spaces-Parts cs))
]

pub split_at_spaces-IsSplit : IsSplit split_at_spaces
split_at_spaces-IsSplit = record { parts = split_at_spaces-Parts }
