-- ===== src/Text/Prefix.antt =====
-- Strings without a given byte, equal strings, and the strings that `recv` leaves in a buffer.
use protocoale.Base.{
  ℕ, ◌≡◌, ◌≢◌, ◌<◌, refl, ap, arith, true, List, [], ◌∷◌, ◌++◌, length, take, take_all, some,
  lt→ltb, ◌∙◌,
}
use protocoale.Text.{text, same_text, string_in}

-- None of the bytes is `b`.
abbrev pub Without : (b : ℕ) → List ℕ → Type 0
Without b [] = Unit {0}
Without b (c ∷ cs) = (c ≢ b) × Without b cs

pub Without-append : (b : ℕ) (xs ys : List ℕ) → Without b xs → Without b ys → Without b (xs ++ ys)
Without-append b [] ys p q = q
Without-append b (x ∷ xs) ys p q = (p.0, Without-append b xs ys p.1 q)

pub text-Without : (s : List ℕ) → Without 0 s → text s ≡ s
text-Without [] h = refl
text-Without (c ∷ cs) h = ground (arith, text-Without cs h.1)

-- Text that fits, with its terminator, is what the buffer holds.
pub string_in-Without :
    (capacity : ℕ) (s : List ℕ) → Without 0 s → length s < capacity → string_in capacity s ≡ some s
unfolding string_in
string_in-Without capacity s h fits =
    let e : text (take capacity s) ≡ s =
      ap text (take_all capacity s (omega arith)) ∙ text-Without s h in
    let test = lt→ltb (length s) capacity fits in rw (e, test) refl

pub same_text-equal : (s t : List ℕ) → same_text s t ≡ true → s ≡ t
unfolding same_text
same_text-equal [] [] h = refl
same_text-equal [] (d ∷ ds) h = ground arith
same_text-equal (c ∷ cs) [] h = ground arith
same_text-equal (c ∷ cs) (d ∷ ds) h = ground (arith, same_text-equal cs ds)

-- Two splits of a string at its first `b`.
pub append-cut :
    (b : ℕ) (v w s t : List ℕ)
    → Without b v
    → Without b w
    → v ++ b ∷ s ≡ w ++ b ∷ t
    → (v ≡ w) × (s ≡ t)
append-cut b [] [] s t p q e = (refl, cc)
append-cut b [] (y ∷ w) s t p q e = absurd (q.0 cc)
append-cut b (x ∷ v) [] s t p q e = absurd (p.0 cc)
append-cut b (x ∷ v) (y ∷ w) s t p q e =
    let (same, behind) = append-cut b v w s t p.1 q.1 cc in (cc same, behind)
