-- ===== src/Names/Split.antt =====
-- What the server relies on `boost::split` at spaces for: the words are the parts between the spaces.
pub mod Spaces
use protocoale.Base.{◌≡◌, ◌≢◌, refl, sym, subst, List, [], ◌∷◌, ◌++◌, none, some}
use protocoale.Text.Prefix.{Without, append-cut}
use protocoale.Names.{String, tokenize}

-- These are the parts of `s`, with one space between two of them.
unfoldable pub Parts : (s : String) → List String → Type 0
Parts s [] = ⊥
Parts s (word ∷ []) = Without 32 word × (s ≡ word)
Parts s (word ∷ next ∷ more) =
    Without 32 word × (rest : String) × (s ≡ word ++ 32 ∷ rest) × Parts rest (next ∷ more)

pub record IsSplit (split : String → List String) : Type 0 where
  pub parts : (s : String) → Parts s (split s)

no_space : (word rest v : String) → Without 32 v → v ≢ word ++ 32 ∷ rest
no_space [] rest [] h e = cc
no_space [] rest (c ∷ v) h e = h.0 cc
no_space (d ∷ word) rest [] h e = cc
no_space (d ∷ word) rest (c ∷ v) h e = no_space word rest v h.1 cc

-- The first of several parts, by the first space.
pub Parts-first :
    (word rest : String) (words : List String)
    → Without 32 word
    → Parts (word ++ 32 ∷ rest) words
    → (more : List String) × (words ≡ word ∷ more) × Parts rest more
unfolding Parts
Parts-first word rest [] p h = absurd h
Parts-first word rest (w ∷ []) p (q, e) = absurd (no_space word rest w q (sym e))
Parts-first word rest (w ∷ v ∷ more) p (q, r, e, h) =
    let (same, behind) = append-cut 32 word w rest r p q e in
    (v ∷ more, cc same, subst (λ t. Parts t (v ∷ more)) (sym behind) h)

-- A text without a space has one part.
pub Parts-only :
    (word : String) (words : List String) → Without 32 word → Parts word words → words ≡ word ∷ []
unfolding Parts
Parts-only word [] p h = absurd h
Parts-only word (w ∷ []) p (q, e) = cc e
Parts-only word (w ∷ v ∷ more) p (q, r, e, h) = absurd (no_space w r word p e)

module _ (split : String → List String) (law : IsSplit split) where
  pub split-two :
      (command s1 : String)
      → Without 32 command
      → Without 32 s1
      → tokenize (split (command ++ 32 ∷ s1)) ≡ some (s1, [])
  unfolding tokenize
  split-two command s1 p q =
      let (more, e, h) = Parts-first command s1 _ p (law.parts (command ++ 32 ∷ s1)) in
      let last = Parts-only s1 more q h in rw (e, last) refl

  pub split-three :
      (command s1 s2 : String)
      → Without 32 command
      → Without 32 s1
      → Without 32 s2
      → tokenize (split (command ++ 32 ∷ (s1 ++ 32 ∷ s2))) ≡ some (s1, s2)
  unfolding tokenize
  split-three command s1 s2 p q r =
      let (more, e, h) = Parts-first command (s1 ++ 32 ∷ s2) _ p (law.parts _) in
      let (last, d, g) = Parts-first s1 s2 more q h in
      let only = Parts-only s2 last r g in rw (e, d, only) refl

  pub split-one : (s : String) → Without 32 s → tokenize (split s) ≡ none
  unfolding tokenize
  split-one s p = let only = Parts-only s _ p (law.parts s) in rw only refl
