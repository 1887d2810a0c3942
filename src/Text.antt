-- ===== src/Text.antt =====
-- C strings of the programs, as their bytes before the terminator: buffers that were zeroed before
-- `recv` filled them, `strcmp`, and `strncmp` with the length of its second argument.
pub mod Prefix
use protocoale.Base.{
  ℕ, ◌-◌, Bool, true, false, ◌&&◌, Option, none, some, List, [], ◌∷◌, ◌++◌, length, take, replicate,
  ltb, ◌==◌, if◌then◌else◌,
}

-- The bytes before the terminator.
abbrev pub text : List ℕ → List ℕ
text [] = []
text (c ∷ cs) = if c == 0 then [] else c ∷ text cs

-- `!strcmp`.
unfoldable pub same_text : List ℕ → List ℕ → Bool
same_text [] [] = true
same_text [] (d ∷ ds) = false
same_text (c ∷ cs) [] = false
same_text (c ∷ cs) (d ∷ ds) = (c == d) && same_text cs ds

-- `!strncmp(s, prefix, strlen(prefix))`.
unfoldable pub starts_with : (s prefix : List ℕ) → Bool
starts_with s [] = true
starts_with [] (d ∷ ds) = false
starts_with (c ∷ cs) (d ∷ ds) = (c == d) && starts_with cs ds

-- A buffer of `capacity` bytes that held zeros, and what `recv` left in it.
abbrev pub zero_filled : (capacity : ℕ) → (received : List ℕ) → List ℕ
zero_filled capacity received =
    let bytes = take capacity received in bytes ++ replicate (capacity - length bytes) 0

-- The string in it; `none` is a read behind the buffer.
unfoldable pub string_in : (capacity : ℕ) → (received : List ℕ) → Option (List ℕ)
string_in capacity received =
    let s = text (take capacity received) in if ltb (length s) capacity then some s else none
