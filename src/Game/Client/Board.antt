-- ===== src/Game/Client/Board.antt =====
-- `verify_finish` answers whether the board has a blank cell.
use native.Mathlib.Decide.{dec_lt}
use protocoale.Base.{
  ap, ◌∙◌, ℕ, zero, suc, ◌+◌, ◌≤◌, ◌<◌, ◌≡◌, ◌↔◌, arith, true, ◌==◌, Bool-cases, inl, inr,
}
use protocoale.Game.Client.{Board, blank, board_size, verify_row, verify_rows, verify_finish}

row_sound :
    (board : Board) (i left j : ℕ)
    → verify_row board i left j ≡ true
    → (c : ℕ) × (c < j + left) × (board i c ≡ blank)
unfolding verify_row
row_sound board i zero j h = cc
row_sound board i (suc left) j h = elim (Bool-cases (board i j == blank)) [
  | inl found ↦ (j, omega arith, ground arith)
  | inr other ↦
      let later : verify_row board i left (j + 1) ≡ true = ground arith in
      let (c, p, q) = row_sound board i left (j + 1) later in (c, omega arith, q)
]

row_complete :
    (board : Board) (i left j c : ℕ)
    → j ≤ c
    → c < j + left
    → board i c ≡ blank
    → verify_row board i left j ≡ true
unfolding verify_row
row_complete board i zero j c p q e = absurd (omega arith)
row_complete board i (suc left) j c p q e = ground (arith, row_complete board i left (j + 1) c)

rows_sound :
    (board : Board) (left i : ℕ)
    → verify_rows board left i ≡ true
    → (r : ℕ) × (c : ℕ) × (r < i + left) × (c < board_size) × (board r c ≡ blank)
unfolding verify_rows
rows_sound board zero i h = cc
rows_sound board (suc left) i h = elim (Bool-cases (verify_row board i board_size 0)) [
  | inl here ↦
      let (c, p, e) = row_sound board i board_size 0 here in (i, c, omega arith, omega arith, e)
  | inr other ↦
      let later : verify_rows board left (i + 1) ≡ true = ground arith in
      let (r, c, p, q, e) = rows_sound board left (i + 1) later in (r, c, omega arith, q, e)
]

rows_complete :
    (board : Board) (left i r c : ℕ)
    → i ≤ r
    → r < i + left
    → c < board_size
    → board r c ≡ blank
    → verify_rows board left i ≡ true
unfolding verify_rows
rows_complete board zero i r c p q s e = absurd (omega arith)
rows_complete board (suc left) i r c p q s e = elim (dec_lt i r) [
  | yes below ↦
      let later = rows_complete board left (i + 1) r c (omega arith) (omega arith) s e in
      ground arith
  | no not_below ↦
      let here : i ≡ r = omega arith in
      let found : verify_row board i board_size 0 ≡ true =
        row_complete board i board_size 0 c (omega arith) (omega arith)
          (ap (λ k. board k c) here ∙ e) in
      ground arith
]

-- `verify_finish` returns 1 if and only if a cell of the board is blank.
pub verify_finish-blank :
    (board : Board)
    → (verify_finish board ≡ true)
      ↔ ((r : ℕ) × (c : ℕ) × (r < board_size) × (c < board_size) × (board r c ≡ blank))
unfolding verify_finish
verify_finish-blank board = (
  λ h. let (r, c, p, q, e) = rows_sound board board_size 0 h in (r, c, omega arith, q, e),
  λ h. rows_complete board board_size 0 h.0 h.1 (omega arith) (omega (arith, h.2)) h.3 h.4,
)
