-- ===== src/Game/Play/Draw.antt =====
-- The move that fills the board is not sent.
use protocoale.Base.{ℕ, ◌-◌, ◌<◌, ◌≡◌, ◌≢◌, refl, sym, ap, ◌∙◌, subst, true, false, List}
use protocoale.Game.Client.{
  Client, Board, blank, board_size, verify_finish, byte, draw, on_keyboard,
}
use protocoale.Game.Client.Board.{verify_finish-blank}
use protocoale.Game.Client.Moves.{KeyOf, on_keyboard-KeyOf}
use protocoale.Game.Play.{Game, x_types, over, typed, play}
use protocoale.Game.Play.Turns.{MyTurn}

-- No cell of the board is blank.
abbrev pub IsFull : Board → Type 0
IsFull board = (r c : ℕ) → r < board_size → c < board_size → board r c ≢ blank

full : (board : Board) → verify_finish board ≡ false → IsFull board
full board e r c p q b =
    let some_blank : verify_finish board ≡ true = (verify_finish-blank board).1 (r, c, p, q, b) in
    cc

-- When a move of x fills the board, x leaves the game and sends nothing: the cell of that move stays
-- blank on the board of o.
draw_unsent :
    (g : Game) (buffer : List ℕ) (c : Client)
    → MyTurn g.x_player g.o_player
    → on_keyboard g.x_player buffer ≡ draw c
    → (play (x_types buffer) g ≡ over)
      × IsFull c.board
      × (g.o_player.board (byte buffer 0 - b'0') (byte buffer 2 - b'0') ≡ blank)
unfolding play typed
draw_unsent g buffer c t e =
    let (moved, none_left) =
      subst (KeyOf g.x_player buffer) e (on_keyboard-KeyOf g.x_player buffer) in
    (
      rw e refl,
      full c.board none_left,
      ap (λ b. b (byte buffer 0 - b'0') (byte buffer 2 - b'0')) (sym t.same_board)
          ∙ moved.was_blank,
    )
