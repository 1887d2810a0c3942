-- ===== src/Game/Play/Turns.antt =====
-- The players take turns, and their boards agree.
use protocoale.Base.{ℕ, ◌-◌, ◌≡◌, refl, sym, ap, ◌∙◌, subst, true, false, List}
use protocoale.Game.Client.{
  Client, blank, place, byte, is_index, Key, ignored, exits, draw, sends, on_keyboard, plays,
  other_symbol, on_message,
}
use protocoale.Game.Client.Moves.{KeyOf, on_keyboard-KeyOf}
use protocoale.Text.Prefix.{Without, text-Without}

-- The players have the two symbols, and are in the game.
pub record Opponents (me you : Client) : Type 0 where
  pub mine : you.symbol ≡ other_symbol me.symbol
  pub yours : me.symbol ≡ other_symbol you.symbol
  pub in_game : me.in_game ≡ true
  pub also_in_game : you.in_game ≡ true

-- It is my turn, and the boards are the same.
pub record MyTurn (me you : Client) : Type 0 where
  pub opponents : Opponents me you
  pub turn : me.turn ≡ true
  pub waits : you.turn ≡ false
  pub same_board : me.board ≡ you.board

-- My move is on its way; with it the boards are the same. It is on the board, on a blank cell.
pub record Flying (me you : Client) (message : List ℕ) : Type 0 where
  pub opponents : Opponents me you
  pub moved : me.turn ≡ false
  pub waits : you.turn ≡ false
  pub row : is_index (byte message 0) ≡ true
  pub column : is_index (byte message 2) ≡ true
  pub was_blank : you.board (byte message 0 - b'0') (byte message 2 - b'0') ≡ blank
  pub same_board :
      me.board ≡ place you.board (byte message 0 - b'0') (byte message 2 - b'0') me.symbol

Opponents-sym : (me you : Client) → Opponents me you → Opponents you me
Opponents-sym me you p = record {
  mine = p.yours;
  yours = p.mine;
  in_game = p.also_in_game;
  also_in_game = p.in_game;
}

-- What my keyboard leads to in my turn.
abbrev Pressed : Client → Client → Key → Type 0
Pressed me you (sends c message) = Flying c you message
Pressed me you key = Unit {0}

pressed :
    (me you : Client) (buffer : List ℕ) (key : Key)
    → Without 0 buffer
    → MyTurn me you
    → KeyOf me buffer key
    → Pressed me you key
pressed me you buffer ignored n t k = tt
pressed me you buffer exits n t k = tt
pressed me you buffer (draw c) n t k = tt
pressed me you buffer (sends c message) n t (m, off, e, _) =
    let whole : message ≡ buffer = e ∙ text-Without buffer n in
    rw whole (record {
      opponents = record {
        mine = t.opponents.mine ∙ ap other_symbol (sym m.same_symbol);
        yours = m.same_symbol ∙ t.opponents.yours;
        in_game = m.still_in_game;
        also_in_game = t.opponents.also_in_game;
      };
      moved = off;
      waits = t.waits;
      row = m.row;
      column = m.column;
      was_blank =
          ap (λ b. b (byte buffer 0 - b'0') (byte buffer 2 - b'0')) (sym t.same_board)
          ∙ m.was_blank;
      same_board =
          m.placed
          ∙ ap (λ b. place b (byte buffer 0 - b'0') (byte buffer 2 - b'0') me.symbol) t.same_board
          ∙ ap (place you.board (byte buffer 0 - b'0') (byte buffer 2 - b'0')) (sym m.same_symbol);
    })

-- Out of turn nothing is sent.
abbrev Quiet : Key → Type 0
Quiet (sends c message) = ⊥
Quiet key = Unit {0}

quiet : (c : Client) (buffer : List ℕ) (key : Key) → c.turn ≡ false → KeyOf c buffer key → Quiet key
quiet c buffer ignored e k = tt
quiet c buffer exits e k = tt
quiet c buffer (draw c') e k = tt
quiet c buffer (sends c' message) e (m, _, _, _) = let on : c.turn ≡ true = m.turn in cc

-- You, after a message in the game.
abbrev moved_on : Client → List ℕ → Client
moved_on you message = record you {
  turn = true;
  board = place you.board (byte message 0 - b'0') (byte message 2 - b'0') (other_symbol you.symbol);
}

Opponents-moved_on :
    (me you : Client) (message : List ℕ) → Opponents me you → Opponents me (moved_on you message)
Opponents-moved_on me you message p = record {
  mine = p.mine;
  yours = p.yours;
  in_game = p.in_game;
  also_in_game = p.also_in_game;
}

-- The move that arrives is within the board, and gives me the turn on the same board.
pub delivered :
    (me you : Client) (message : List ℕ)
    → Flying me you message
    → (you' : Client) × (on_message you true message ≡ plays you') × MyTurn you' me
unfolding on_message
delivered me you message f = (
  moved_on you message,
  rw (f.opponents.also_in_game, f.row, f.column) refl,
  record {
    opponents =
        Opponents-sym me (moved_on you message) (Opponents-moved_on me you message f.opponents);
    turn = refl;
    waits = f.moved;
    same_board =
        ap (place you.board (byte message 0 - b'0') (byte message 2 - b'0')) (sym f.opponents.yours)
        ∙ sym f.same_board;
  },
)

-- A line typed in my turn.
pub flies :
    (me you : Client) (buffer : List ℕ) (c : Client) (message : List ℕ)
    → Without 0 buffer
    → MyTurn me you
    → on_keyboard me buffer ≡ sends c message
    → Flying c you message
flies me you buffer c message n t e =
    subst (Pressed me you) e
      (pressed me you buffer (on_keyboard me buffer) n t (on_keyboard-KeyOf me buffer))

-- A line typed out of turn.
pub nothing_sent :
    (me : Client) (buffer : List ℕ) (c : Client) (message : List ℕ)
    → me.turn ≡ false
    → on_keyboard me buffer ≡ sends c message
    → ⊥
nothing_sent me buffer c message off e =
    subst Quiet e (quiet me buffer (on_keyboard me buffer) off (on_keyboard-KeyOf me buffer))
