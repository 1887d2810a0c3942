-- ===== src/Game/Client/Moves.antt =====
-- What the branches of the client do.
use protocoale.Base.{ℕ, ◌-◌, ◌≡◌, arith, true, false, List}
use protocoale.Text.{text}
use protocoale.Game.Client.{
  Client, blank, verify_finish, place, byte, is_index, Key, ignored, exits, draw, sends, moved,
  on_keyboard,
}

-- `c` has played the valid move in `buffer`, on a blank cell, in its turn.
pub record Moved (c : Client) (buffer : List ℕ) (c' : Client) : Type 0 where
  pub in_game : c.in_game ≡ true
  pub turn : c.turn ≡ true
  pub row : is_index (byte buffer 0) ≡ true
  pub column : is_index (byte buffer 2) ≡ true
  pub was_blank : c.board (byte buffer 0 - b'0') (byte buffer 2 - b'0') ≡ blank
  pub placed : c'.board ≡ place c.board (byte buffer 0 - b'0') (byte buffer 2 - b'0') c.symbol
  pub same_symbol : c'.symbol ≡ c.symbol
  pub still_in_game : c'.in_game ≡ true

-- What each outcome of a line means.
abbrev pub KeyOf : Client → List ℕ → Key → Type 0
KeyOf c buffer ignored = Unit {0}
KeyOf c buffer exits = Unit {0}
KeyOf c buffer (draw c') = Moved c buffer c' × (verify_finish c'.board ≡ false)
KeyOf c buffer (sends c' message) =
    Moved c buffer c'
    × (c'.turn ≡ false)
    × (message ≡ text buffer)
    × (verify_finish c'.board ≡ true)

pub on_keyboard-KeyOf : (c : Client) (buffer : List ℕ) → KeyOf c buffer (on_keyboard c buffer)
unfolding on_keyboard moved
on_keyboard-KeyOf c buffer = ground arith
