-- ===== src/Game.antt =====
-- The tic-tac-toe game of training/x_si_0/.
pub mod Client
pub mod Server
pub mod Play
pub mod Tests
