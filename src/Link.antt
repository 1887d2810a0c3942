-- ===== src/Link.antt =====
-- The link emulator of 3lab/.
pub mod Queue
pub mod Threads
pub mod Params
pub mod Reverse
pub mod Tests
