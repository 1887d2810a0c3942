-- ===== src/Http.antt =====
-- The HTTP client of lab10/.
pub mod Buffer
pub mod Receive
pub mod Text
pub mod Send
pub mod Requests
pub mod Tests
