-- ===== src/Social.antt =====
-- What players do together.
pub mod Party
pub mod Trade
pub mod Chat
