-- ===== src/Login.antt =====
-- The way into the game: the queue of players that wait for a free place.
pub mod WaitList
