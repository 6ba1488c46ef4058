-- ===== src/Combat.antt =====
-- The server's combat.
pub mod Area
