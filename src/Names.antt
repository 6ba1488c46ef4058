-- ===== src/Names.antt =====
-- The names of the players online: the tree behind the search by a name's beginning.
pub mod WildcardTree
