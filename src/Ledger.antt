-- ===== src/Ledger.antt =====
-- src/ledger.c: the share window, the split of a block's value, the replay guard, the books of what
-- is owed for finds, and the saved sessions.
pub mod Types
pub mod Window
pub mod Split
pub mod Empty
pub mod Replay
pub mod Owed
pub mod Pool
pub mod Resume
