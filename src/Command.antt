-- ===== src/Command.antt =====
-- cmd/shadow-gre: the flags, and the key that a password gives.
pub mod Xor
pub mod Key
pub mod Flags
pub mod Modes
