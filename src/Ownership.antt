-- ===== src/Ownership.antt =====
-- scripts/check_ownership.py: which files may import what.
pub mod Patterns
pub mod Check
pub mod Nothing
pub mod Gate
pub mod Places
pub mod Owned
pub mod Lines
pub mod Tests
