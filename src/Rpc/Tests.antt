-- ===== src/Rpc/Tests.antt =====
-- near_rpc.py at concrete values, with a node of one account.
pub mod Words
pub mod Node
