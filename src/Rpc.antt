-- ===== src/Rpc.antt =====
-- runtime-tests/near/near_rpc.py: the wire helpers, the transactions and the client.
pub mod Exc
pub mod Wire
pub mod Dynamic
pub mod Exec
pub mod Transaction
pub mod Env
pub mod Query
pub mod BlockTime
pub mod Send
pub mod View
pub mod Tests
