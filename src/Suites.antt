-- ===== src/Suites.antt =====
-- The suites of runtime-tests/near: scenes of a deployed contract, played through the client.
pub mod Play
pub mod Bytes
pub mod Exact
pub mod Steps
pub mod Contract
pub mod Matrix
pub mod Scene
pub mod Ledger
pub mod Receipts
pub mod Token
pub mod Registration
pub mod JsonAmount
pub mod JsonMemo
pub mod JsonMessage
pub mod JsonWithdraw
pub mod JsonDeposit
pub mod JsonAccount
pub mod JsonUnregister
pub mod JsonObject
pub mod JsonResolve
pub mod JsonOnTransfer
pub mod JsonTransfer
pub mod JsonTransferCall
pub mod Vector
pub mod Queue
pub mod Iterable
pub mod TreeMap
pub mod Lazy
pub mod JsonI64
pub mod Counter
pub mod Lookup
pub mod TokenStorage
pub mod TokenArithmetic
pub mod BooleanMutation
pub mod Tests
