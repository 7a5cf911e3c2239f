-- ===== src/Observation.antt =====
-- runtime-tests/near/observation_v1.py: the adapter from a view response to an observation, and the
-- check of a nullary UInt64 view.
pub mod Error
pub mod Adapter
pub mod Check
pub mod Tests
