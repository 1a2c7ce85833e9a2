-- ===== src/Observation/Rpc.antt =====
-- The observation RPC of one socket: `ObservationRpc` of runtime/observation/rpc.ts, from the
-- decoded envelope on. The work on a message is cut in two: it begins with the test of `closed`,
-- and finishes with what its `await`s gave. `queue` is the chain of promises behind `tail`.
pub mod Answer
pub mod Post
pub mod Socket
