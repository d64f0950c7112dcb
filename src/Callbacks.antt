-- ===== src/Callbacks.antt =====
-- The call-back worker, demo/heartbeat/src/callbacks.ts: the requests of the website's visitors and
-- the calls that return them.
pub mod World
pub mod Execution
mod Tests
pub mod Keeps
pub mod Moves
pub mod Clean
pub mod Number
pub mod Outcome
pub mod Letters
pub mod FollowUp
pub mod Start
pub mod Run
