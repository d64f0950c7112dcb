-- ===== src/Vapi.antt =====
-- app/worker/lib/vapi.ts: what the provider sends, and what a call achieved.
pub mod Json
pub mod Event
pub mod Outcome
pub mod Phone
pub mod Verify
pub mod Control
mod Tests
