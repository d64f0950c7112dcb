-- ===== src/Calls.antt =====
-- calls
pub mod Status
pub mod Transcript
pub mod Upsert
pub mod Finalize
pub mod Advance
pub mod Routes
pub mod Takeover
pub mod Listing
mod Tests
