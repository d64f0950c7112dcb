-- ===== src/Platform.antt =====
-- The console of the platform's administrators (app/worker/routes/platform.ts,
-- app/worker/lib/platform.ts).
pub mod Address
pub mod Batches
pub mod Enforcement
pub mod Barred
pub mod Closed
mod Tests
