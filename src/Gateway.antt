-- ===== src/Gateway.antt =====
-- The parts of the gateway, s3gw/.
pub mod Access
pub mod Breaker
pub mod Outcome
pub mod Headers
pub mod Routes
pub mod Copy
pub mod Dispatch
pub mod Delete
pub mod Identity
pub mod KnownHeaders
pub mod PostObject
pub mod Requests
