-- ===== src/Sigv4.antt =====
-- The package sigv4: signatures of requests, of forms and of the chunks of a body.
pub mod Crypto
pub mod Chunked
pub mod Http
pub mod Canonical
pub mod Signer
pub mod Requests
pub mod Verify
pub mod Presigned
pub mod PostPolicy
