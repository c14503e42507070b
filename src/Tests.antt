-- ===== src/Tests.antt =====
-- The theorems at concrete inputs.
mod Data
mod Policies
mod Globs
mod Authorizations
mod Breakers
mod Crossings
mod Routing
mod Deletions
mod Chunks
mod Signatures
mod Forms
mod Uploads
mod Requests
