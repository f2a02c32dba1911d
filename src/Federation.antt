-- ===== src/Federation.antt =====
-- server/internal/federation: lists of domains, limits and signatures.
pub mod Domains
pub mod Security
pub mod Trust
pub mod Persistence
pub mod Limits
pub mod Validity
pub mod Signing
pub mod Authentic
pub mod Payload
pub mod Escape
pub mod Client
pub mod Requests
pub mod Discovery
mod Examples
