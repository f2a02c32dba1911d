-- ===== src/Auth.antt =====
-- server/internal/auth/auth.go: accounts, devices, tokens, key backups and proxy sessions.
pub mod Tables
pub mod Tokens
pub mod Accounts
pub mod Login
pub mod Devices
pub mod Proxy
pub mod Calls
pub mod Frame
pub mod Revoked
pub mod Standing
pub mod Kinds
pub mod DeviceNames
pub mod Names
pub mod Backups
pub mod Sessions
pub mod Setting
mod Examples
