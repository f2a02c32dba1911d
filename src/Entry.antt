-- ===== src/Entry.antt =====
-- The entrance of the server, server/internal/api: who a request is from, and login and logout.
pub mod Middleware
pub mod Requests
pub mod Logins
pub mod Accounts
pub mod Proxied
pub mod LoggedOut
mod Examples
