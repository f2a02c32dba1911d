-- ===== src/Mesh.antt =====
-- mesh/coordinator/main.go: the coordinator of the WireGuard mesh.
pub mod Nodes
pub mod State
pub mod Handlers
pub mod Config
pub mod Numbers
pub mod Answers
pub mod Access
mod Coding
mod Examples
