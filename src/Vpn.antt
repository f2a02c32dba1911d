-- ===== src/Vpn.antt =====
-- server/internal/vpn: the configurations that users get for WireGuard, OpenVPN and Xray, and the nodes.
pub mod Tables
pub mod Endpoints
pub mod Nodes
pub mod Configs
pub mod Xray
pub mod Addresses
pub mod Rows
pub mod Wireguard
pub mod Pool
pub mod Limits
mod Examples
pub mod Retry
