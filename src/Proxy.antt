-- ===== src/Proxy.antt =====
-- internal/proxy: headers, dialling and the pools of upstream connections.
pub mod Headers
pub mod Dial
pub mod Race
pub mod Request
pub mod Tunnel
pub mod Listener
pub mod Handler
pub mod Pools
