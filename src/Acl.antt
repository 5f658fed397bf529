-- ===== src/Acl.antt =====
-- internal/acl: the per-subnet destination policy.
pub mod Host
pub mod Port
pub mod Wildcard
pub mod Rules
pub mod Public
pub mod Subnets
pub mod Check
