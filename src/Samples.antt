-- ===== src/Samples.antt =====
-- Tests of the definitions, and each theorem that has hypotheses at an input that meets them.
mod Parsing
mod Requests
mod Rules
mod Limits
mod Forwarding
mod Lookups
mod Configs
mod Tunnels
mod Admission
