-- ===== src/Host.antt =====
-- What a Soroban contract has from its host: the environment of a call, calls that can fail, and
-- checked arithmetic (the workspace's Cargo.toml sets `overflow-checks = true` for release builds).
pub mod Call
pub mod Num
pub mod Tokens
