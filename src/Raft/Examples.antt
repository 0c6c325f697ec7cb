-- ===== src/Raft/Examples.antt =====
-- The theorems of the Raft modules, applied to concrete logs and cores of internal/raft.
mod Logs
mod Cores
mod Codec
