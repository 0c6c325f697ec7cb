-- ===== src/Swim.antt =====
-- The gossip membership of internal/swim.
pub mod Types
pub mod Table
pub mod Dissemination
pub mod Duration
pub mod Suspicion
pub mod Examples
