-- ===== src/Swim/Examples.antt =====
-- The theorems of the Swim modules, applied to concrete tables and queues of internal/swim.
mod Tables
mod Queues
mod Engines
