-- ===== src/Tests.antt =====
-- Concrete runs: the theorems applied at inputs where their hypotheses hold.
mod Base
mod Items
mod Trading
mod Groups
mod Login
mod Path
mod Chunks
mod Vendors
mod Missions
