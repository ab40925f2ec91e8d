-- ===== src/Shard.antt =====
-- src/state/shard.rs and src/bin/shard: the state of a shard server and the handlers that change it.
pub mod State
pub mod Post
pub mod Trading
pub mod Groups
pub mod Shopper
pub mod Items
pub mod Vendors
