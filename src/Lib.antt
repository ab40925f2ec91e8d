-- ===== src/Lib.antt =====
-- RustyFusion: a model of the game server's own logic, and what holds of it.
--
-- The program is a login server and shard servers over a shared library. A client's packets reach a
-- handler (src/bin/shard), which changes the shard's state (src/state/shard.rs): players with their
-- inventories (src/entity/player.rs, src/item.rs), ongoing trades (src/trade.rs) and more. Packets
-- are encrypted (src/net/crypto.rs); flags are kept in bit fields (src/util.rs); errors carry a
-- severity and may disconnect the client (src/error.rs).
--
-- Error: src/error.rs. `Outcome` is `FFResult` with a third outcome, `panics`, for code that unwraps
--   nothing, indexes out of range or calls `panic_log`. Messages are their fixed text.
-- Net.Crypto: src/net/crypto.rs, `xor`, `byte_swap`, `decrypt_payload`, `encrypt_payload`. The loop of
--   `byte_swap` runs on fuel of the size plus one, which is enough since every round advances by
--   er_size, a positive number; fuel that runs out is `panics`, and the theorems show that it does not.
-- Util: src/util.rs. Bytes is the trait `AsBytes`, Bitfield the type of that name over a chunk of `size`
--   bytes, Time the instants, Clamp the clamps. Words are the language's conversions of signed words.
-- Item: src/item.rs, with Item.Kind for the enumerations of src/enums.rs.
-- Entity: Entity.Id has `EntityID` and `InstanceID`, Entity.Player the player, with Inventory for the slots
--   and quest items and Stats for the capped numbers.
--   Group is `Group` with its bounds, Npc the part of an NPC that groups use.
-- Trade: src/trade.rs: offers, `TradeContext` and `resolve`.
-- Shard: src/state/shard.rs, src/bin/shard/trade.rs, src/bin/shard/group.rs and `remove_group_member` of
--   src/helpers.rs. A handler is a function from the state to an
--   outcome and the state that it leaves; Post says what holds after one. Trading has the handlers,
--   with the offers in its Offers, and Requests the sequences of requests by any clients; Groups has the
--   same for the group packets, with those about NPCs in Npcs.
--   Shopper is a run on one player and its list of sold items; Items and Vendors are the handlers of
--   src/bin/shard/item.rs on it, and their Requests modules the handlers with their answers.
-- Chunk: src/chunk.rs, the entity map. Moves has `remove_from_chunk`, `insert_into_chunk` and the packets
--   that `update` sends, Registry the registry and the ticking entities, Instances the copying of NPCs into
--   new instances and `update`, and Cleanup the clean-up.
--   World is an abstract map, a list of entities and their places; its modules show that the code keeps
--   one. The visibility range is a parameter below 2 ^ 30.
-- Login: src/state/login.rs, the registered shards and the players on each.
-- Mission: src/mission.rs, the journal. Slots has what asks the table data for the mission of a task; the
--   other modules show what any sequence of operations keeps, and what the active mission is.
-- Path: src/path.rs, with the step of a position towards a target as a parameter.
-- Prelude has the shared notation and the lemmas on lists and bits. Tests has concrete runs.
--
-- Integers are natural numbers, and wrap where the release build wraps. A signed word that is only stored
-- or compared for equality is its bit pattern. Hash maps that are only looked up are functions; the
-- set of a group's members is a list, whose order decides the order of packets only. Of
-- code outside the repository, sockets, the table data, random ids and the clock are parameters. A
-- handler starts with the packet that it has read.
--
-- Not modelled: the packet layouts, the database, the table data's loading, the configuration, the logger
-- and the monitor, which are data or I/O; the artificial intelligence, skills, chat,
-- and of the login server the sessions and the handlers.
pub mod Chunk
pub mod Entity
pub mod Error
pub mod Item
pub mod Login
pub mod Mission
pub mod Net
pub mod Path
pub mod Prelude
pub mod Shard
pub mod Tests
pub mod Trade
pub mod Util
