-- ===== src/Hand.antt =====
-- engine/src/game/mod.rs, start.rs, actions.rs, streets.rs and pots.rs: the state of a whole hand, and the
-- operations on it. The events for clients, the last action of a seat and the seed of the deck are
-- left out: no operation here reads them. Of a snapshot for clients there is the panic that it can
-- end in.
pub mod State
pub mod Antes
pub mod Injection
pub mod Board
pub mod Snapshot
pub mod Street
pub mod Act
pub mod Start
pub mod Reach
pub mod Advance
pub mod Finish
pub mod Opened
mod Tests
