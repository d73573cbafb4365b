-- ===== src/Round.antt =====
-- engine/src/round.rs: one street of betting. `State` has the data, `Turn` the private helpers,
-- `Action` the operations on a round, `Open` the constructors and `SidePots` the side pots; the other
-- modules are about properties of these.
pub mod State
pub mod Turn
pub mod Action
pub mod Open
pub mod Counted
pub mod Effects
pub mod Frame
pub mod Settle
pub mod Opening
pub mod Posting
pub mod Valid
pub mod Started
pub mod Progress
pub mod Legal
pub mod Forfeit
pub mod SidePots
mod Tests
