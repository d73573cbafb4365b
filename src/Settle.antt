-- ===== src/Settle.antt =====
-- engine/src/game/pots.rs and engine/src/game/mod.rs: how the pots of a hand are paid.
pub mod Split
mod Tests
pub mod OddChips
pub mod Distribute
pub mod Totals
pub mod Contested
pub mod CardFree
pub mod Forfeit
pub mod Best
pub mod Seat
pub mod HandPots
pub mod HandLayers
pub mod HandTotal
pub mod RunTwice
pub mod HandPaid
pub mod RunTotals
pub mod Fair
pub mod ButtonOrder
