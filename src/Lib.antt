-- ===== src/Lib.antt =====
-- The poker engine of BluffKing and the verifier of its draw games: what makes the engine deal, bet
-- and settle correctly, and the verifier accept the honest draws only.
--
-- A hand is played street by street. A street is a betting round over the players' stacks, which
-- collects contributions and cuts them into side pots. At the end of the hand its pots are rebuilt
-- from the chips that each seat put in altogether, and paid: at a showdown by the ranks of the
-- players' cards, without one to a lone player, or among the survivors when the board of a blind
-- table cannot be revealed. The cards come from a deck that a seeded generator shuffles.
--
-- The draw games (dice, Zha Jin Hua, scratch cards) commit to a server seed before play. A reveal
-- opens the commitment, and its seeds give a stream of words, from which the draw is made again and
-- compared with the published proof.
--
-- The files and the code they are about (paths from the root of the repository):
--
--   Action          engine/src/action.rs: the betting actions, their errors, and a result type
--                   with a third case for a panic.
--   Round           engine/src/round.rs. Round/State has PlayerState, BettingRound and the
--                   queries; Round/Turn has advance, seek_active and check_done; Round/Action has
--                   apply_action and forfeit_player, cut into the guards (permitted), the effect
--                   of each action and finish_action; Round/Open and Round/Opening have new and
--                   new_preflop; Round/SidePots has side_pots. Round/Valid defines a well-formed
--                   street and proves that it is kept; the other files of Round are named for what
--                   they prove.
--   Card            engine/src/card.rs and engine/src/hand.rs; Card/Text has Display and
--                   parse_card.
--   Eval            engine/src/eval.rs: HandRank with its derived order, and rank_players.
--   Deck            engine/src/deck.rs: Deck::new, deal, remaining and rng_range. Deck/Range is
--                   about a draw, Deck/Shuffle about a new deck, Deck/Deal about dealing.
--   Position        engine/src/player.rs: Position::for_seat, with Position/Distinct about it.
--   Settle          engine/src/game/pots.rs, with the types of engine/src/game/mod.rs.
--                   Settle/Split has the equal split with its odd chips; Settle/Distribute has
--                   distribute_pots, distribute_pots_uncontested and
--                   distribute_pots_among_survivors; Settle/Seat and Settle/HandPots have the
--                   seats and hand_side_pots; Settle/RunTwice has split_pots_for_two_runs and
--                   merge_run_pots. The other files are the proofs.
--   History         engine/src/game/actions.rs: street_action_facts, with History/Facts about it;
--                   engine/src/game/pots.rs: compute_show_order, which History/ShowOrder is about,
--                   with History/LastRaise and History/Start about the player who starts it.
--   Hand            engine/src/game: Hand/State has GameHand and its constructors from mod.rs and
--                   start.rs, Hand/Antes and Hand/Start have start.rs, Hand/Act the actions of
--                   actions.rs, and Hand/Street, Hand/Injection and Hand/Board the streets and
--                   injections of streets.rs; a call of &mut self takes the hand and gives the new
--                   one. Hand/Snapshot has the panics of GameHand::snapshot, which the calls that
--                   return one can end in. Hand/Finish has the ends of a hand in pots.rs, and
--                   Hand/Reach the calls that change a blind hand, in any order; the calls finish,
--                   finish_blind, finish_blind_with_forfeits and drain_events change nothing of
--                   its state but the events.
--   Draw            draw-games/verifier/src: Draw/Proof has proof.rs, with Proof/Bytes and
--                   Proof/Binding about the commitments, Proof/Below and Proof/Uniform about the
--                   draws of below; Draw/Sicbo, Draw/Zjh and Draw/Scratch have the games of those
--                   names, each with a child Verify about its check; Draw/Text has what zjh.rs
--                   uses of the standard library on texts. A published proof is the record that
--                   serde reads.
--   Prelude         lists, sums, stable sorting, machine words and signed integers that the parts
--                   share.
--
-- State is passed explicitly: an operation takes the record that the code mutates and returns the
-- new one. Ids and chips are natural numbers; a sum or a difference of u32 wraps modulo 2 ^ 32 as in
-- a release build. saturating_sub is the subtraction that stops at 0. A list index out of bounds and
-- a failed expect are values: panicked in a round, none in a deck, in hand_side_pots and in
-- street_action_facts. The walks around a table index it modulo the number of seats, so that they have
-- no such case. A HashMap or a HashSet is a function.
--
-- Parameters stand for code outside the repository: Eval.Evaluator for the evaluator of rs_poker
-- (its empty hand, the insertion of a card and the rank), and Deck.Rng for the generator of
-- rand_chacha (eight bytes and the next state). Draw.Proof.Crates is for the digest of sha2 and the
-- texts of hex; IsDocumented names what their documentation says, and HasWords that no block of a
-- stream has four words below 16384. Nothing is assumed of the evaluator. Of the generator HasWord
-- is assumed where a draw has to end: among so many next words one is not among the last 52 values
-- of a u64, all of which are above the threshold or close to it.
--
-- Every loop of the code is a structural recursion but three: the rejection loops of rng_range and of
-- below run on fuel, which is enough when they reach an accepted word; for below, eight words are. The
-- self-call of close_street_and_advance has fuel for the four streets of a hand.
--
-- Not modelled: the report of a finished hand (the showdown, and the chips and stacks per player in
-- engine/src/game/pots.rs) and the preview of an action, which build on the parts here; the events
-- and the contents of the snapshots of a hand, which no operation reads; the solvers, the mental
-- poker protocol, the lottery, the rooms and wallets of the draw games, and the server, which are
-- separate components; serialisation and events, which are input and output.
mod Prelude
pub mod Action
pub mod Card
pub mod Eval
pub mod Deck
pub mod Position
pub mod Settle
pub mod History
pub mod Round
pub mod Draw
pub mod Hand
