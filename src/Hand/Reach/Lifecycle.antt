-- ===== src/Hand/Reach/Lifecycle.antt =====
-- engine/src/game: the phases of a blind hand follow the lifecycle of a hand.
use bluffking.Prelude.{
  ◌<◌, ◌≡◌, refl, sym, ap, subst, ◌∙◌, ◌⊎◌, inl, inr, Bool, true, false, Option, none, some, arith,
  Bool-cases, Option-cases,
}
use bluffking.Action.{Result, ok, ok-injective, >>=-eq-ok}
use bluffking.Card.{Street, BoardCards, preflop}
use bluffking.Round.State.{BettingRound}
use bluffking.Hand.State.{Hand, Phase, not_started, betting, finished, phase_done, round_is_done}
use bluffking.Hand.Snapshot.{snapshot, snapshot-same}
use bluffking.Hand.Street.{sync_stacks_from_round, close_street_and_advance}
use bluffking.Hand.Act.{close_if_done}
use bluffking.Hand.Start.{ForcedBets, preflop_round, bring_in, open_preflop, skip_preflop}
use bluffking.Hand.Board.{accepted, or_else-accepted, no_board_pending, after_board}
use bluffking.Hand.Advance.{streets_left, Advanced, closed-Advanced, current_street-betting}

-- The lifecycle of a hand: it is started on a street, goes from street to street, and ends; a board
-- that is withheld can end it at any time.
pub data Move : Phase → Phase → Type 0 where
  unchanged : (p : Phase) → Move p p
  begun : (s : Street) → Move not_started (betting s)
  moved_on : (s t : Street) → streets_left t < streets_left s → Move (betting s) (betting t)
  ended : (p : Phase) → Move p finished

-- A hand has a round of betting only on a street.
abbrev pub Quiet : Hand → Type 0
Quiet h = ((s : Street) × (h.phase ≡ betting s)) ⊎ (h.betting_round ≡ none)

-- What a step does to the lifecycle.
abbrev pub Moves : Hand → Hand → Type 0
Moves h h' = Move h.phase h'.phase × Quiet h'

-- What a street leads to, a hand that starts can lead to.
from_street : (s : Street) (p : Phase) → Move (betting s) p → Move not_started p
from_street s _ (unchanged _) = begun s
from_street s _ (moved_on _ t further) = begun t
from_street s _ (ended _) = ended not_started

phase_done-eq : (p : Phase) → phase_done p ≡ true → p ≡ finished
phase_done-eq not_started e = cc
phase_done-eq (betting s) e = cc
phase_done-eq finished e = refl

Advanced-Move : (s : Street) (h : Hand) → Advanced s h → Move (betting s) h.phase × Quiet h
Advanced-Move s h (inl (over, no_round)) =
    (subst (Move (betting s)) (sym (phase_done-eq h.phase over)) (ended (betting s)), inr no_round)
Advanced-Move s h (inr (t, at, further, open_bet)) =
    (subst (Move (betting s)) (sym at) (moved_on s t further), inl (t, at))

-- Closing the street of a hand that is bet on.
pub closed-Moves :
    (s : Street) (h h' : Hand)
    → h.phase ≡ betting s
    → close_street_and_advance h ≡ ok h'
    → Move (betting s) h'.phase × Quiet h'
closed-Moves s h h' at e =
    let now = current_street-betting h s at in
    Advanced-Move s h' (subst (λ x. Advanced x h') now (closed-Advanced h h' e))

pub same-Moves :
    (h h' : Hand) → h'.phase ≡ h.phase → h'.betting_round ≡ h.betting_round → Quiet h → Moves h h'
same-Moves h h' phase round quiet = (
  subst (Move h.phase) (sym phase) (unchanged h.phase),
  elim quiet [ inl (s, at) ↦ inl (s, phase ∙ at) | inr no_round ↦ inr (round ∙ no_round) ],
)

pub close_if_done-Moves :
    (s : Street) (r : BettingRound) (h h' : Hand) (closed : Bool)
    → h.phase ≡ betting s
    → close_if_done r h ≡ ok (h', closed)
    → Move (betting s) h'.phase × Quiet h'
close_if_done-Moves s r h h' closed at e = elim (Bool-cases r.done) [
  | inl over ↦
      let pair = λ (x : Hand). Result.ok (x, true) in
      let (next, shut, e1) = >>=-eq-ok (close_street_and_advance h) pair (rw over at e) in
      subst (λ (x : Hand). Move (betting s) x.phase × Quiet x) (ap (λ x. x.0) (ok-injective e1))
        (closed-Moves s h next at shut)
  | inr still ↦
      let pair = λ (x : Hand). Result.ok (x, false) in
      let (next, reads, e1) = >>=-eq-ok (snapshot h) pair (rw still at e) in
      let same = snapshot-same h next reads ∙ ap (λ x. x.0) (ok-injective e1) in
      subst (λ (x : Hand). Move (betting s) x.phase × Quiet x) same
        (subst (Move (betting s)) (sym at) (unchanged (betting s)), inl (s, at))
]

round_is_done-none : (h : Hand) → h.betting_round ≡ none → round_is_done h ≡ false
round_is_done-none h no_round =
    ap (λ (o : Option BettingRound). elim o [ none ↦ false | some r ↦ r.done ]) no_round

pub after_board-Moves :
    (h h' : Hand) (board' : BoardCards) → Quiet h → after_board h board' ≡ accepted h' → Moves h h'
after_board-Moves h h' board' quiet e =
    let placed : Hand = record h { board = board'; pending_board_street = none } in
    elim (Bool-cases (round_is_done placed)) [
      | inr still ↦
          let read = or_else-accepted (snapshot placed) no_board_pending (rw still at e) in
          subst (Moves h) (snapshot-same placed h' read) (same-Moves h placed refl refl quiet)
      | inl over ↦ elim quiet [
        | inl (s, at) ↦
            let shut =
              or_else-accepted (close_street_and_advance placed) no_board_pending (rw over at e) in
            let (move, quiet') = closed-Moves s placed h' at shut in
            (subst (λ p. Move p h'.phase) (sym at) move, quiet')
        | inr no_round ↦ absurd (ground (arith, over, round_is_done-none placed no_round))
      ]
    ]

sync_stacks-phase : (h : Hand) → (sync_stacks_from_round h).phase ≡ h.phase
unfolding sync_stacks_from_round
sync_stacks-phase h = elim (Option-cases h.betting_round) [
  | inl missing ↦ simp (sync_stacks_from_round, missing) refl
  | inr (r, there) ↦ simp (sync_stacks_from_round, there) refl
]

-- A hand that starts.
abbrev pub Begins : Hand → Type 0
Begins h' = Move not_started h'.phase × Quiet h'

Move-Begins : (s : Street) (h' : Hand) → Move (betting s) h'.phase × Quiet h' → Begins h'
Move-Begins s h' (move, quiet) = (from_street s h'.phase move, quiet)

-- The first street of a hand that starts.
pub open_preflop-Begins : (b : ForcedBets) (h h' : Hand) → open_preflop b h ≡ ok h' → Begins h'
unfolding open_preflop
open_preflop-Begins b h h' e =
    let r = preflop_round b h in
    let dealt : Hand = record h {
      preflop_bring_in = bring_in h b;
      phase = betting preflop;
      betting_round = some r;
    } in
    let opened = sync_stacks_from_round dealt in
    let at : opened.phase ≡ betting preflop = sync_stacks-phase dealt in
    elim (Bool-cases r.done) [
      | inl over ↦ Move-Begins preflop h' (closed-Moves preflop opened h' at (simp over at e))
      | inr still ↦
          subst Begins (snapshot-same opened h' (simp still at e))
            (subst (Move not_started) (sym at) (begun preflop), inl (preflop, at))
    ]

pub skip_preflop-Begins : (h h' : Hand) → skip_preflop h ≡ ok h' → Begins h'
skip_preflop-Begins h h' e =
    let opened : Hand = record h { phase = betting preflop } in
    Move-Begins preflop h' (closed-Moves preflop opened h' refl e)
