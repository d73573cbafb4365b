-- ===== src/Hand/Reach/Acted.antt =====
-- engine/src/game/actions.rs: an action in a blind hand shows no card.
use bluffking.Prelude.{
  ℕ, zero, suc, ◌≡◌, refl, sym, ap, subst, ◌∙◌, ◌⊎◌, inl, inr, Bool, true, false, some, List, [],
  ◌∷◌, ◌++◌, map, arith, ltb, ◌==◌, Bool-cases, Option-cases, get_elem?, modify, find,
}
use mathlib.Core.Option.{some-injective}
use bluffking.Card.{Street}
use bluffking.Action.{Result, ok, ok-injective, >>=-eq-ok, PlayerAction}
use bluffking.Settle.Seat.{HandSeat}
use bluffking.Round.State.{BettingRound}
use bluffking.Hand.State.{Hand, Phase, not_started, betting, finished, blind_mode}
use bluffking.Hand.Snapshot.{snapshot, snapshot-same}
use bluffking.Hand.Street.{close_street_and_advance}
use bluffking.Hand.Act.{
  sync_seat, settle_action, close_if_done, pot_updated, finish_step, round_step, act_at, left_of,
  apply_action_inner,
}
use bluffking.Hand.Board.{all_revealed, revealed_cards}
use bluffking.Hand.Board.Shown.{SameCards, SameCards-trans, SameCards-refl, close-SameCards}

pub all_revealed-map :
    (f : HandSeat → HandSeat)
    → ((s : HandSeat) → (f s).hole ≡ s.hole)
    → (seats : List HandSeat) → all_revealed (map f seats) ≡ all_revealed seats
unfolding all_revealed
all_revealed-map f same [] = refl
all_revealed-map f same (s ∷ seats) = rw (same s, all_revealed-map f same seats) refl

pub all_revealed-modify :
    (seats : List HandSeat) (idx : ℕ) (s s' : HandSeat)
    → get_elem? seats idx ≡ some s
    → s'.hole ≡ s.hole
    → all_revealed (modify seats idx (λ _. s')) ≡ all_revealed seats
unfolding all_revealed modify
all_revealed-modify [] idx s s' e same = refl
all_revealed-modify (x ∷ seats) zero s s' e same =
    let first = some-injective x s e in
    ap (λ slot. revealed_cards slot ++ all_revealed seats)
      (same ∙ ap (λ (y : HandSeat). y.hole) (sym first))
all_revealed-modify (x ∷ seats) (suc idx) s s' e same =
    ap (λ cards. revealed_cards x.hole ++ cards) (all_revealed-modify seats idx s s' e same)

sync_seat-hole :
    (player_id stack : ℕ) (r : BettingRound) (s : HandSeat)
    → (sync_seat player_id stack r s).hole ≡ s.hole
sync_seat-hole player_id stack r s = elim (Bool-cases (s.player_id == player_id)) [
  | inl here ↦ rw here refl
  | inr other ↦ rw other refl
]

settle_action-SameCards :
    (h : Hand) (player_id : ℕ) (action : PlayerAction) (stack : ℕ) (moved : ℕ) (r : BettingRound)
    → SameCards h (settle_action h player_id action stack (moved, r))
unfolding settle_action
settle_action-SameCards h player_id action stack moved r =
    let f = sync_seat player_id (left_of stack moved) r in
    record {
      same_mode = refl;
      same_board = refl;
      same_second = refl;
      same_shown = all_revealed-map f (sync_seat-hole player_id (left_of stack moved) r) h.seats;
    }

close_if_done-SameCards :
    (r : BettingRound) (h h' : Hand) (closed : Bool)
    → h.mode ≡ blind_mode
    → close_if_done r h ≡ ok (h', closed)
    → SameCards h h'
close_if_done-SameCards r h h' closed blind e = elim (Bool-cases r.done) [
  | inl over ↦
      let pair = λ (x : Hand). Result.ok (x, true) in
      let (next, shut, e1) = >>=-eq-ok (close_street_and_advance h) pair (rw over at e) in
      subst (SameCards h) (ap (λ x. x.0) (ok-injective e1)) (close-SameCards 4 h next blind shut)
  | inr still ↦
      let pair = λ (x : Hand). Result.ok (x, false) in
      let (next, reads, e1) = >>=-eq-ok (snapshot h) pair (rw still at e) in
      let same = snapshot-same h next reads ∙ ap (λ x. x.0) (ok-injective e1) in
      subst (SameCards h) same (SameCards-refl h)
]

pot_updated-same : (moved : ℕ) (h h' : Hand) → pot_updated moved h ≡ ok h' → h ≡ h'
pot_updated-same moved h h' e = elim (Bool-cases (ltb 0 moved)) [
  | inl moves ↦ snapshot-same h h' (rw moves at e)
  | inr rests ↦ ok-injective (rw rests at e)
]

Phase-cases :
    (p : Phase) → (p ≡ not_started) ⊎ ((p ≡ finished) ⊎ ((street : Street) × (p ≡ betting street)))
Phase-cases not_started = inl refl
Phase-cases finished = inr (inl refl)
Phase-cases (betting street) = inr (inr (street, refl))

-- What an accepted action has passed, on a street that is bet on.
pub apply_action_inner-settled :
    (h h' : Hand) (player_id : ℕ) (action : PlayerAction) (forfeit closed : Bool)
    → apply_action_inner h player_id action forfeit ≡ ok (h', closed)
    → (street : Street) × (h.phase ≡ betting street)
      × (stack : ℕ) × (moved : ℕ) × (r : BettingRound) × (close_if_done r
            (settle_action h player_id action stack (moved, r))
          ≡ ok (h', closed))
unfolding apply_action_inner
apply_action_inner-settled h h' player_id action forfeit closed e = elim (Phase-cases h.phase) [
  | inl unstarted ↦ absurd (ground (arith, simp (apply_action_inner, unstarted) at e))
  | inr (inl over) ↦ absurd (ground (arith, simp (apply_action_inner, over) at e))
  | inr (inr (street, live)) ↦
      let e1 = simp (apply_action_inner, live) at e in
      elim (Option-cases (find (λ (s : HandSeat). s.player_id == player_id) h.seats)) [
        | inl absent ↦ absurd (ground (arith, simp absent at e1))
        | inr (s, seated) ↦
            let e2 = simp seated at e1 in
            elim (Option-cases h.betting_round) [
              | inl missing ↦ absurd (ground (arith, simp (act_at, missing) at e2))
              | inr (r, there) ↦
                  let step = round_step forfeit player_id action r in
                  let ((moved, r'), moves, e3) =
                    >>=-eq-ok step (finish_step h player_id action s.stack)
                      (simp (act_at, there) at e2) in
                  let settled = settle_action h player_id action s.stack (moved, r') in
                  let (read, reads, e4) =
                    >>=-eq-ok (pot_updated moved settled) (close_if_done r') e3 in
                  let same = sym (pot_updated-same moved settled read reads) in
                  let closes = subst (λ x. close_if_done r' x ≡ ok (h', closed)) same e4 in
                  (street, live, s.stack, moved, r', closes)
            ]
      ]
]

-- An action that a blind hand accepts shows no card.
pub apply_action_inner-SameCards :
    (h h' : Hand) (player_id : ℕ) (action : PlayerAction) (forfeit closed : Bool)
    → h.mode ≡ blind_mode
    → apply_action_inner h player_id action forfeit ≡ ok (h', closed)
    → SameCards h h'
apply_action_inner-SameCards h h' player_id action forfeit closed blind e =
    let (street, live, stack, moved, r, closes) =
      apply_action_inner-settled h h' player_id action forfeit closed e in
    let settled = settle_action h player_id action stack (moved, r) in
    let first = settle_action-SameCards h player_id action stack moved r in
    let blind' : settled.mode ≡ blind_mode = first.same_mode ∙ blind in
    SameCards-trans first (close_if_done-SameCards r settled h' closed blind' closes)
