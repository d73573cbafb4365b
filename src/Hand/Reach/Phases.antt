-- ===== src/Hand/Reach/Phases.antt =====
-- engine/src/game: every step of a blind hand is a move of its lifecycle.
use bluffking.Prelude.{
  ℕ, ◌≡◌, refl, sym, subst, ◌⊎◌, inl, inr, Bool, true, not, ◌||◌, none, some, List, arith, ltb,
  ◌==◌, if◌then◌else◌, Bool-cases,
}
use bluffking.Action.{ok, PlayerAction}
use bluffking.Card.{Card, Street, HoleCards, as_array, board_count}
use bluffking.Settle.Seat.{HoleSlot, empty_slot, plain, opaque, revealed}
use bluffking.Hand.State.{Hand, Phase, not_started, betting, finished, is_done, contenders}
use bluffking.Hand.Act.{settle_action, apply_action_inner}
use bluffking.Hand.Start.{ForcedBets, skip_preflop, open_preflop, is_unstarted, start}
use bluffking.Hand.Board.{
  accepted, or_refuse, >>=-accepted, >>-accepted, accepted-injective, is_preflop, is_some,
  runout_choice_closed, no_second_run_pending, runout_choice_street, choose_runout,
  inject_second_run, restore_run_twice, is_restorable, restore_left, check_injected_cards_unique,
  same_hole, reveal_seat, reveal_checked, reveal_slot,
}
use bluffking.Hand.Board.Distinct.{
  inject_board-placed, inject_second_run-placed, inject_showdown_reveal-shown,
}
use bluffking.Hand.Reach.{
  Step, started, acted, board_given, shown, chosen, run_twice, restored, not_restored,
  board_withheld, Reaches, here, after, Options, blind_hand,
}
use bluffking.Hand.Reach.Withheld.{finish_blind_forfeit_board-Stops, Stops}
use bluffking.Hand.Reach.Acted.{apply_action_inner-settled}
use bluffking.Hand.Reach.Started.{start-opens}
use bluffking.Hand.Reach.Distinct.{choice_made}
use bluffking.Hand.Reach.Lifecycle.{
  Move, unchanged, ended, Quiet, Moves, same-Moves, close_if_done-Moves, after_board-Moves, Begins,
  open_preflop-Begins, skip_preflop-Begins,
}

is_unstarted-eq : (p : Phase) → is_unstarted p ≡ true → p ≡ not_started
is_unstarted-eq not_started e = refl
is_unstarted-eq (betting s) e = cc
is_unstarted-eq finished e = cc

begins :
    (h' : Hand)
    → (((dealt : Hand) × (skip_preflop dealt ≡ ok h'))
        ⊎ ((b : ForcedBets) × (dealt : Hand) × (open_preflop b dealt ≡ ok h')))
    → Begins h'
begins h' (inl (dealt, skips)) = skip_preflop-Begins dealt h' skips
begins h' (inr (b, dealt, bets)) = open_preflop-Begins b dealt h' bets

start-Moves : (h h' : Hand) → start h ≡ ok h' → Moves h h'
start-Moves h h' e =
    let (unstarted, opens) = start-opens h h' e in
    let phase = is_unstarted-eq h.phase unstarted in
    let (move, quiet) = begins h' opens in (subst (λ p. Move p h'.phase) (sym phase) move, quiet)

acted-Moves :
    (h h' : Hand) (player_id : ℕ) (action : PlayerAction) (forfeit closed : Bool)
    → apply_action_inner h player_id action forfeit ≡ ok (h', closed)
    → Moves h h'
unfolding settle_action
acted-Moves h h' player_id action forfeit closed e =
    let (street, live, stack, moved, r, closes) =
      apply_action_inner-settled h h' player_id action forfeit closed e in
    let settled = settle_action h player_id action stack (moved, r) in
    let (move, quiet) = close_if_done-Moves street r settled h' closed live closes in
    (subst (λ p. Move p h'.phase) (sym live) move, quiet)

revealed-Moves :
    (h h' : Hand) (player_id : ℕ) (hole : HoleCards)
    → Quiet h
    → reveal_checked h player_id hole ≡ accepted h'
    → Moves h h'
revealed-Moves h h' player_id hole quiet e =
    let open_seat : Hand = record h { seats = reveal_seat player_id hole h.seats } in
    let (done, checked, e1) =
      >>=-accepted (check_injected_cards_unique h (as_array hole)) (λ nothing. accepted open_seat)
        e in
    subst (Moves h) (accepted-injective e1) (same-Moves h open_seat refl refl quiet)

reveal_slot-Moves :
    (h h' : Hand) (player_id : ℕ) (hole : HoleCards) (slot : HoleSlot)
    → Quiet h
    → reveal_slot h player_id hole slot ≡ accepted h'
    → Moves h h'
reveal_slot-Moves h h' player_id hole empty_slot q e = revealed-Moves h h' player_id hole q e
reveal_slot-Moves h h' player_id hole (plain cards) q e = revealed-Moves h h' player_id hole q e
reveal_slot-Moves h h' player_id hole opaque q e = revealed-Moves h h' player_id hole q e
reveal_slot-Moves h h' player_id hole (revealed existing) q e =
    elim (Bool-cases (same_hole existing hole)) [
      | inl same ↦ subst (Moves h) (accepted-injective (rw same at e)) (same-Moves h h refl refl q)
      | inr other ↦ absurd (ground (arith, rw other at e))
    ]

choose_runout-Moves :
    (h h' : Hand) (twice : Bool) → Quiet h → choose_runout h twice ≡ accepted h' → Moves h h'
unfolding choose_runout
choose_runout-Moves h h' twice quiet e =
    let (street, open_now, e1) =
      >>=-accepted (or_refuse (runout_choice_street h) runout_choice_closed) (choice_made h twice)
        e in
    let chosen_hand : Hand = record h {
      runout_choice = some twice;
      run_twice_from = if twice then some street else h.run_twice_from;
    } in
    subst (Moves h) (accepted-injective e1) (same-Moves h chosen_hand refl refl quiet)

inject_second_run-Moves :
    (h h' : Hand) (cards : List Card)
    → Quiet h
    → inject_second_run h cards ≡ accepted h'
    → Moves h h'
inject_second_run-Moves h h' cards quiet e =
    let (from, second, checked, shared, runs) = inject_second_run-placed h h' cards e in
    let both : Hand = record h { second_board = some second } in
    subst (Moves h) (accepted-injective runs) (same-Moves h both refl refl quiet)

restore_run_twice-Moves :
    (h h' : Hand) (from : Street) (cards : List Card)
    → Quiet h
    → restore_run_twice h from cards ≡ accepted h'
    → Moves h h'
unfolding restore_run_twice
restore_run_twice-Moves h h' from cards quiet e =
    let closed = not (
      is_preflop from
      || (not (is_done h)
          || (not (board_count h.board == 5)
              || (is_some h.run_twice_from || ltb (contenders h) 2)))) in
    let chosen_hand : Hand = record h { runout_choice = some true; run_twice_from = some from } in
    let (allowed, e1) =
      >>-accepted closed no_second_run_pending (inject_second_run chosen_hand cards) e in
    inject_second_run-Moves chosen_hand h' cards quiet e1

restore_left-Moves : (h : Hand) (from : Street) → Quiet h → Moves h (restore_left h from)
unfolding restore_left
restore_left-Moves h from quiet =
    let dropped : Hand = record h { runout_choice = none; run_twice_from = none } in
    elim (Bool-cases (is_restorable h from)) [
      | inl asked ↦ rw asked (same-Moves h dropped refl refl quiet)
      | inr closed ↦ rw closed (same-Moves h h refl refl quiet)
    ]

Stops-Moves : (h h' : Hand) → Quiet h → Stops h h' → Moves h h'
Stops-Moves h h' quiet (same, inl kept) = subst (Moves h) kept (same-Moves h h refl refl quiet)
Stops-Moves h h' quiet (same, inr (no_round, inl phase)) =
    (subst (Move h.phase) (sym phase) (unchanged h.phase), inr no_round)
Stops-Moves h h' quiet (same, inr (no_round, inr over)) =
    (subst (Move h.phase) (sym over) (ended h.phase), inr no_round)

-- Every step is a move.
Step-Moves : (h h' : Hand) → Step h h' → Quiet h → Moves h h'
Step-Moves h h' (started _ _ e) q = start-Moves h h' e
Step-Moves h h' (acted _ _ player_id action forfeit closed e) q =
    acted-Moves h h' player_id action forfeit closed e
Step-Moves h h' (board_given _ _ cards e) q =
    let (street, board', checked, set, closes) = inject_board-placed h h' cards e in
    after_board-Moves h h' board' q closes
Step-Moves h h' (shown _ _ player_id hole e) q =
    let (over, s, shows) = inject_showdown_reveal-shown h h' player_id hole e in
    reveal_slot-Moves h h' player_id hole s.hole q shows
Step-Moves h h' (chosen _ _ twice e) q = choose_runout-Moves h h' twice q e
Step-Moves h h' (run_twice _ _ cards e) q = inject_second_run-Moves h h' cards q e
Step-Moves h h' (restored _ _ from cards e) q = restore_run_twice-Moves h h' from cards q e
Step-Moves h _ (not_restored _ from cards reason e) q = restore_left-Moves h from q
Step-Moves h h' (board_withheld _ _ withholders result e) q =
    Stops-Moves h h' q (finish_blind_forfeit_board-Stops h h' withholders result e)

blind_hand-Quiet :
    (o : Options) (players : List (ℕ × ℕ × ℕ)) (dealer_idx big_blind small_blind : ℕ)
    → Quiet (blind_hand o players dealer_idx big_blind small_blind)
blind_hand-Quiet o players dealer_idx big_blind small_blind = elim (Bool-cases o.dead_small) [
  | inl dead ↦ simp dead (inr refl)
  | inr live ↦ simp live (inr refl)
]

Reaches-Quiet :
    (o : Options) (players : List (ℕ × ℕ × ℕ)) (dealer_idx big_blind small_blind : ℕ) (h : Hand)
    → Reaches (blind_hand o players dealer_idx big_blind small_blind) h
    → Quiet h
Reaches-Quiet o players dealer_idx big_blind small_blind _ here =
    blind_hand-Quiet o players dealer_idx big_blind small_blind
Reaches-Quiet o players dealer_idx big_blind small_blind _ (after h h' reached step) =
    (Step-Moves h h' step (Reaches-Quiet o players dealer_idx big_blind small_blind h reached)).1

-- The steps of a blind hand refine its lifecycle: whatever has been done with the hand, an accepted
-- call, a board forfeit or a refused restore of a second run leaves its phase, or puts a hand that is
-- not started on a street, or goes from a street to a later one, or ends the hand. A finished hand
-- stays finished.
pub Step-Move :
    (o : Options) (players : List (ℕ × ℕ × ℕ)) (dealer_idx big_blind small_blind : ℕ) (h h' : Hand)
    → Reaches (blind_hand o players dealer_idx big_blind small_blind) h
    → Step h h'
    → Move h.phase h'.phase
Step-Move o players dealer_idx big_blind small_blind h h' reached step =
    (Step-Moves h h' step (Reaches-Quiet o players dealer_idx big_blind small_blind h reached)).0
