-- ===== src/Hand/Finish.antt =====
-- engine/src/game/pots.rs: the end of a hand, up to the results of its pots. The set of forfeiters is
-- a function; the showdown that is reported, and the totals per player, are left out.
pub mod Agree
mod Tests
use mathlib.Core.Option
use bluffking.Prelude.{
  ℕ, zero, suc, ◌+◌, ◌-◌, ◌*◌, ◌/◌, ◌%◌, ◌≤◌, ◌<◌, min, max, ◌≡◌, refl, sym, ap, subst, ◌∙◌, ◌≢◌,
  ◌↔◌, ◌⊎◌, inl, inr, Bool, true, false, not, ◌&&◌, ◌||◌, Option, none, some, List, [], ◌∷◌, ◌++◌,
  map, ℤ, pos, negsuc, negate, plus, times, within, same_int, same_int-eq, same_int_self, arith,
  ltb, leb, ◌==◌, if◌then◌else◌, if-elim, Bool-cases, Option-cases, ==_iff, ==_self, length,
  get_elem?, All, length-append, keep, length-map, All-append, All-if, modify, find, position, any,
  all, filter, count, sum_by, drop, drop-get, rotate, take-all, length-drop, length-rotate,
  count-rotate, map-filter-IsNodup, sort_by-All, IsSorted, sort_by-IsSorted, filter-sort_by,
  take_while-filter, take, take_while, map-sort_by-IsNodup, map-take_while-IsNodup,
  contains-map-sort_by, contains-map-take_while, sum_by-add, get-in_range, get-bound, position-get,
  position-any, count-modify, length-modify, get_elem?-modify_ne, get_elem?-modify_self, sort,
  dedup, sum32, sum, IsAscending, Occurs, sum32-eq, sort-IsAscending, sort-Occurs,
  dedup-IsAscending, dedup-Occurs, insert_by, sort_by, contains, sum_by-sort_by, length-sort_by,
  IsNodup, contains-sort_by, sort_by-IsNodup, sum_by-take, sum_by-const, sum_by-map, add32, sub32,
  u32_mod, saturating_add, add32-eq, sub32-eq,
}
use bluffking.Card.{HoleCards, BoardCards}
use bluffking.Eval.{Evaluator}
use bluffking.Round.SidePots.{SidePot}
use bluffking.Settle.Seat.{
  HandSeat, HoleSlot, empty_slot, plain, opaque, revealed, hole_cards, is_in, button_relative_order,
}
use bluffking.Settle.Split.{PotResult}
use bluffking.Settle.HandPots.{hand_side_pots}
use bluffking.Settle.Distribute.{
  distribute_pots, distribute_pots_uncontested, distribute_pots_among_survivors,
}
use bluffking.Settle.RunTwice.{split_pots_for_two_runs, merge_run_pots}
use bluffking.Hand.State.{Hand, is_done, is_blind_mode, set_done}
use bluffking.Hand.Street.{absorb_round}

pub data BlindFinishError : Type 0 where
  missing_reveal : (player_id seat : ℕ) → BlindFinishError
  not_done not_blind_mode no_survivor : BlindFinishError

-- The results of the pots. `stopped` stands for a panic.
pub data Finished : Type 0 where
  stopped : Finished
  denied : (reason : BlindFinishError) → Finished
  paid : (results : List PotResult) → Finished

-- `settlement_side_pots`, and what is made of them.
abbrev pub settled_by : Hand → (List SidePot → List PotResult) → Finished
settled_by h settle = elim (hand_side_pots h.posted_big_blind_ante h.seats) [
  | none ↦ stopped
  | some pots ↦ paid (settle pots)
]

abbrev pub seat_order : Hand → ℕ → Option ℕ
seat_order h = button_relative_order h.seats h.dealer_idx

-- The settlement of a hand, on one board or on two.
abbrev pub settle_boards :
    Evaluator → Hand → List (ℕ × HoleCards) → (ℕ → Bool) → List SidePot → List PotResult
settle_boards ev h eligible forfeiters pots =
    let one = distribute_pots ev (seat_order h) h.board eligible forfeiters pots in
    elim h.run_twice_from [
      | none ↦ one
      | some from ↦ elim h.second_board [
        | none ↦ one
        | some second ↦
            let (first_half, second_half) = split_pots_for_two_runs pots in
            merge_run_pots pots
              (distribute_pots ev (seat_order h) h.board eligible forfeiters first_half)
              (distribute_pots ev (seat_order h) second eligible forfeiters second_half)
      ]
    ]

-- `assemble_result_with_forfeits`
abbrev pub assemble : Evaluator → Hand → List (ℕ × HoleCards) → (ℕ → Bool) → Finished
assemble ev h eligible forfeiters = settled_by h (settle_boards ev h eligible forfeiters)

abbrev pub nobody : ℕ → Bool
nobody pid = false

-- The players still in.
abbrev pub non_folded : Hand → List HandSeat
non_folded h = filter is_in h.seats

-- `assemble_blind_uncontested_result`
abbrev pub uncontested : Hand → Option ℕ → Finished
uncontested h lone = settled_by h (distribute_pots_uncontested (seat_order h) lone)

abbrev pub lone_of : List HandSeat → Option ℕ
lone_of [] = none
lone_of (s ∷ seats) = some s.player_id

-- The cards of all of the players, or the first player without verified cards.
unfoldable pub all_shown : List HandSeat → BlindFinishError ⊎ List (ℕ × HoleCards)
all_shown [] = inr []
all_shown (s ∷ seats) =
    let rest = all_shown seats in
    elim s.hole [
      | revealed hole ↦ elim rest [
        | inl reason ↦ inl reason
        | inr shown ↦ inr ((s.player_id, hole) ∷ shown)
      ]
      | _ ↦ inl (missing_reveal s.player_id s.seat)
    ]

-- The cards of the players who have shown them.
unfoldable pub those_shown : List HandSeat → List (ℕ × HoleCards)
those_shown [] = []
those_shown (s ∷ seats) =
    let rest = those_shown seats in
    elim s.hole [ revealed hole ↦ (s.player_id, hole) ∷ rest | _ ↦ rest ]

-- The seats of the players who have not.
unfoldable pub not_shown : List HandSeat → List HandSeat
not_shown [] = []
not_shown (s ∷ seats) =
    let rest = not_shown seats in elim s.hole [ revealed hole ↦ rest | _ ↦ s ∷ rest ]

-- The set of forfeiters.
abbrev pub forfeits : List HandSeat → ℕ → Bool
forfeits seats pid = any (λ (s : HandSeat). s.player_id == pid) seats

abbrev pub contested : Evaluator → Hand → BlindFinishError ⊎ List (ℕ × HoleCards) → Finished
contested ev h (inl reason) = denied reason
contested ev h (inr eligible) = assemble ev h eligible nobody

-- `finish_blind` of a finished blind hand
abbrev pub finish_done : Evaluator → Hand → Finished
finish_done ev h =
    let seats = non_folded h in
    if leb (length seats) 1 then uncontested h (lone_of seats) else contested ev h (all_shown seats)

abbrev pub when_done : Hand → Finished → Finished
when_done h result =
    if not (is_done h)
    then denied not_done
    else if not (is_blind_mode h.mode)
    then denied not_blind_mode
    else result

unfoldable pub finish_blind : Evaluator → Hand → Finished
finish_blind ev h = when_done h (finish_done ev h)

-- Nobody showing is an error that names the first player; the `expect` is a panic.
abbrev pub contested_by : Evaluator → Hand → List (ℕ × HoleCards) → List HandSeat → Finished
contested_by ev h (e ∷ eligible) missing = assemble ev h (e ∷ eligible) (forfeits missing)
contested_by ev h [] (s ∷ missing) = denied (missing_reveal s.player_id s.seat)
contested_by ev h [] [] = stopped

abbrev pub forfeit_done : Evaluator → Hand → Finished
forfeit_done ev h =
    let seats = non_folded h in
    if leb (length seats) 1
    then uncontested h (lone_of seats)
    else contested_by ev h (those_shown seats) (not_shown seats)

unfoldable pub finish_blind_with_forfeits : Evaluator → Hand → Finished
finish_blind_with_forfeits ev h = when_done h (forfeit_done ev h)

-- The players in with plaintext cards.
unfoldable pub plaintext_eligible : List HandSeat → List (ℕ × HoleCards)
plaintext_eligible [] = []
plaintext_eligible (s ∷ seats) =
    let rest = plaintext_eligible seats in
    elim (hole_cards s) [ none ↦ rest | some hole ↦ (s.player_id, hole) ∷ rest ]

-- `finish`
unfoldable pub finish : Evaluator → Hand → Finished
finish ev h =
    if is_done h && not (is_blind_mode h.mode)
    then assemble ev h (plaintext_eligible (non_folded h)) nobody
    else stopped

-- A withholder who is in folds.
unfoldable pub force_fold : ℕ → List HandSeat → List HandSeat
force_fold pid [] = []
force_fold pid (s ∷ seats) =
    let rest = force_fold pid seats in
    if s.player_id == pid && not s.folded
    then record s { folded = true; all_in = false } ∷ seats
    else s ∷ rest

unfoldable pub force_fold_all : List ℕ → List HandSeat → List HandSeat
force_fold_all [] seats = seats
force_fold_all (pid ∷ pids) seats = force_fold_all pids (force_fold pid seats)

abbrev pub is_nobody : List ℕ → Bool
is_nobody [] = true
is_nobody (pid ∷ pids) = false

-- The hand once the withholders have folded.
unfoldable pub withheld : Hand → List ℕ → Hand
withheld h withholders =
    set_done (record h { seats = force_fold_all withholders h.seats; pending_board_street = none })

-- What the survivors are awarded; without a survivor the hand is over all the same.
abbrev pub award_survivors : Hand → List SidePot → Hand × Finished
award_survivors after pots =
    let survivors = map (λ (s : HandSeat). s.player_id) (non_folded after) in
    let results = distribute_pots_among_survivors (seat_order after) survivors pots in
    (after, if is_nobody survivors then denied no_survivor else paid results)

-- `finish_blind_forfeit_board`, with the hand that it leaves; the pots are those before the
-- withholders fold.
unfoldable pub finish_blind_forfeit_board : Hand → List ℕ → Hand × Finished
finish_blind_forfeit_board h withholders =
    let absorbed = absorb_round h in
    if not (is_blind_mode h.mode)
    then (h, denied not_blind_mode)
    else elim (hand_side_pots absorbed.posted_big_blind_ante absorbed.seats) [
      | none ↦ (absorbed, stopped)
      | some pots ↦ award_survivors (withheld absorbed withholders) pots
    ]
