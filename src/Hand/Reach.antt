-- ===== src/Hand/Reach.antt =====
-- engine/src/game: the steps of a blind hand that are accepted, in any order, and the hands that
-- they reach.
pub mod Acted
pub mod Started
pub mod Distinct
pub mod Lifecycle
pub mod Phases
pub mod Hidden
pub mod Withheld
use bluffking.Prelude.{
  ℕ, zero, suc, ◌+◌, ◌-◌, ◌*◌, ◌/◌, ◌%◌, ◌≤◌, ◌<◌, min, max, ◌≡◌, refl, sym, ap, subst, ◌∙◌, ◌≢◌,
  ◌↔◌, ◌⊎◌, inl, inr, Bool, true, false, not, ◌&&◌, ◌||◌, Option, none, some, List, [], ◌∷◌, ◌++◌,
  map, ℤ, pos, negsuc, negate, plus, times, within, same_int, same_int-eq, same_int_self, arith,
  ltb, leb, ◌==◌, if◌then◌else◌, if-elim, Bool-cases, Option-cases, ==_iff, ==_self, length,
  get_elem?, All, length-append, keep, length-map, All-append, All-if, modify, find, position, any,
  all, filter, count, sum_by, drop, drop-get, rotate, take-all, length-drop, length-rotate,
  count-rotate, map-filter-IsNodup, sort_by-All, IsSorted, sort_by-IsSorted, filter-sort_by,
  take_while-filter, take, take_while, map-sort_by-IsNodup, map-take_while-IsNodup,
  contains-map-sort_by, contains-map-take_while, sum_by-add, get-in_range, get-bound, position-get,
  position-any, count-modify, length-modify, get_elem?-modify_ne, get_elem?-modify_self, sort,
  dedup, sum32, sum, IsAscending, Occurs, sum32-eq, sort-IsAscending, sort-Occurs,
  dedup-IsAscending, dedup-Occurs, insert_by, sort_by, contains, sum_by-sort_by, length-sort_by,
  IsNodup, contains-sort_by, sort_by-IsNodup, sum_by-take, sum_by-const, sum_by-map, add32, sub32,
  u32_mod, saturating_add, add32-eq, sub32-eq,
}
use bluffking.Action.{PlayerAction, ok}
use bluffking.Card.{Card, Street, HoleCards}
use bluffking.Hand.State.{
  Hand, new_blind, with_forced_straddle, with_bomb_pot, with_ante, with_big_blind_ante,
  with_dead_small_blind,
}
use bluffking.Hand.Act.{apply_action_inner}
use bluffking.Hand.Start.{start}
use bluffking.Hand.Finish.{Finished, finish_blind_forfeit_board}
use bluffking.Hand.Board.{
  accepted, inject_board_for_street, inject_showdown_reveal, choose_runout, inject_second_run,
  restore_run_twice, restore_left, refused, BlindInjectError,
}

-- One call that changes a blind hand: its start, an action or a forfeit, the cards of a board, a
-- player's cards, the choice of a runout, a second board, a choice that is restored or fails to be,
-- or the end of a hand whose board is withheld, which changes the hand whatever it returns.
pub data Step : Hand → Hand → Type 0 where
  started : (h h' : Hand) → start h ≡ ok h' → Step h h'
  acted :
      (h h' : Hand) (player_id : ℕ) (action : PlayerAction) (forfeit closed : Bool)
      → apply_action_inner h player_id action forfeit ≡ ok (h', closed)
      → Step h h'
  board_given :
      (h h' : Hand) (cards : List Card) → inject_board_for_street h cards ≡ accepted h' → Step h h'
  shown :
      (h h' : Hand) (player_id : ℕ) (hole : HoleCards)
      → inject_showdown_reveal h player_id hole ≡ accepted h'
      → Step h h'
  chosen : (h h' : Hand) (twice : Bool) → choose_runout h twice ≡ accepted h' → Step h h'
  run_twice :
      (h h' : Hand) (cards : List Card) → inject_second_run h cards ≡ accepted h' → Step h h'
  restored :
      (h h' : Hand) (from : Street) (cards : List Card)
      → restore_run_twice h from cards ≡ accepted h'
      → Step h h'
  not_restored :
      (h : Hand) (from : Street) (cards : List Card) (reason : BlindInjectError)
      → restore_run_twice h from cards ≡ refused reason
      → Step h (restore_left h from)
  board_withheld :
      (h h' : Hand) (withholders : List ℕ) (result : Finished)
      → finish_blind_forfeit_board h withholders ≡ (h', result)
      → Step h h'

-- The hands that steps lead to.
pub data Reaches (first : Hand) : Hand → Type 0 where
  here : Reaches first first
  after : (h h' : Hand) → Reaches first h → Step h h' → Reaches first h'

-- The options of a hand before it starts.
pub record Options : Type 0 where
  pub straddle : ℕ
  pub bomb : ℕ
  pub ante : ℕ
  pub bba : ℕ
  pub dead_small : Bool

abbrev pub configured : Options → Hand → Hand
configured o h =
    let h' =
      with_big_blind_ante
        (with_ante (with_bomb_pot (with_forced_straddle h o.straddle) o.bomb) o.ante) o.bba in
    if o.dead_small then with_dead_small_blind h' else h'

-- A blind hand of a table, with its options.
abbrev pub blind_hand : Options → List (ℕ × ℕ × ℕ) → ℕ → ℕ → ℕ → Hand
blind_hand o players dealer_idx big_blind small_blind =
    configured o (new_blind players dealer_idx big_blind small_blind)
