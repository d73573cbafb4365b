-- ===== src/History.antt =====
-- engine/src/action.rs, engine/src/game/actions.rs and engine/src/game/pots.rs: the record of a hand's
-- actions, the facts of a street, and the order in which hands are shown.
pub mod Facts
pub mod ShowOrder
pub mod LastRaise
pub mod Start
mod Tests
use mathlib.Core.Option
use bluffking.Prelude.{
  ℕ, zero, suc, ◌+◌, ◌-◌, ◌*◌, ◌/◌, ◌%◌, ◌≤◌, ◌<◌, min, max, ◌≡◌, refl, sym, ap, subst, ◌∙◌, ◌≢◌,
  ◌↔◌, ◌⊎◌, inl, inr, Bool, true, false, not, ◌&&◌, ◌||◌, Option, none, some, List, [], ◌∷◌, ◌++◌,
  map, arith, ltb, leb, ◌==◌, if◌then◌else◌, if-elim, Bool-cases, Option-cases, ==_iff, ==_self,
  length, get_elem?, All, length-append, keep, length-map, All-append, All-if, modify, find,
  position, any, all, filter, count, sum_by, map-filter-IsNodup, sort_by-All, IsSorted,
  sort_by-IsSorted, filter-sort_by, take_while-filter, take, take_while, map-sort_by-IsNodup,
  map-take_while-IsNodup, contains-map-sort_by, contains-map-take_while, sum_by-add, get-in_range,
  get-bound, position-get, position-any, count-modify, length-modify, get_elem?-modify_ne,
  get_elem?-modify_self, sort, dedup, sum32, sum, IsAscending, Occurs, sum32-eq, sort-IsAscending,
  sort-Occurs, dedup-IsAscending, dedup-Occurs, insert_by, sort_by, contains, sum_by-sort_by,
  length-sort_by, IsNodup, contains-sort_by, sort_by-IsNodup, sum_by-take, sum_by-const, sum_by-map,
  add32, sub32, u32_mod, saturating_add, add32-eq, sub32-eq,
}
use bluffking.Action.{PlayerAction, fold, check, call, raise, all_in, blind}
use bluffking.Card.{Street, preflop, flop, turn, river}
use bluffking.Settle.Seat.{HandSeat, is_in}

pub record ActionRecord : Type 0 where
  pub seq : ℕ
  pub street : Street
  pub player_id : ℕ
  pub action : PlayerAction
  pub amount : ℕ
  pub stack_before : ℕ
  pub stack_after : ℕ
  pub pot_before : ℕ
  pub pot_after : ℕ

pub record StreetActionFact : Type 0 where
  pub player_id : ℕ
  pub action : PlayerAction
  pub amount : ℕ
  pub committed_to : ℕ
  pub to_call_before : ℕ
  pub pot_before : ℕ
  pub increased_bet : Bool
  pub full_raise : Bool

-- The derived `==` of streets.
abbrev pub street_index : Street → ℕ
street_index preflop = 0
street_index flop = 1
street_index turn = 2
street_index river = 3

abbrev pub is_blind : PlayerAction → Bool
is_blind (blind kind amount) = true
is_blind _ = false

abbrev pub aggressive_shape : PlayerAction → Bool
aggressive_shape (raise amount) = true
aggressive_shape all_in = true
aggressive_shape _ = false

-- What each player has committed after a record.
abbrev pub commit : ActionRecord → ℕ → (ℕ → ℕ) → ℕ → ℕ
commit r committed committed_by pid = if pid == r.player_id then committed else committed_by pid

-- The loop over the records of a street, from the bet, the last full raise and what each player has
-- committed. `none` stands for the panic of `checked_add(..).expect(..)`.
unfoldable pub replay : ℕ → ℕ → (ℕ → ℕ) → List ActionRecord → Option (List StreetActionFact)
replay current_bet last_full_raise committed_by [] = some []
replay current_bet last_full_raise committed_by (r ∷ records) =
    let before = committed_by r.player_id in
    let committed = before + r.amount in
    let increased = aggressive_shape r.action && ltb current_bet committed in
    let raise_delta = committed - current_bet in
    let full = increased && leb last_full_raise raise_delta in
    let skipped = replay current_bet last_full_raise (commit r committed committed_by) records in
    let rest =
      replay (if increased then committed else current_bet)
        (if full then raise_delta else last_full_raise) (commit r committed committed_by) records in
    let fact : StreetActionFact = record {
      player_id = r.player_id;
      action = r.action;
      amount = r.amount;
      committed_to = committed;
      to_call_before = current_bet - before;
      pot_before = r.pot_before;
      increased_bet = increased;
      full_raise = full;
    } in
    if leb 4294967296 committed
    then none
    else if is_blind r.action
    then skipped
    else Option.map (λ facts. fact ∷ facts) rest

module _ (preflop_bring_in big_blind : ℕ) (actions : List ActionRecord) where
  -- `street_action_facts`
  unfoldable pub street_action_facts : Street → Option (List StreetActionFact)
  street_action_facts street =
      let is_preflop = street_index street == 0 in
      let bring_in = max preflop_bring_in big_blind in
      replay (if is_preflop then bring_in else 0) (if is_preflop then bring_in else big_blind)
        (λ pid. 0) (filter (λ r. street_index r.street == street_index street) actions)

  -- `.into_iter().rev().find(|fact| fact.increased_bet)`: the last such fact.
  unfoldable pub last_increase : List StreetActionFact → Option ℕ
  last_increase [] = none
  last_increase (f ∷ facts) = elim (last_increase facts) [
    | some pid ↦ some pid
    | none ↦ if f.increased_bet then some f.player_id else none
  ]

  unfoldable pub last_betting_street : Option Street
  last_betting_street =
      find (λ street. any (λ r. street_index r.street == street_index street) actions)
        (river ∷ turn ∷ flop ∷ preflop ∷ [])

  -- The player who raised the bet last on a street, if any.
  unfoldable pub aggressor_on : Option Street → Option (Option ℕ)
  aggressor_on none = some none
  aggressor_on (some street) = Option.map last_increase (street_action_facts street)

  unfoldable pub last_aggressor : Option (Option ℕ)
  last_aggressor = aggressor_on last_betting_street

-- The seats from an index on, and whether the one at an index folded; `none` is out of bounds.
abbrev pub folded_at : List HandSeat → ℕ → Bool
folded_at seats idx = elim (get_elem? seats idx) [ none ↦ false | some s ↦ s.folded ]

-- The search for the first seat that did not fold, at most `k` steps from `idx`.
unfoldable pub first_in : List HandSeat → ℕ → ℕ → ℕ
first_in seats zero idx = idx
first_in seats (suc k) idx =
    let rest = first_in seats k ((idx + 1) % length seats) in
    if folded_at seats idx then rest else idx

-- The walk of at most `k` steps from `idx`, until `left` more players are named.
unfoldable pub walk : List HandSeat → ℕ → ℕ → ℕ → List ℕ
walk seats zero idx left = []
walk seats (suc k) idx left =
    let next = (idx + 1) % length seats in
    elim (get_elem? seats idx) [
      | none ↦ []
      | some s ↦
          if s.folded
          then (if left == 0 then [] else walk seats k next left)
          else s.player_id ∷ (if left == 1 then [] else walk seats k next (left - 1))
    ]

-- Where the order starts, given the last aggressor.
abbrev pub start_index : List HandSeat → ℕ → Option ℕ → ℕ
start_index seats dealer_idx none =
    first_in seats (length seats) ((dealer_idx % length seats + 1) % length seats)
start_index seats dealer_idx (some pid) = elim (position (λ s. s.player_id == pid) seats) [
  | none ↦ (dealer_idx % length seats + 1) % length seats
  | some idx ↦ idx
]

-- `compute_show_order`
unfoldable pub compute_show_order : ℕ → ℕ → List ActionRecord → List HandSeat → ℕ → Option (List ℕ)
compute_show_order preflop_bring_in big_blind actions seats dealer_idx =
    let alive_count = count is_in seats in
    if leb alive_count 1
    then some []
    else Option.map
        (λ aggressor.
          walk seats (length seats) (start_index seats dealer_idx aggressor) alive_count)
        (last_aggressor preflop_bring_in big_blind actions)
