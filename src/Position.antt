-- ===== src/Position.antt =====
-- engine/src/player.rs: the positions of players at the table.
pub mod Distinct
mod Tests
use bluffking.Prelude.{
  ℕ, zero, suc, ◌+◌, ◌-◌, ◌*◌, ◌/◌, ◌%◌, ◌≤◌, ◌<◌, min, max, ◌≡◌, refl, sym, ap, subst, ◌∙◌, ◌≢◌,
  ◌↔◌, ◌⊎◌, inl, inr, Bool, true, false, not, ◌&&◌, ◌||◌, Option, none, some, List, [], ◌∷◌, ◌++◌,
  map, arith, ltb, leb, ◌==◌, if◌then◌else◌, if-elim, Bool-cases, Option-cases, ==_iff, ==_self,
  length, get_elem?, All, length-append, keep, length-map, All-append, All-if, modify, find,
  position, any, all, filter, count, sum_by, map-filter-IsNodup, sort_by-All, IsSorted,
  sort_by-IsSorted, filter-sort_by, take_while-filter, take, take_while, map-sort_by-IsNodup,
  map-take_while-IsNodup, contains-map-sort_by, contains-map-take_while, sum_by-add, get-in_range,
  get-bound, position-get, position-any, count-modify, length-modify, get_elem?-modify_ne,
  get_elem?-modify_self, sort, dedup, sum32, sum, IsAscending, Occurs, sum32-eq, sort-IsAscending,
  sort-Occurs, dedup-IsAscending, dedup-Occurs, insert_by, sort_by, contains, sum_by-sort_by,
  length-sort_by, IsNodup, contains-sort_by, sort_by-IsNodup, sum_by-take, sum_by-const, sum_by-map,
  add32, sub32, u32_mod, saturating_add, add32-eq, sub32-eq,
}

pub data Position : Type 0 where
  dealer : Position
  small_blind : Position
  big_blind : Position
  utg : Position
  utg_plus1 : Position
  utg_plus2 : Position
  lojack : Position
  hijack : Position
  cutoff : Position

-- The label at a distance from the dealer among 6 and more players.
unfoldable pub ring_label : ℕ → ℕ → Position
ring_label num dist =
    if dist == 0
    then dealer
    else if dist == 1
    then small_blind
    else if dist == 2
    then big_blind
    else if dist == num - 1
    then cutoff
    else if dist == num - 2
    then hijack
    else if dist == 3
    then utg
    else if dist == 4
    then utg_plus1
    else if dist == 5
    then utg_plus2
    else lojack

-- The label at a distance from the dealer.
unfoldable pub label : ℕ → ℕ → Position
label num dist =
    if num == 2
    then (if dist == 0 then small_blind else big_blind)
    else if num == 3
    then (if dist == 0 then dealer else if dist == 1 then small_blind else big_blind)
    else if num == 4
    then (if dist == 0
        then dealer
        else if dist == 1
        then small_blind
        else if dist == 2
        then big_blind
        else utg)
    else if num == 5
    then (if dist == 0
        then dealer
        else if dist == 1
        then small_blind
        else if dist == 2
        then big_blind
        else if dist == 3
        then utg
        else cutoff)
    else ring_label num dist

-- How far clockwise `seat_rank` is from `dealer_rank` among `n` seats.
unfoldable pub distance : ℕ → ℕ → ℕ → ℕ
distance n dealer_rank seat_rank = (seat_rank + n - dealer_rank) % n

-- The ranks in the list, where both are known.
abbrev pub label_of : ℕ → Option ℕ → Option ℕ → Position
label_of n none seat_rank = dealer
label_of n (some d) none = dealer
label_of n (some d) (some s) = label (n % 256) (distance n d s % 256)

-- `Position::for_seat`
unfoldable pub for_seat : ℕ → ℕ → List ℕ → Position
for_seat seat dealer_seat active_seats =
    let n = length active_seats in
    if leb n 1
    then dealer
    else label_of n (position (λ s. s == dealer_seat) active_seats)
        (position (λ s. s == seat) active_seats)
