-- ===== src/Settle/RunTotals.antt =====
-- engine/src/game/pots.rs: the total of two runs of a board.
use bluffking.Prelude.{
  ℕ, ◌+◌, ◌<◌, ◌≡◌, refl, sym, ap, subst, ◌∙◌, Bool, true, false, Option, none, some, List, [], ◌∷◌,
  map, arith, ◌==◌, All, keep, find, sum_by, IsNodup, sum_by-map, u32_mod,
}
use bluffking.Card.{HoleCards, BoardCards}
use bluffking.Eval.{Evaluator}
use bluffking.Round.SidePots.{SidePot}
use bluffking.Settle.Split.{PotResult}
use bluffking.Settle.OddChips.{awarded}
use bluffking.Settle.Distribute.{
  settle_all, split_result, won_result, unreached, settle_pot, distribute_pots,
}
use bluffking.Settle.Contested.{ids_of, settle_pot-awarded, distribute_pots-total_awarded}
use bluffking.Settle.Totals.{total_awarded, total_amount, awarded_of, IsPayable, keep-total}
use bluffking.Settle.RunTwice.{
  second_amount, first_half, second_half, split_pots_for_two_runs, credit_all, winners_of,
  merge_result, merge_run_pots, halves-amount, halves-IsPayable, credit_all-awarded,
}

abbrev at_index : ℕ → PotResult → Bool
at_index i r = r.index == i

-- A settlement numbers its result.
abbrev IsNumbered : (ℕ → SidePot → Option PotResult) → Type 0
IsNumbered settle =
    (idx : ℕ) (pot : SidePot) (r : PotResult) → settle idx pot ≡ some r → r.index ≡ idx

-- What the winners of a result get with those of the other run.
abbrev with_run : List PotResult → PotResult → ℕ
with_run second r = awarded (credit_all (winners_of (find (at_index r.index) second)) r.winners)

keep-All {κ} :
    (P : PotResult → Type κ) (o : Option PotResult) (rs : List PotResult)
    → ((r : PotResult) → o ≡ some r → P r)
    → All P rs
    → All P (keep o rs)
keep-All P none rs h k = k
keep-All P (some r) rs h k = (h r refl, k)

module _ (settle : ℕ → SidePot → Option PotResult) (numbered : IsNumbered settle) where
  settle_all-later :
      (i idx : ℕ) (pots : List SidePot)
      → i < idx
      → All (λ r. i < r.index) (settle_all settle idx pots)
  unfolding settle_all
  settle_all-later i idx [] h = tt
  settle_all-later i idx (p ∷ pots) h =
      keep-All (λ r. i < r.index) (settle idx p) (settle_all settle (idx + 1) pots)
        (λ r e. omega (arith, numbered idx p r e)) (settle_all-later i (idx + 1) pots (omega arith))

find-later : (i : ℕ) (rs : List PotResult) → All (λ r. i < r.index) rs → find (at_index i) rs ≡ none
unfolding find
find-later i [] h = refl
find-later i (r ∷ rs) h = ground (arith, h.0, find-later i rs h.1)

-- A result of another pot does not matter.
with_run-skip :
    (o : Option PotResult) (i : ℕ) (second rs : List PotResult)
    → ((r : PotResult) → o ≡ some r → r.index ≡ i)
    → All (λ r. i < r.index) rs
    → sum_by (with_run (keep o second)) rs ≡ sum_by (with_run second) rs
unfolding sum_by find
with_run-skip none i second rs e h = refl
with_run-skip (some s) i second [] e h = refl
with_run-skip (some s) i second (r ∷ rs) e h =
    let differ : (s.index == r.index) ≡ false = ground (arith, e s refl, h.0) in
    rw differ (ap (λ n. with_run second r + n) (with_run-skip (some s) i second rs e h.1))

-- The merged awards of a pot: those of both runs, where the second has none without the first.
with_run-now :
    (o o' : Option PotResult) (i : ℕ) (first second : List PotResult)
    → ((r : PotResult) → o ≡ some r → r.index ≡ i)
    → ((r : PotResult) → o' ≡ some r → r.index ≡ i)
    → (o ≡ none → o' ≡ none)
    → All (λ r. i < r.index) first
    → All (λ r. i < r.index) second
    → awarded_of o + awarded_of o' < u32_mod
    → sum_by (with_run (keep o' second)) (keep o first)
      ≡ awarded_of o + awarded_of o' + sum_by (with_run second) first
unfolding sum_by find credit_all
with_run-now none none i first second e e' n h h' b = omega arith
with_run-now none (some s) i first second e e' n h h' b = let bad : some s ≡ none = n refl in cc
with_run-now (some r) none i first second e e' n h h' b =
    let absent =
      subst (λ j. find (at_index j) second ≡ none) (sym (e r refl)) (find-later i second h') in
    rw absent (omega arith)
with_run-now (some r) (some s) i first second e e' n h h' b =
    let same : (s.index == r.index) ≡ true = ground (arith, e r refl, e' s refl) in
    rw same (
      omega (
        arith,
        credit_all-awarded s.winners r.winners (omega (arith, b)),
        with_run-skip (some s) i second first e' h,
      ))

module _ (first_run second_run : ℕ → SidePot → Option PotResult)
    (first_numbered : IsNumbered first_run) (second_numbered : IsNumbered second_run)
    (P : SidePot → Type 0)
    (dropped : (idx : ℕ) (pot : SidePot)
      → P pot
      → first_run idx (first_half pot) ≡ none
      → second_run idx (second_half pot) ≡ none) where
  runs_total :
      (idx : ℕ) (pots : List SidePot)
      → All P pots
      → total_awarded (settle_all first_run idx (map first_half pots))
          + total_awarded (settle_all second_run idx (map second_half pots))
        < u32_mod
      → sum_by
          (with_run (settle_all second_run idx (map second_half pots)))
          (settle_all first_run idx (map first_half pots))
        ≡ total_awarded (settle_all first_run idx (map first_half pots))
          + total_awarded (settle_all second_run idx (map second_half pots))
  unfolding settle_all sum_by
  runs_total idx [] h b = refl
  runs_total idx (p ∷ pots) h b =
      let o = first_run idx (first_half p) in
      let o' = second_run idx (second_half p) in
      let first = settle_all first_run (idx + 1) (map first_half pots) in
      let second = settle_all second_run (idx + 1) (map second_half pots) in
      let one = keep-total o first in
      let two = keep-total o' second in
      let now =
        with_run-now o o' idx first second (first_numbered idx (first_half p))
          (second_numbered idx (second_half p)) (dropped idx p h.0)
          (settle_all-later first_run first_numbered idx (idx + 1) (map first_half pots)
            (omega arith))
          (settle_all-later second_run second_numbered idx (idx + 1) (map second_half pots)
            (omega arith))
          (omega (arith, one, two, b)) in
      omega (arith, one, two, now, runs_total (idx + 1) pots h.1 (omega (arith, one, two, b)))

module _ (ev : Evaluator) (order : ℕ → Option ℕ) (with_cards : List (ℕ × HoleCards))
    (forfeiters : ℕ → Bool) where
  settle_pot-IsNumbered :
      (board : BoardCards) → IsNumbered (settle_pot ev order board with_cards forfeiters)
  unfolding settle_pot unreached won_result split_result
  settle_pot-IsNumbered board idx pot r e = ground arith

  settle_pot-dropped :
      (board board' : BoardCards)
      → IsNodup (ids_of with_cards)
      → (idx : ℕ) (pot : SidePot) → IsPayable pot
      → settle_pot ev order board with_cards forfeiters idx (first_half pot) ≡ none
      → settle_pot ev order board' with_cards forfeiters idx (second_half pot) ≡ none
  unfolding settle_pot first_half second_half second_amount
  settle_pot-dropped board board' d idx pot h e =
      let half = (halves-IsPayable (pot ∷ []) (h, tt)).0.0 in
      let paid =
        settle_pot-awarded ev order board with_cards forfeiters d idx (first_half pot) half in
      let nothing : 0 ≡ (first_half pot).amount = rw e at paid in
      let zero : (second_amount pot == 0) ≡ true = ground (arith, nothing) in rw zero refl

  -- With a board that is run twice, the merged awards of both runs are all the chips of the pots.
  pub merge_run_pots-total_awarded :
      (board second_board : BoardCards) (pots : List SidePot)
      → IsNodup (ids_of with_cards)
      → All IsPayable pots
      → total_amount pots < u32_mod
      → total_awarded (
          merge_run_pots pots
            (distribute_pots ev order board with_cards forfeiters (split_pots_for_two_runs pots).0)
            (distribute_pots ev order second_board with_cards forfeiters
              (split_pots_for_two_runs pots).1))
        ≡ total_amount pots
  unfolding merge_run_pots merge_result split_pots_for_two_runs distribute_pots
  merge_run_pots-total_awarded board second_board pots d h b =
      let firsts = settle_pot ev order board with_cards forfeiters in
      let seconds = settle_pot ev order second_board with_cards forfeiters in
      let first = settle_all firsts 0 (map first_half pots) in
      let second = settle_all seconds 0 (map second_half pots) in
      let halves = halves-IsPayable pots h in
      let one =
        distribute_pots-total_awarded ev order board with_cards forfeiters (map first_half pots) d
          halves.0 in
      let two =
        distribute_pots-total_awarded ev order second_board with_cards forfeiters
          (map second_half pots) d halves.1 in
      let all_of = halves-amount pots in
      let runs =
        runs_total firsts seconds (settle_pot-IsNumbered board) (settle_pot-IsNumbered second_board)
          IsPayable (settle_pot-dropped board second_board d) 0 pots h
          (omega (arith, one, two, all_of, b)) in
      sum_by-map (merge_result pots second) (λ r. awarded r.winners) first
      ∙ omega (arith, runs, one, two, all_of)
