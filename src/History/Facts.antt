-- ===== src/History/Facts.antt =====
-- engine/src/game/actions.rs: `street_action_facts` and its `checked_add`.
use mathlib.Core.Option
use bluffking.Prelude.{
  ℕ, ◌+◌, ◌≤◌, ◌<◌, ◌≡◌, refl, ap, Bool, false, Option, none, some, List, [], ◌∷◌, arith, leb, ◌==◌,
  if-elim, filter, sum_by, u32_mod,
}
use bluffking.Card.{Street}
use bluffking.History.{
  ActionRecord, StreetActionFact, is_blind, commit, replay, street_index, street_action_facts,
  last_increase, last_betting_street, aggressor_on, last_aggressor,
}

-- The chips of the records.
abbrev pub recorded : List ActionRecord → ℕ
recorded = sum_by (λ r. r.amount)

-- The replay goes through.
abbrev IsReplayed : Option (List StreetActionFact) → Type 0
IsReplayed o = (facts : List StreetActionFact) × (o ≡ some facts)

IsReplayed-map :
    (f : StreetActionFact) (o : Option (List StreetActionFact))
    → IsReplayed o
    → IsReplayed (Option.map (λ facts. f ∷ facts) o)
IsReplayed-map f o (facts, e) = (f ∷ facts, ap (Option.map (λ fs. f ∷ fs)) e)

replay-IsReplayed :
    (current_bet last_full_raise : ℕ) (committed_by : ℕ → ℕ) (records : List ActionRecord)
    → ((pid : ℕ) → committed_by pid + recorded records < u32_mod)
    → IsReplayed (replay current_bet last_full_raise committed_by records)
unfolding replay sum_by
replay-IsReplayed current_bet last_full_raise committed_by [] h = ([], refl)
replay-IsReplayed current_bet last_full_raise committed_by (r ∷ records) h =
    let committed = committed_by r.player_id + r.amount in
    let fits : leb 4294967296 committed ≡ false = ground (arith, h r.player_id) in
    let later = λ (bet full : ℕ).
      replay-IsReplayed bet full (commit r committed committed_by) records
        (λ pid. ground (arith, h pid, h r.player_id)) in
    rw fits (
      if-elim IsReplayed (is_blind r.action) (λ e. later current_bet last_full_raise)
        (λ e. IsReplayed-map _ _ (later _ _)))

filter-recorded :
    (p : ActionRecord → Bool) (records : List ActionRecord)
    → recorded (filter p records) ≤ recorded records
unfolding filter sum_by
filter-recorded p [] = omega arith
filter-recorded p (r ∷ records) = ground (arith, filter-recorded p records)

module _ (preflop_bring_in big_blind : ℕ) (actions : List ActionRecord)
    (h : recorded actions < u32_mod) where
  aggressor_on-some :
      (street : Option Street)
      → (aggressor : Option ℕ) × (aggressor_on preflop_bring_in big_blind actions street
          ≡ some aggressor)
  unfolding aggressor_on street_action_facts
  aggressor_on-some none = (none, refl)
  aggressor_on-some (some street) =
      let on_street =
        filter (λ (r : ActionRecord). street_index r.street == street_index street) actions in
      let (facts, e) =
        replay-IsReplayed _ _ (λ pid. 0) on_street
          (λ pid. omega (
            arith,
            filter-recorded (λ r. street_index r.street == street_index street) actions,
            h,
          )) in
      (
        last_increase preflop_bring_in big_blind actions facts,
        ap (Option.map (last_increase preflop_bring_in big_blind actions)) e,
      )

  -- While the chips of all records fit into a `u32`, there is an answer to who raised last.
  pub last_aggressor-some :
      (aggressor : Option ℕ) × (last_aggressor preflop_bring_in big_blind actions ≡ some aggressor)
  unfolding last_aggressor
  last_aggressor-some = aggressor_on-some (last_betting_street preflop_bring_in big_blind actions)
