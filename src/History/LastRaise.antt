-- ===== src/History/LastRaise.antt =====
-- engine/src/game/pots.rs: who raised last, as `compute_show_order` finds it.
use mathlib.Core.Option.{some-injective}
use bluffking.Prelude.{
  ℕ, ◌+◌, ◌≤◌, ◌≡◌, refl, sym, ap, subst, ◌⊎◌, inl, inr, Bool, true, false, Option, none, some,
  List, [], ◌∷◌, ◌++◌, arith, ◌==◌, if◌then◌else◌, if-elim, Option-cases, All, find, any,
}
use bluffking.Card.{Street, preflop, flop, turn, river}
use bluffking.History.{
  ActionRecord, StreetActionFact, street_index, street_action_facts, last_increase,
  last_betting_street, aggressor_on, last_aggressor,
}

-- The records of a street.
abbrev on_street : Street → ActionRecord → Bool
on_street s r = street_index r.street == street_index s

-- A street that has a record, as no later one has.
abbrev pub IsLastStreet : List ActionRecord → Street → Type 0
IsLastStreet actions s =
    (any (λ (r : ActionRecord). street_index r.street == street_index s) actions ≡ true)
    × All (λ (r : ActionRecord). street_index r.street ≤ street_index s) actions

-- The player of the last of the facts that raised the bet, if any did.
abbrev pub IsLastIncrease : List StreetActionFact → Option ℕ → Type 0
IsLastIncrease facts none = All (λ (f : StreetActionFact). f.increased_bet ≡ false) facts
IsLastIncrease facts (some pid) =
    (before : List StreetActionFact) × (f : StreetActionFact) × (later : List StreetActionFact)
    × (facts ≡ before ++ (f ∷ later))
    × (f.increased_bet ≡ true)
    × (f.player_id ≡ pid)
    × All (λ (g : StreetActionFact). g.increased_bet ≡ false) later

module _ (preflop_bring_in big_blind : ℕ) (actions : List ActionRecord) where
  -- The player who raised last on the last street that was bet on.
  abbrev pub IsLastRaiser : Option ℕ → Type 0
  IsLastRaiser raiser =
      ((actions ≡ []) × (raiser ≡ none))
      ⊎ ((street : Street) × (facts : List StreetActionFact) × IsLastStreet actions street
          × (street_action_facts preflop_bring_in big_blind actions street ≡ some facts)
          × IsLastIncrease facts raiser)

  last_increase-IsLastIncrease :
      (facts : List StreetActionFact)
      → IsLastIncrease facts (last_increase preflop_bring_in big_blind actions facts)
  unfolding last_increase
  last_increase-IsLastIncrease [] = tt
  last_increase-IsLastIncrease (f ∷ facts) =
      extend f facts (last_increase preflop_bring_in big_blind actions facts)
        (last_increase-IsLastIncrease facts)
    where
      extend :
          (f : StreetActionFact) (facts : List StreetActionFact) (later : Option ℕ)
          → IsLastIncrease facts later
          → IsLastIncrease (f ∷ facts) (elim later [
            | some pid ↦ some pid
            | none ↦ if f.increased_bet then some f.player_id else none
          ])
      extend f facts (some pid) (before, g, rest, split, raised, same, quiet) =
          (f ∷ before, g, rest, ap (λ gs. f ∷ gs) split, raised, same, quiet)
      extend f facts none quiet =
          if-elim (IsLastIncrease (f ∷ facts)) f.increased_bet
            (λ raised. ([], f, facts, refl, raised, refl, quiet)) (λ called. (called, quiet))

any-All :
    (p : ActionRecord → Bool) (rs : List ActionRecord)
    → any p rs ≡ false
    → All (λ r. p r ≡ false) rs
unfolding any
any-All p [] e = tt
any-All p (r ∷ rs) e = (ground (arith, e), any-All p rs (ground (arith, e)))

-- No record of street `k + 1`, and none of a later one.
All-lower :
    (k : ℕ) (rs : List ActionRecord)
    → All (λ (r : ActionRecord). street_index r.street ≤ k + 1) rs
    → All (λ (r : ActionRecord). (street_index r.street == (k + 1)) ≡ false) rs
    → All (λ (r : ActionRecord). street_index r.street ≤ k) rs
All-lower k [] low other = tt
All-lower k (r ∷ rs) low other = (ground (arith, low.0, other.0), All-lower k rs low.1 other.1)

street_index-bound : (s : Street) → street_index s ≤ 3
street_index-bound preflop = omega arith
street_index-bound flop = omega arith
street_index-bound turn = omega arith
street_index-bound river = omega arith

All-bound : (rs : List ActionRecord) → All (λ (r : ActionRecord). street_index r.street ≤ 3) rs
All-bound [] = tt
All-bound (r ∷ rs) = (street_index-bound r.street, All-bound rs)

no_records :
    (rs : List ActionRecord)
    → All (λ (r : ActionRecord). street_index r.street ≤ 0) rs
    → All (λ (r : ActionRecord). (street_index r.street == 0) ≡ false) rs
    → rs ≡ []
no_records [] low other = refl
no_records (r ∷ rs) low other = absurd (ground (arith, low.0, other.0))

-- `last_betting_street` finds the last street with a record.
abbrev LastStreet : List ActionRecord → Option Street → Type 0
LastStreet actions none = actions ≡ []
LastStreet actions (some s) = IsLastStreet actions s

last_betting_street-LastStreet :
    (bring_in big_blind : ℕ) (rs : List ActionRecord)
    → LastStreet rs (last_betting_street bring_in big_blind rs)
unfolding last_betting_street find
last_betting_street-LastStreet bring_in big_blind rs =
    let at_most_river = All-bound rs in
    if-elim (LastStreet rs) (any (on_street river) rs) (λ hit. (hit, at_most_river))
      (λ no_river.
        let at_most_turn = All-lower 2 rs at_most_river (any-All (on_street river) rs no_river) in
        if-elim (LastStreet rs) (any (on_street turn) rs) (λ hit. (hit, at_most_turn))
          (λ no_turn.
            let at_most_flop = All-lower 1 rs at_most_turn (any-All (on_street turn) rs no_turn) in
            if-elim (LastStreet rs) (any (on_street flop) rs) (λ hit. (hit, at_most_flop))
              (λ no_flop.
                let only_preflop =
                  All-lower 0 rs at_most_flop (any-All (on_street flop) rs no_flop) in
                if-elim (LastStreet rs) (any (on_street preflop) rs) (λ hit. (hit, only_preflop))
                  (λ no_preflop.
                    no_records rs only_preflop (any-All (on_street preflop) rs no_preflop)))))

module _ (preflop_bring_in big_blind : ℕ) (actions : List ActionRecord) where
  -- The player that `last_aggressor` answers with is the last one to raise.
  pub last_aggressor-IsLastRaiser :
      (raiser : Option ℕ)
      → last_aggressor preflop_bring_in big_blind actions ≡ some raiser
      → IsLastRaiser preflop_bring_in big_blind actions raiser
  unfolding last_aggressor aggressor_on
  last_aggressor-IsLastRaiser raiser e =
      on_last (last_betting_street preflop_bring_in big_blind actions)
        (last_betting_street-LastStreet preflop_bring_in big_blind actions) e
    where
      on_last :
          (street : Option Street)
          → LastStreet actions street
          → aggressor_on preflop_bring_in big_blind actions street ≡ some raiser
          → IsLastRaiser preflop_bring_in big_blind actions raiser
      on_last none empty e = inl (empty, sym (some-injective none raiser e))
      on_last (some street) last e =
          elim (Option-cases (street_action_facts preflop_bring_in big_blind actions street)) [
            | inl panics ↦ absurd (ground (arith, rw panics at e))
            | inr (facts, replayed) ↦
                let found = last_increase preflop_bring_in big_blind actions facts in
                let same : found ≡ raiser = some-injective found raiser (rw replayed at e) in
                inr (
                  street,
                  facts,
                  last,
                  replayed,
                  subst (IsLastIncrease facts) same
                      (last_increase-IsLastIncrease preflop_bring_in big_blind actions facts),
                )
          ]
