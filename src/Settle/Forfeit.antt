-- ===== src/Settle/Forfeit.antt =====
-- engine/src/game/pots.rs: the forfeiters of `distribute_pots`.
use bluffking.Prelude.{
  ℕ, ◌+◌, ◌/◌, ◌%◌, ◌<◌, ◌≡◌, refl, ◌∙◌, Bool, true, false, not, ◌&&◌, Option, none, some, List, [],
  ◌∷◌, map, arith, ltb, ◌==◌, if◌then◌else◌, if-elim, length, All, keep, find, any, sum_by,
  contains-map-take_while, contains,
}
use bluffking.Card.{HoleCards, BoardCards}
use bluffking.Eval.{Evaluator, HandRank, rank_eq, rank_players}
use bluffking.Round.SidePots.{SidePot, is_nil}
use bluffking.Settle.Split.{PotWinner, PotResult, paid, odd_chip_recipients, split_pot}
use bluffking.Settle.Distribute.{
  settle_all, split_result, contenders, tied_first, showdown_winners, won_result, unreached,
  settle_pot, distribute_pots,
}
use bluffking.Settle.Contested.{ids_of, contains-ranked}

module _ (pid : ℕ) where
  -- What the player gets of one pot, and of all.
  abbrev pub won_in : List PotWinner → ℕ
  won_in = sum_by (λ w. if w.player_id == pid then w.amount_won else 0)

  abbrev pub won_by : List PotResult → ℕ
  won_by = sum_by (λ r. won_in r.winners)

  abbrev won_of : Option PotResult → ℕ
  won_of none = 0
  won_of (some r) = won_in r.winners

  keep-won :
      (o : Option PotResult) (rs : List PotResult) → won_by (keep o rs) ≡ won_of o + won_by rs
  unfolding sum_by
  keep-won none rs = omega arith
  keep-won (some r) rs = refl

  settle_all-won {κ} :
      (P : SidePot → Type κ) (settle : ℕ → SidePot → Option PotResult)
      → ((idx : ℕ) (pot : SidePot) → P pot → won_of (settle idx pot) ≡ 0)
      → (idx : ℕ) (pots : List SidePot) → All P pots
      → won_by (settle_all settle idx pots) ≡ 0
  unfolding settle_all sum_by
  settle_all-won P settle none_won idx [] h = refl
  settle_all-won P settle none_won idx (pot ∷ pots) h = omega (
    arith,
    keep-won (settle idx pot) (settle_all settle (idx + 1) pots),
    settle_all-won P settle none_won (idx + 1) pots h.1,
    none_won idx pot h.0,
  )

  paid-won :
      (base : ℕ) (odd ids : List ℕ)
      → contains pid ids ≡ false
      → won_in (map (paid base odd) ids) ≡ 0
  unfolding sum_by contains paid
  paid-won base odd [] h = refl
  paid-won base odd (x ∷ ids) h = ground (arith, paid-won base odd ids (ground arith))

  split_pot-won :
      (ids : List ℕ) (amount : ℕ) (order : ℕ → Option ℕ)
      → contains pid ids ≡ false
      → won_in (split_pot ids amount order) ≡ 0
  unfolding split_pot
  split_pot-won ids amount order h =
      paid-won (amount / length ids) (odd_chip_recipients ids (amount % length ids) order) ids h

  split_result-won :
      (order : ℕ → Option ℕ) (idx : ℕ) (pot : SidePot) (ids : List ℕ) (b : Bool)
      → contains pid ids ≡ false
      → won_of (split_result order idx pot ids b) ≡ 0
  unfolding split_result
  split_result-won order idx pot ids b h =
      if-elim (λ o. won_of o ≡ 0) (is_nil ids) (λ e. refl)
        (λ e. split_pot-won ids pot.amount order h)

  find-lacks :
      (p : ℕ × HoleCards → Bool) (with_cards rest : List (ℕ × HoleCards))
      → contains pid (ids_of with_cards) ≡ false
      → contains pid (ids_of (keep (find p with_cards) rest)) ≡ contains pid (ids_of rest)
  unfolding find contains
  find-lacks p [] rest h = refl
  find-lacks p (x ∷ xs) rest h =
      if-elim (λ o. contains pid (ids_of (keep o rest)) ≡ contains pid (ids_of rest)) (p x)
        (λ e. ground arith) (λ e. find-lacks p xs rest (ground arith))

  contenders-lacks :
      (with_cards : List (ℕ × HoleCards)) (ids : List ℕ)
      → contains pid (ids_of with_cards) ≡ false
      → contains pid (ids_of (contenders with_cards ids)) ≡ false
  unfolding contenders contains
  contenders-lacks with_cards [] h = refl
  contenders-lacks with_cards (x ∷ ids) h =
      find-lacks (λ y. y.0 == x) with_cards (contenders with_cards ids) h
      ∙ contenders-lacks with_cards ids h

  tied_first-lacks :
      (ranked : List (ℕ × HandRank))
      → contains pid (ids_of ranked) ≡ false
      → contains pid (tied_first ranked) ≡ false
  unfolding tied_first
  tied_first-lacks [] h = h
  tied_first-lacks (x ∷ xs) h =
      contains-map-take_while (λ y. y.0) (λ y. rank_eq y.1 x.1) pid (x ∷ xs) h

  showdown_winners-won :
      (ev : Evaluator) (order : ℕ → Option ℕ) (board : BoardCards) (cs : List (ℕ × HoleCards))
      (amount : ℕ)
      → contains pid (ids_of cs) ≡ false
      → won_in (showdown_winners ev order board cs amount) ≡ 0
  unfolding showdown_winners sum_by contains
  showdown_winners-won ev order board [] amount h = refl
  showdown_winners-won ev order board (c ∷ []) amount h = ground arith
  showdown_winners-won ev order board (c ∷ d ∷ cs) amount h =
      let ranked = rank_players ev (c ∷ d ∷ cs) board in
      split_pot-won (tied_first ranked) amount order
        (tied_first-lacks ranked (contains-ranked ev board pid (c ∷ d ∷ cs) ∙ h))

  any-contains :
      (p : ℕ → Bool) (ids : List ℕ) → p pid ≡ true → any p ids ≡ false → contains pid ids ≡ false
  unfolding any contains
  any-contains p [] h e = refl
  any-contains p (x ∷ ids) h e = grind (arith, any-contains p ids h)

  module _ (ev : Evaluator) (order : ℕ → Option ℕ) (board : BoardCards)
      (with_cards : List (ℕ × HoleCards)) (forfeiters : ℕ → Bool) where
    unreached-won :
        (idx : ℕ) (pot : SidePot)
        → forfeiters pid ≡ true
        → 0 < length with_cards
        → contains pid (ids_of with_cards) ≡ false
        → won_of (unreached ev order board with_cards forfeiters idx pot) ≡ 0
    unfolding unreached won_result
    unreached-won idx pot f p h =
        if-elim (λ o. won_of o ≡ 0) (any forfeiters pot.eligible && ltb 0 (length with_cards))
          (λ e. showdown_winners-won ev order board with_cards pot.amount h)
          (λ e.
            split_result-won order idx pot pot.eligible true
              (any-contains forfeiters pot.eligible f (ground arith)))

    settle_pot-won :
        forfeiters pid ≡ true
        → 0 < length with_cards
        → contains pid (ids_of with_cards) ≡ false
        → (idx : ℕ) (pot : SidePot) → contains pid pot.refund_to ≡ false
        → won_of (settle_pot ev order board with_cards forfeiters idx pot) ≡ 0
    unfolding settle_pot won_result
    settle_pot-won f p h idx pot r =
        let cs = contenders with_cards pot.eligible in
        let nothing = λ (o : Option PotResult). won_of o ≡ 0 in
        if-elim nothing (pot.amount == 0) (λ e. refl)
          (λ e.
            if-elim nothing (not (is_nil pot.refund_to))
              (λ g. split_result-won order idx pot pot.refund_to true r)
              (λ g.
                if-elim nothing (length cs == 0) (λ k. unreached-won idx pot f p h)
                  (λ k.
                    showdown_winners-won ev order board cs pot.amount
                      (contenders-lacks with_cards pot.eligible h))))

    -- A player who forfeits the showdown, without cards, wins nothing of the pots that are not
    -- refunded to that player, as long as somebody shows cards.
    pub distribute_pots-won_by :
        (pots : List SidePot)
        → forfeiters pid ≡ true
        → contains pid (ids_of with_cards) ≡ false
        → 0 < length with_cards
        → All (λ pot. contains pid pot.refund_to ≡ false) pots
        → won_by (distribute_pots ev order board with_cards forfeiters pots) ≡ 0
    unfolding distribute_pots
    distribute_pots-won_by pots f h p r =
        settle_all-won (λ pot. contains pid pot.refund_to ≡ false)
          (settle_pot ev order board with_cards forfeiters) (settle_pot-won f p h) 0 pots r
