-- ===== src/Settle/CardFree.antt =====
-- engine/src/game/pots.rs: the totals of the settlements that read no card.
use bluffking.Prelude.{
  ℕ, ◌<◌, ◌≡◌, refl, Bool, true, false, not, Option, none, some, List, [], ◌∷◌, arith, ◌==◌,
  if-elim, length, All, filter, sum_by, contains, IsNodup,
}
use bluffking.Round.SidePots.{SidePot, is_nil}
use bluffking.Settle.Split.{PotResult}
use bluffking.Settle.Distribute.{
  split_result, refund, lone_result, settle_uncontested, distribute_pots_uncontested,
  eligible_survivors, settle_among, distribute_pots_among_survivors,
}
use bluffking.Settle.Totals.{
  total_awarded, total_amount, awarded_of, IsPayable, settle_all-total, is_nil-length, eligible-pos,
  split_result-awarded,
}

filter-contains :
    (p : ℕ → Bool) (a : ℕ) (ids : List ℕ)
    → contains a ids ≡ false
    → contains a (filter p ids) ≡ false
unfolding filter contains
filter-contains p a [] h = refl
filter-contains p a (x ∷ ids) h = ground (arith, filter-contains p a ids (ground arith))

filter-IsNodup : (p : ℕ → Bool) (ids : List ℕ) → IsNodup ids → IsNodup (filter p ids)
unfolding filter
filter-IsNodup p [] d = tt
filter-IsNodup p (x ∷ ids) d =
    if-elim IsNodup (p x) (λ e. (filter-contains p x ids d.0, filter-IsNodup p ids d.1))
      (λ e. filter-IsNodup p ids d.1)

module _ (order : ℕ → Option ℕ) where
  refund-awarded :
      (idx : ℕ) (pot : SidePot) → IsPayable pot → awarded_of (refund order idx pot) ≡ pot.amount
  unfolding refund
  refund-awarded idx pot (small, de, dr, some_ids) =
      if-elim (λ ids. awarded_of (split_result order idx pot ids true) ≡ pot.amount)
        (is_nil pot.refund_to)
        (λ e.
          split_result-awarded order idx pot pot.eligible true small de
            (eligible-pos pot some_ids e))
        (λ e.
          split_result-awarded order idx pot pot.refund_to true small dr
            (is_nil-length pot.refund_to e))

  lone_result-awarded :
      (lone : Option ℕ) (idx : ℕ) (pot : SidePot)
      → IsPayable pot
      → awarded_of (lone_result order lone idx pot) ≡ pot.amount
  unfolding lone_result sum_by
  lone_result-awarded none idx pot h = refund-awarded idx pot h
  lone_result-awarded (some pid) idx pot h =
      if-elim (λ o. awarded_of o ≡ pot.amount) (contains pid pot.eligible) (λ e. omega arith)
        (λ e. refund-awarded idx pot h)

  uncontested-awarded :
      (lone : Option ℕ) (idx : ℕ) (pot : SidePot)
      → IsPayable pot
      → awarded_of (settle_uncontested order lone idx pot) ≡ pot.amount
  unfolding settle_uncontested
  uncontested-awarded lone idx pot h =
      let pays = λ (o : Option PotResult). awarded_of o ≡ pot.amount in
      if-elim pays (pot.amount == 0) (λ e. ground arith)
        (λ e.
          if-elim pays (not (is_nil pot.refund_to)) (λ f. refund-awarded idx pot h)
            (λ f. lone_result-awarded lone idx pot h))

  -- All the chips are paid when the hand ends without a showdown.
  pub distribute_pots_uncontested-total_awarded :
      (lone : Option ℕ) (pots : List SidePot)
      → All IsPayable pots
      → total_awarded (distribute_pots_uncontested order lone pots) ≡ total_amount pots
  unfolding distribute_pots_uncontested
  distribute_pots_uncontested-total_awarded lone pots h =
      settle_all-total IsPayable (settle_uncontested order lone) (uncontested-awarded lone) 0 pots h

  survivors-IsNodup :
      (survivors : List ℕ) (pot : SidePot)
      → IsNodup survivors
      → IsNodup pot.eligible
      → IsNodup (eligible_survivors survivors pot)
  unfolding eligible_survivors
  survivors-IsNodup survivors pot ds de =
      if-elim IsNodup (is_nil pot.eligible) (λ e. ds)
        (λ e. filter-IsNodup (λ pid. contains pid survivors) pot.eligible de)

  among-awarded :
      (survivors : List ℕ)
      → IsNodup survivors
      → (idx : ℕ) (pot : SidePot) → IsPayable pot
      → awarded_of (settle_among order survivors idx pot) ≡ pot.amount
  unfolding settle_among
  among-awarded survivors ds idx pot (small, de, dr, some_ids) =
      let pays = λ (o : Option PotResult). awarded_of o ≡ pot.amount in
      let heirs = eligible_survivors survivors pot in
      let split = λ (ids : List ℕ) (b : Bool) (d : IsNodup ids) (p : 0 < length ids).
        split_result-awarded order idx pot ids b small d p in
      if-elim pays (pot.amount == 0) (λ e. ground arith)
        (λ e.
          if-elim pays (not (is_nil pot.refund_to))
            (λ f. split pot.refund_to true dr (is_nil-length pot.refund_to (ground arith)))
            (λ f.
              if-elim pays (not (is_nil heirs))
                (λ g.
                  split heirs false (survivors-IsNodup survivors pot ds de)
                    (is_nil-length heirs (ground arith)))
                (λ g.
                  if-elim pays (not (is_nil survivors))
                    (λ k. split survivors false ds (is_nil-length survivors (ground arith)))
                    (λ k. split pot.eligible true de (eligible-pos pot some_ids (ground arith))))))

  -- All the chips are paid when the board cannot be revealed.
  pub distribute_pots_among_survivors-total_awarded :
      (survivors : List ℕ) (pots : List SidePot)
      → IsNodup survivors
      → All IsPayable pots
      → total_awarded (distribute_pots_among_survivors order survivors pots) ≡ total_amount pots
  unfolding distribute_pots_among_survivors
  distribute_pots_among_survivors-total_awarded survivors pots ds h =
      settle_all-total IsPayable (settle_among order survivors) (among-awarded survivors ds) 0 pots
        h
