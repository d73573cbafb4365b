-- ===== src/Settle/Contested.antt =====
-- engine/src/game/pots.rs: the total of `distribute_pots`.
use bluffking.Prelude.{
  contains-map-sort_by, if-elim, ℕ, ◌<◌, ◌≡◌, refl, sym, ap, subst, ◌∙◌, inl, inr, Bool, true,
  false, not, ◌&&◌, Option, some, List, [], ◌∷◌, map, arith, ltb, ◌==◌, Bool-cases, Option-cases,
  ==_self, length, All, length-map, find, any, sum_by, take_while, map-sort_by-IsNodup,
  map-take_while-IsNodup, contains-map-sort_by, contains, length-sort_by, IsNodup, u32_mod,
}
use mathlib.Core.Option.{some-injective}
use bluffking.Card.{HoleCards, BoardCards}
use bluffking.Eval.{
  Evaluator, HandRank, category, strength, rank_eq, better, rank_with_board, board_eval,
  rank_players,
}
use bluffking.Round.SidePots.{SidePot, is_nil}
use bluffking.Settle.Split.{PotResult}
use bluffking.Settle.OddChips.{awarded, split_pot-awarded}
use bluffking.Settle.Distribute.{
  contenders, tied_first, showdown_winners, unreached, settle_pot, distribute_pots,
}
use bluffking.Settle.Totals.{
  total_awarded, total_amount, awarded_of, IsPayable, eligible-pos, settle_all-total, is_nil-length,
  split_result-awarded,
}

abbrev pub ids_of : {A : Type 0} → List (ℕ × A) → List ℕ
ids_of = map (λ x. x.0)

rank_eq_self : (r : HandRank) → rank_eq r r ≡ true
unfolding rank_eq
rank_eq_self r = ground (arith, ==_self (category r), ==_self (strength r))

-- The best hand ties with itself, so that somebody is first.
tied_first-pos : (ranked : List (ℕ × HandRank)) → 0 < length ranked → 0 < length (tied_first ranked)
unfolding tied_first take_while
tied_first-pos [] h = omega arith
tied_first-pos (x ∷ xs) h = rw (rank_eq_self x.1) (omega arith)

tied_first-IsNodup :
    (ranked : List (ℕ × HandRank)) → IsNodup (ids_of ranked) → IsNodup (tied_first ranked)
unfolding tied_first
tied_first-IsNodup [] d = tt
tied_first-IsNodup (x ∷ xs) d = map-take_while-IsNodup (λ y. y.0) (λ y. rank_eq y.1 x.1) (x ∷ xs) d

module _ (ev : Evaluator) (board : BoardCards) where
  pub ids_of-ranked :
      (cs : List (ℕ × HoleCards))
      → ids_of (map (λ x. (x.0, rank_with_board ev (board_eval ev board) x.1)) cs) ≡ ids_of cs
  ids_of-ranked [] = refl
  ids_of-ranked (c ∷ cs) = ap (λ ids. c.0 ∷ ids) (ids_of-ranked cs)

  ranked-IsNodup :
      (cs : List (ℕ × HoleCards))
      → IsNodup (ids_of cs)
      → IsNodup (ids_of (rank_players ev cs board))
  unfolding rank_players
  ranked-IsNodup cs d =
      map-sort_by-IsNodup (λ x. x.0) better
        (map (λ x. (x.0, rank_with_board ev (board_eval ev board) x.1)) cs)
        (subst IsNodup (sym (ids_of-ranked cs)) d)

  pub contains-ranked :
      (a : ℕ) (cs : List (ℕ × HoleCards))
      → contains a (ids_of (rank_players ev cs board)) ≡ contains a (ids_of cs)
  unfolding rank_players
  contains-ranked a cs =
      let ranks =
        map (λ (x : ℕ × HoleCards). (x.0, rank_with_board ev (board_eval ev board) x.1)) cs in
      contains-map-sort_by (λ x. x.0) better a ranks ∙ ap (contains a) (ids_of-ranked cs)

  length-ranked : (cs : List (ℕ × HoleCards)) → length (rank_players ev cs board) ≡ length cs
  unfolding rank_players
  length-ranked cs =
      length-sort_by better (map (λ x. (x.0, rank_with_board ev (board_eval ev board) x.1)) cs)
      ∙ length-map (λ x. (x.0, rank_with_board ev (board_eval ev board) x.1)) cs

  showdown_winners-awarded :
      (order : ℕ → Option ℕ) (cs : List (ℕ × HoleCards)) (amount : ℕ)
      → IsNodup (ids_of cs)
      → 0 < length cs
      → amount < u32_mod
      → awarded (showdown_winners ev order board cs amount) ≡ amount
  unfolding showdown_winners sum_by
  showdown_winners-awarded order [] amount d p h = omega arith
  showdown_winners-awarded order (c ∷ []) amount d p h = omega arith
  showdown_winners-awarded order (c ∷ c' ∷ cs) amount d p h =
      let ranked = rank_players ev (c ∷ c' ∷ cs) board in
      split_pot-awarded order (tied_first ranked) amount
        (tied_first-IsNodup ranked (ranked-IsNodup (c ∷ c' ∷ cs) d))
        (tied_first-pos ranked (omega (arith, length-ranked (c ∷ c' ∷ cs)))) h

find-id :
    (pid : ℕ) (xs : List (ℕ × HoleCards)) (x : ℕ × HoleCards)
    → find (λ y. y.0 == pid) xs ≡ some x
    → x.0 ≡ pid
unfolding find
find-id pid [] x e = cc
find-id pid (y ∷ ys) x e = elim (Bool-cases (y.0 == pid)) [
  | inl b ↦ subst (λ z. z.0 ≡ pid) (some-injective _ _ (rw b at e)) (ground arith)
  | inr b ↦ find-id pid ys x (rw b at e)
]

module _ (with_cards : List (ℕ × HoleCards)) where
  contenders-contains :
      (a : ℕ) (ids : List ℕ)
      → contains a ids ≡ false
      → contains a (ids_of (contenders with_cards ids)) ≡ false
  unfolding contenders contains
  contenders-contains a [] h = refl
  contenders-contains a (pid ∷ ids) h = elim (Option-cases (find (λ x. x.0 == pid) with_cards)) [
    | inl e ↦ rw e (contenders-contains a ids (ground arith))
    | inr (x, e) ↦
        rw e (ground (arith, find-id pid with_cards x e, contenders-contains a ids (ground arith)))
  ]

  contenders-IsNodup : (ids : List ℕ) → IsNodup ids → IsNodup (ids_of (contenders with_cards ids))
  unfolding contenders
  contenders-IsNodup [] d = tt
  contenders-IsNodup (pid ∷ ids) d = elim (Option-cases (find (λ x. x.0 == pid) with_cards)) [
    | inl e ↦ rw e (contenders-IsNodup ids d.1)
    | inr (x, e) ↦ rw e (
      subst (λ a. contains a (ids_of (contenders with_cards ids)) ≡ false)
          (sym (find-id pid with_cards x e)) (contenders-contains pid ids d.0),
      contenders-IsNodup ids d.1,
    )
  ]

module _ (ev : Evaluator) (order : ℕ → Option ℕ) (board : BoardCards)
    (with_cards : List (ℕ × HoleCards)) (forfeiters : ℕ → Bool) where
  unreached-awarded :
      IsNodup (ids_of with_cards)
      → (idx : ℕ) (pot : SidePot) → pot.amount < u32_mod
      → IsNodup pot.eligible
      → 0 < length pot.eligible
      → awarded_of (unreached ev order board with_cards forfeiters idx pot) ≡ pot.amount
  unfolding unreached
  unreached-awarded dc idx pot small de p =
      if-elim (λ o. awarded_of o ≡ pot.amount)
        (any forfeiters pot.eligible && ltb 0 (length with_cards))
        (λ e. showdown_winners-awarded ev board order with_cards pot.amount dc (ground arith) small)
        (λ e. split_result-awarded order idx pot pot.eligible true small de p)

  pub settle_pot-awarded :
      IsNodup (ids_of with_cards)
      → (idx : ℕ) (pot : SidePot) → IsPayable pot
      → awarded_of (settle_pot ev order board with_cards forfeiters idx pot) ≡ pot.amount
  unfolding settle_pot
  settle_pot-awarded dc idx pot (small, de, dr, some_ids) =
      let cs = contenders with_cards pot.eligible in
      let pays = λ (o : Option PotResult). awarded_of o ≡ pot.amount in
      if-elim pays (pot.amount == 0) (λ e. ground arith)
        (λ e.
          if-elim pays (not (is_nil pot.refund_to))
            (λ f.
              split_result-awarded order idx pot pot.refund_to true small dr
                (is_nil-length pot.refund_to (ground arith)))
            (λ f.
              if-elim pays (length cs == 0)
                (λ g.
                  unreached-awarded dc idx pot small de (eligible-pos pot some_ids (ground arith)))
                (λ g.
                  showdown_winners-awarded ev board order cs pot.amount
                    (contenders-IsNodup with_cards pot.eligible de) (ground arith) small)))

  -- All the chips of the pots are paid.
  pub distribute_pots-total_awarded :
      (pots : List SidePot)
      → IsNodup (ids_of with_cards)
      → All IsPayable pots
      → total_awarded (distribute_pots ev order board with_cards forfeiters pots)
        ≡ total_amount pots
  unfolding distribute_pots
  distribute_pots-total_awarded pots dc h =
      settle_all-total IsPayable (settle_pot ev order board with_cards forfeiters)
        (settle_pot-awarded dc) 0 pots h
