-- ===== src/Settle/Best.antt =====
-- engine/src/eval.rs and engine/src/game/pots.rs: the ranking of a showdown and its winners.
use bluffking.Prelude.{
  ℕ, ◌<◌, ◌≡◌, refl, sym, ap, subst, ◌∙◌, Bool, true, false, List, [], ◌∷◌, map, arith, length, All,
  filter, sort_by-All, IsSorted, sort_by-IsSorted, filter-sort_by, take_while-filter, sort_by,
  length-sort_by,
}
use bluffking.Card.{HoleCards, BoardCards}
use bluffking.Eval.{
  HandRank, rank_leb, rank_eq, better, Evaluator, rank_with_board, board_eval, rank_players,
}
use bluffking.Settle.Distribute.{tied_first}
use bluffking.Settle.Contested.{ids_of}

better_total : (x y : ℕ × HandRank) → better x y ≡ false → better y x ≡ true
unfolding better rank_leb
better_total (a, x) (b, y) h = ground arith

better_trans : (x y z : ℕ × HandRank) → better x y ≡ true → better y z ≡ true → better x z ≡ true
unfolding better rank_leb
better_trans (a, x) (b, y) (c, z) h k = ground arith

module _ (best : HandRank) where
  abbrev ties : ℕ × HandRank → Bool
  ties x = rank_eq x.1 best

  ties-better : (x y : ℕ × HandRank) → ties x ≡ true → ties y ≡ true → better x y ≡ true
  unfolding better rank_leb rank_eq
  ties-better (a, x) (b, y) h k = ground arith

  ties-leave :
      (i : ℕ) (y z : ℕ × HandRank)
      → better (i, best) y ≡ true
      → better y z ≡ true
      → ties y ≡ false
      → ties z ≡ false
  unfolding better rank_leb rank_eq
  ties-leave i (b, y) (c, z) h k e = ground arith

-- The players with their ranks, in the order of the table.
abbrev pub ranked_by : Evaluator → BoardCards → List (ℕ × HoleCards) → List (ℕ × HandRank)
ranked_by ev board = map (λ x. (x.0, rank_with_board ev (board_eval ev board) x.1))

-- Nobody's rank is above `best`.
abbrev pub IsBest : HandRank → List (ℕ × HandRank) → Type 0
IsBest best = All (λ x. rank_leb x.1 best ≡ true)

rank_leb_self : (r : HandRank) → rank_leb r r ≡ true
unfolding rank_leb
rank_leb_self r = ground arith

sorted-IsBest :
    (x : ℕ × HandRank) (ys : List (ℕ × HandRank)) → IsSorted better (x ∷ ys) → IsBest x.1 (x ∷ ys)
unfolding better
sorted-IsBest x ys h = (rank_leb_self x.1, h.0)

-- What the theorem below says of ranked players, given the list that the sort makes of them.
first_of_sorted :
    (xs sorted : List (ℕ × HandRank))
    → sort_by better xs ≡ sorted
    → 0 < length xs
    → (best : HandRank) × IsBest best xs
      × (tied_first sorted ≡ ids_of (filter (λ x. rank_eq x.1 best) xs))
unfolding tied_first better
first_of_sorted xs [] e p = absurd (omega (arith, length-sort_by better xs, ap length e))
first_of_sorted xs (b ∷ ys) e p =
    let is_sorted =
      subst (IsSorted better) e (sort_by-IsSorted better better_total better_trans xs) in
    let best = sorted-IsBest b ys is_sorted in
    (
      b.1,
      sort_by-All better (λ x. rank_leb x.1 b.1 ≡ true) xs (subst (IsBest b.1) (sym e) best),
      ap ids_of (
          take_while-filter better (ties b.1) b (ties-leave b.1 b.0) (b ∷ ys) best is_sorted
          ∙ ap (filter (ties b.1)) (sym e)
          ∙ filter-sort_by better (ties b.1) (ties-better b.1) xs),
    )

module _ (ev : Evaluator) (board : BoardCards) where
  -- Where anybody has cards, some rank is the best; the winners are the players who have it, in the
  -- order of the table.
  pub rank_players-IsBest :
      (c : ℕ × HoleCards) (cs : List (ℕ × HoleCards))
      → (best : HandRank) × IsBest best (ranked_by ev board (c ∷ cs))
        × (tied_first (rank_players ev (c ∷ cs) board)
            ≡ ids_of (filter (λ x. rank_eq x.1 best) (ranked_by ev board (c ∷ cs))))
  unfolding rank_players
  rank_players-IsBest c cs =
      let ranks = ranked_by ev board (c ∷ cs) in
      first_of_sorted ranks (sort_by better ranks) refl (omega arith)
