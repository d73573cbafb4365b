-- ===== src/Round/SidePots/Sum.antt =====
-- engine/src/round.rs: the chips of all the layers of a street's pot.
use bluffking.Prelude.{
  ℕ, ◌+◌, ◌≤◌, ◌<◌, ◌≡◌, refl, false, List, [], ◌∷◌, ◌++◌, map, arith, inl, inr, filter, ◌⊎◌, sort,
  dedup, sum_by, sum_by-le, All, u32_mod, IsAscending, Occurs, sort-IsAscending, sort-Occurs,
  dedup-IsAscending, dedup-Occurs, count,
}
use bluffking.Round.State.{PlayerState, BettingRound, is_live}
use bluffking.Round.SidePots.{SidePot, is_nil, layer, pots_above, contributions, side_pots}
use bluffking.Round.SidePots.Layer.{capped, pot_amounts, layer-amount}
use bluffking.Round.Counted.{stake}
use bluffking.Round.Valid.{IsValid}

pub pot_amounts-append :
    (ps qs : List SidePot) → pot_amounts (ps ++ qs) ≡ pot_amounts ps + pot_amounts qs
unfolding sum_by
pot_amounts-append [] qs = omega arith
pot_amounts-append (p ∷ ps) qs = omega (arith, pot_amounts-append ps qs)

-- Every contribution is a level still to come, or is paid in full below `prev`.
abbrev pub Covered : ℕ → List ℕ → List (ℕ × ℕ) → Type 0
Covered prev levels = All (λ x. (x.1 ≤ prev) ⊎ Occurs x.1 levels)

pub Covered-next :
    (prev level : ℕ) (levels : List ℕ) (xs : List (ℕ × ℕ))
    → prev ≤ level
    → Covered prev (level ∷ levels) xs
    → Covered level levels xs
Covered-next prev level levels [] h c = tt
Covered-next prev level levels ((id, x) ∷ xs) h (inl below, cs) =
    (inl (omega arith), Covered-next prev level levels xs h cs)
Covered-next prev level levels ((id, x) ∷ xs) h (inr (inl e), cs) =
    (inl (omega arith), Covered-next prev level levels xs h cs)
Covered-next prev level levels ((id, x) ∷ xs) h (inr (inr later), cs) =
    (inr later, Covered-next prev level levels xs h cs)

pub capped-all :
    (prev : ℕ) (xs : List (ℕ × ℕ)) → Covered prev [] xs → capped prev xs ≡ sum_by (λ x. x.1) xs
unfolding sum_by
capped-all prev [] c = refl
capped-all prev ((id, x) ∷ xs) (inl below, cs) = omega (arith, capped-all prev xs cs)
capped-all prev ((id, x) ∷ xs) (inr never, cs) = elim never [ ]

pub capped-zero : (xs : List (ℕ × ℕ)) → capped 0 xs ≡ 0
unfolding sum_by
capped-zero [] = refl
capped-zero (x ∷ xs) = omega (arith, capped-zero xs)

pub pots_above-amount :
    (all eligible : List (ℕ × ℕ)) (prev : ℕ) (levels : List ℕ)
    → IsAscending prev levels
    → Covered prev levels all
    → sum_by (λ x. x.1) all < u32_mod
    → capped prev all + pot_amounts (pots_above all eligible prev levels) ≡ sum_by (λ x. x.1) all
unfolding pots_above sum_by
pots_above-amount all eligible prev [] up c bound = omega (arith, capped-all prev all c)
pots_above-amount all eligible prev (level ∷ levels) up c bound = omega (
  arith,
  pot_amounts-append (layer all eligible prev level) (pots_above all eligible level levels),
  layer-amount all eligible prev level up.0 bound,
  pots_above-amount all eligible level levels up.1 (Covered-next prev level levels all up.0 c)
      bound,
)

pub Covered-levels :
    (levels : List ℕ) (xs : List (ℕ × ℕ))
    → ((a : ℕ) → Occurs a (map (λ x. x.1) xs) → Occurs a levels)
    → Covered 0 levels xs
Covered-levels levels [] h = tt
Covered-levels levels (x ∷ xs) h =
    (inr (h x.1 (inl refl)), Covered-levels levels xs (λ a o. h a (inr o)))

sum_by-contributions :
    (ps : List PlayerState)
    → sum_by (λ (x : ℕ × ℕ). x.1) (contributions ps) ≡ sum_by (λ p. p.contributed) ps
unfolding sum_by
sum_by-contributions [] = refl
sum_by-contributions (p ∷ ps) = omega (arith, sum_by-contributions ps)

pub is_nil-live :
    (ps : List PlayerState)
    → 0 < count is_live ps
    → is_nil (map (λ x. x.0) (contributions (filter is_live ps))) ≡ false
unfolding is_nil filter count
is_nil-live [] h = absurd (omega arith)
is_nil-live (p ∷ ps) h = ground (arith, is_nil-live ps)

sum_by-contributed-le : (ps : List PlayerState) → sum_by (λ p. p.contributed) ps ≤ sum_by stake ps
sum_by-contributed-le ps = sum_by-le (λ p. p.contributed) stake ps (λ p. omega arith)

-- In a valid street with somebody left in the hand, the side pots hold exactly the chips of the
-- pot: no slice of a contribution, a folded player's included, is lost or counted twice.
pub side_pots-pot_total :
    (r : BettingRound)
    → IsValid r
    → 0 < count is_live r.players
    → pot_amounts (side_pots r) ≡ r.pot_total
unfolding side_pots
side_pots-pot_total r v live =
    let all = contributions r.players in
    let levels = dedup (sort (map (λ x. x.1) all)) in
    let total = sum_by-contributions r.players in
    rw (is_nil-live r.players live) (
      omega (
        arith,
        v.balanced.pot_sum,
        total,
        capped-zero all,
        pots_above-amount all (contributions (filter is_live r.players)) 0 levels
            (dedup-IsAscending _ (sort-IsAscending _))
            (Covered-levels levels all (λ a o. dedup-Occurs a _ (sort-Occurs a _ o)))
            (omega (arith, total, v.balanced.bound, sum_by-contributed-le r.players)),
      ))
