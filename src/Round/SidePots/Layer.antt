-- ===== src/Round/SidePots/Layer.antt =====
-- engine/src/round.rs: the chips of one layer of the pot.
use bluffking.Prelude.{
  ℕ, ◌+◌, ◌≤◌, ◌<◌, ◌≡◌, refl, ◌∙◌, true, List, [], ◌∷◌, map, min, arith, leb, ltb, filter, sum32,
  sum, sum32-eq, sum_by, sum_by-le, u32_mod,
}
use bluffking.Round.SidePots.{SidePot, ids_where, share_of, is_nil, push_layer, layer}

-- The contributions, each cut off at `level`.
abbrev pub capped : ℕ → List (ℕ × ℕ) → ℕ
capped level = sum_by (λ x. min x.1 level)

abbrev pub pot_amounts : List SidePot → ℕ
pot_amounts = sum_by (λ p. p.amount)

abbrev shares : ℕ → ℕ → List (ℕ × ℕ) → ℕ
shares prev level xs = sum (map (λ x. share_of prev level x.1) xs)

shares-capped :
    (prev level : ℕ) (xs : List (ℕ × ℕ))
    → prev ≤ level
    → capped prev xs + shares prev level xs ≡ capped level xs
unfolding share_of sum sum_by
shares-capped prev level [] h = refl
shares-capped prev level ((id, c) ∷ xs) h = ground (arith, shares-capped prev level xs h)

shares-none :
    (prev level : ℕ) (xs : List (ℕ × ℕ))
    → is_nil (ids_where (ltb prev) xs) ≡ true
    → shares prev level xs ≡ 0
unfolding share_of sum is_nil filter
shares-none prev level [] h = refl
shares-none prev level ((id, c) ∷ xs) h = ground (arith, shares-none prev level xs)

pub capped-le : (level : ℕ) (xs : List (ℕ × ℕ)) → capped level xs ≤ sum_by (λ x. x.1) xs
capped-le level xs = sum_by-le (λ x. min x.1 level) (λ x. x.1) xs (λ x. omega arith)

push_layer-amount :
    (level amount : ℕ) (pot_eligible contributors : List ℕ)
    → (level ≡ 0 → amount ≡ 0)
    → (is_nil contributors ≡ true → amount ≡ 0)
    → pot_amounts (push_layer level amount pot_eligible contributors) ≡ amount
unfolding push_layer sum_by
push_layer-amount level amount pot_eligible contributors floor empty = ground (arith, floor, empty)

shares-at_zero : (prev : ℕ) (xs : List (ℕ × ℕ)) → prev ≡ 0 → shares prev 0 xs ≡ 0
unfolding share_of sum
shares-at_zero prev [] h = refl
shares-at_zero prev ((id, c) ∷ xs) h = ground (arith, shares-at_zero prev xs h)

-- The pot of the layer from `prev` to `level`, if one is pushed, holds exactly that slice.
pub layer-amount :
    (all eligible : List (ℕ × ℕ)) (prev level : ℕ)
    → prev ≤ level
    → sum_by (λ x. x.1) all < u32_mod
    → capped prev all + pot_amounts (layer all eligible prev level) ≡ capped level all
unfolding layer
layer-amount all eligible prev level h bound =
    let split = shares-capped prev level all h in
    let exact : sum32 (map (λ x. share_of prev level x.1) all) ≡ shares prev level all =
      sum32-eq _ (omega (arith, split, capped-le level all)) in
    omega (
      arith,
      split,
      exact,
      push_layer-amount level (sum32 (map (λ x. share_of prev level x.1) all))
          (ids_where (leb level) eligible) (ids_where (ltb prev) all)
          (λ z. exact ∙ (rw z (shares-at_zero prev all (omega arith))))
          (λ z. exact ∙ shares-none prev level all z),
    )
