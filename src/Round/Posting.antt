-- ===== src/Round/Posting.antt =====
-- engine/src/round.rs: the loop of `new_preflop` over the blinds.
use mathlib.Core.List.{foldl}
use bluffking.Prelude.{
  ℕ, ◌+◌, ◌≤◌, ◌<◌, ◌≡◌, ◌∙◌, some, Option-cases, List, [], ◌∷◌, min, arith, ◌==◌, inl, inr,
  get_elem?, position, sum_by, u32_mod, All, All-modify, All-get, sum_by-modify, le-sum_by,
  map-modify, add32-eq, sub32-eq, sum_by-add,
}
use bluffking.Round.State.{PlayerState}
use bluffking.Round.Open.{all_in_if_broke, Posting, posted, post_at, post_blind}
use bluffking.Round.Counted.{stake, stakes}
use bluffking.Round.Opening.{IsHonest}

-- The blinds are posted out of stacks: nothing overflows, and nobody's chips change.
pub record IsPosted (given : List (ℕ × ℕ)) (s : Posting) : Type 0 where
  pub honest : All IsHonest s.players
  pub bound : sum_by stake s.players < u32_mod
  pub posted_sum : s.total_posted ≡ sum_by (λ p. p.contributed) s.players
  pub same_stakes : stakes s.players ≡ given

module _ (given : List (ℕ × ℕ)) (s : Posting) (idx : ℕ) (p : PlayerState) (amount : ℕ)
    (at_idx : get_elem? s.players idx ≡ some p) (v : IsPosted given s) where
  abbrev actual : ℕ
  actual = min amount p.stack

  post_fits : (actual ≤ p.stack) × (p.stack + p.contributed < u32_mod)
  post_fits = (omega arith, omega (arith, v.bound, le-sum_by stake s.players idx p at_idx))

  posted_chips :
      ((all_in_if_broke (posted p actual)).contributed ≡ p.contributed + actual)
      × ((all_in_if_broke (posted p actual)).stack + actual ≡ p.stack)
      × ((all_in_if_broke (posted p actual)).player_id ≡ p.player_id)
  posted_chips = ground (arith, post_fits, add32-eq p.contributed actual, sub32-eq p.stack actual)

  total_fits : s.total_posted + actual < u32_mod
  total_fits = omega (
    arith,
    v.posted_sum,
    v.bound,
    le-sum_by (λ (q : PlayerState). q.stack) s.players idx p at_idx,
    sum_by-add (λ (q : PlayerState). q.stack) (λ q. q.contributed) s.players,
  )

  posted-IsHonest : IsHonest (all_in_if_broke (posted p actual))
  posted-IsHonest =
      ground (arith, All-get IsHonest s.players idx p at_idx v.honest, posted_chips, post_fits)

  post_at-IsPosted : IsPosted given (post_at s idx p amount)
  unfolding post_at
  post_at-IsPosted =
      let (contributed, stack, player_id) = posted_chips in
      let same_stake : stake (all_in_if_broke (posted p actual)) ≡ stake p = omega arith in
      record {
        honest = All-modify IsHonest s.players idx _ p at_idx posted-IsHonest v.honest;
        bound = omega (arith, sum_by-modify stake s.players idx _ p at_idx, v.bound, same_stake);
        posted_sum = omega (
          arith,
          sum_by-modify (λ (q : PlayerState). q.contributed) s.players idx _ p at_idx,
          v.posted_sum,
          contributed,
          add32-eq s.total_posted actual total_fits,
        );
        same_stakes =
            map-modify _ s.players idx _ p at_idx (λ i. (player_id i, same_stake i))
            ∙ v.same_stakes;
      }

module _ (given : List (ℕ × ℕ)) where
  post_blind-IsPosted :
      (s : Posting) (b : ℕ × ℕ) → IsPosted given s → IsPosted given (post_blind s b)
  unfolding post_blind
  post_blind-IsPosted s (blind_id, amount) v =
      elim (Option-cases (position (λ q. q.player_id == blind_id) s.players)) [
        | inl e ↦ rw (e, post_blind) v
        | inr (idx, e) ↦ elim (Option-cases (get_elem? s.players idx)) [
          | inl miss ↦ rw (e, post_blind) (rw miss v)
          | inr (p, at_p) ↦
              rw (e, post_blind) (rw at_p (post_at-IsPosted given s idx p amount at_p v))
        ]
      ]

  pub foldl-IsPosted :
      (blinds : List (ℕ × ℕ)) (s : Posting)
      → IsPosted given s
      → IsPosted given (foldl post_blind s blinds)
  foldl-IsPosted [] s v = v
  foldl-IsPosted (b ∷ blinds) s v =
      foldl-IsPosted blinds (post_blind s b) (post_blind-IsPosted s b v)
