-- ===== src/Round/Effects.antt =====
-- engine/src/round.rs: the chips and the counters under each action of `apply_action`.
use bluffking.Prelude.{
  ℕ, ◌+◌, ◌-◌, ◌≤◌, ◌<◌, ◌≡◌, refl, sym, ap, subst, ◌∙◌, Bool, true, false, some, arith, ltb, ◌==◌,
  Bool-cases, inl, inr, get_elem?, modify, add32, sub32, add32-eq, sub32-eq, min, map-modify,
  get_elem?-modify_self, modify-modify, All-get, count-pos_of_get, le-sum_by, sum_by-add, u32_mod,
  saturating_add, ◌⊎◌,
}
use bluffking.Action.{
  PlayerAction, fold, check, call, raise, all_in, blind, ok, >>-eq-ok, ok-injective,
}
use bluffking.Round.State.{PlayerState, BettingRound, can_act}
use bluffking.Round.Action.{
  commit, mark_all_in_if_broke, Effect, fold_effect, call_effect, raise_effect, all_in_effect,
  effect, short_raise, full_raise,
}
use bluffking.Round.Counted.{
  stake, stakes, IsSolvent, IsCounted, one_if, stake-bound, modify-IsCounted,
}

abbrev pub IsBalanced : BettingRound → Type 0
IsBalanced r = IsCounted r.players r.n_can_act r.pot_total

-- The chips moved come from the stacks, whose owners keep what they brought.
pub record Keeps (r : BettingRound) (e : Effect) : Type 0 where
  pub counted : IsBalanced e.round
  pub moved_in : e.round.pot_total ≡ r.pot_total + e.moved
  pub same_stakes : stakes e.round.players ≡ stakes r.players
  pub same_current : e.round.current ≡ r.current
  pub same_done : e.round.done ≡ r.done

-- A change of the bets alone is no change of the chips.
rebase :
    (r s : BettingRound) {e : Effect}
    → s.players ≡ r.players
    → s.pot_total ≡ r.pot_total
    → s.current ≡ r.current
    → s.done ≡ r.done
    → Keeps s e
    → Keeps r e
rebase r s players pot current done k = record {
  counted = k.counted;
  moved_in = cc (k.moved_in);
  same_stakes = k.same_stakes ∙ ap stakes players;
  same_current = k.same_current ∙ current;
  same_done = k.same_done ∙ done;
}

-- The player `p` at `idx` after a commitment that may empty the stack.
abbrev paid : ℕ → PlayerState → PlayerState
paid amount p = record p { contributed = add32 p.contributed amount; stack = sub32 p.stack amount }

module _ (r : BettingRound) (idx : ℕ) (p : PlayerState) (at_idx : get_elem? r.players idx ≡ some p)
    (able : can_act p ≡ true) (v : IsBalanced r) where
  actor_stack : 0 < p.stack
  actor_stack = ground (arith, All-get IsSolvent r.players idx p at_idx v.solvent)

  pot_room : (amount : ℕ) → amount ≤ p.stack → r.pot_total + amount < u32_mod
  pot_room amount h = omega (
    arith,
    v.pot_sum,
    v.bound,
    le-sum_by (λ (q : PlayerState). q.stack) r.players idx p at_idx,
    sum_by-add (λ (q : PlayerState). q.stack) (λ q. q.contributed) r.players,
  )

  some_able : 0 < r.n_can_act
  some_able = omega (arith, v.able_count, count-pos_of_get can_act r.players idx p at_idx able)

  -- An effect that overwrites player `idx` by `f`, and moves chips from the stack to the pot.
  overwrite-Keeps :
      (e : Effect) (f : PlayerState → PlayerState)
      → e.round.players ≡ modify r.players idx f
      → e.round.current ≡ r.current
      → e.round.done ≡ r.done
      → e.round.pot_total ≡ r.pot_total + e.moved
      → (f p).contributed ≡ p.contributed + e.moved
      → (f p).stack + e.moved ≡ p.stack
      → (f p).player_id ≡ p.player_id
      → IsSolvent (f p)
      → e.round.n_can_act + one_if (can_act p) ≡ r.n_can_act + one_if (can_act (f p))
      → Keeps r e
  overwrite-Keeps e f players current done pot contributed stack player_id solvent counted =
      let same : stake (f p) ≡ stake p = omega arith in
      record {
        counted = rw players (
            modify-IsCounted r.players r.n_can_act r.pot_total idx p at_idx v f e.round.n_can_act
              e.round.pot_total (omega arith) solvent counted (omega arith));
        moved_in = pot;
        same_stakes = rw players (map-modify _ r.players idx f p at_idx λ i. (player_id i, same i));
        same_current = current;
        same_done = done;
      }

  module _ (amount : ℕ) (fits : amount ≤ p.stack) where
    paid_stack : sub32 p.stack amount ≡ p.stack - amount
    paid_stack =
        sub32-eq _ _ fits
          (omega (arith, stake-bound r.players r.n_can_act r.pot_total idx p at_idx v))

    paid_contributed : add32 p.contributed amount ≡ p.contributed + amount
    paid_contributed =
        add32-eq _ _ (omega (arith, stake-bound r.players r.n_can_act r.pot_total idx p at_idx v))

    paid_pot : add32 r.pot_total amount ≡ r.pot_total + amount
    paid_pot = add32-eq _ _ (pot_room amount fits)

    after_commit : get_elem? (commit r idx amount).players idx ≡ some (paid amount p)
    after_commit = get_elem?-modify_self r.players idx (paid amount) p at_idx

    mark_broke :
        (sub32 p.stack amount == 0) ≡ true
        → mark_all_in_if_broke (commit r idx amount) idx ≡ record (commit r idx amount) {
          players = modify r.players idx (λ q. record (paid amount q) { all_in = true });
          n_can_act = r.n_can_act - 1;
        }
    unfolding mark_all_in_if_broke
    mark_broke e = ground (
      arith,
      after_commit,
      modify-modify r.players idx (paid amount) (λ q. record q { all_in = true }),
    )

    mark_kept :
        (sub32 p.stack amount == 0) ≡ false
        → mark_all_in_if_broke (commit r idx amount) idx ≡ commit r idx amount
    unfolding mark_all_in_if_broke
    mark_kept e = ground (arith, after_commit)

    pub pay-Keeps :
        (full : Bool)
        → Keeps r (record {
          moved = amount;
          is_aggression = full;
          round = mark_all_in_if_broke (commit r idx amount) idx;
        })
    pay-Keeps full = elim (Bool-cases (sub32 p.stack amount == 0)) [
      | inl e ↦ rw (mark_broke e) (
          overwrite-Keeps _ (λ q. record (paid amount q) { all_in = true }) refl refl refl paid_pot
            paid_contributed (omega (arith, paid_stack)) refl (sym e) (ground (arith, some_able)))
      | inr e ↦ rw (mark_kept e) (
          overwrite-Keeps _ (paid amount) refl refl refl paid_pot paid_contributed
            (omega (arith, paid_stack)) refl (ground (arith)) refl)
    ]

  fold-Keeps : Keeps r (fold_effect r idx)
  unfolding fold_effect
  fold-Keeps =
      overwrite-Keeps _ (λ q. record q { folded = true }) refl refl refl (omega arith) (omega arith)
        (omega arith) refl (All-get IsSolvent r.players idx p at_idx v.solvent)
        (ground (arith, some_able))

  call-Keeps : Keeps r (call_effect r idx p)
  unfolding call_effect
  call-Keeps = pay-Keeps (min (r.current_bet - p.contributed) p.stack) (omega arith) false

  all_in-Keeps : Keeps r (all_in_effect r idx p)
  unfolding all_in_effect
  all_in-Keeps =
      overwrite-Keeps _
        (λ q. record q { contributed = add32 q.contributed p.stack; stack = 0; all_in = true }) refl
        refl refl (paid_pot p.stack (omega arith)) (paid_contributed p.stack (omega arith))
        (omega arith) refl refl (ground (arith, some_able))

-- A `Raise` that is accepted is a full raise, or an all-in below the minimum.
pub raise_cases :
    (r : BettingRound) (idx : ℕ) (p : PlayerState) (raise_to : ℕ) (e : Effect)
    → raise_effect r idx p raise_to ≡ ok e
    → (raise_to - p.contributed ≤ p.stack)
      × ((raise_to < saturating_add r.current_bet r.last_raise_amount)
            × (raise_to - p.contributed ≡ p.stack)
            × (0 < p.stack)
            × (e ≡ short_raise r idx raise_to (raise_to - p.contributed))
          ⊎ (saturating_add r.current_bet r.last_raise_amount ≤ raise_to)
            × (e ≡ full_raise r idx raise_to (raise_to - p.contributed)))
unfolding raise_effect
raise_cases r idx p raise_to e h = ground arith

module _ (r : BettingRound) (idx : ℕ) (p : PlayerState) (at_idx : get_elem? r.players idx ≡ some p)
    (able : can_act p ≡ true) (v : IsBalanced r) where
  short_raise-Keeps :
      (raise_to amount : ℕ) → amount ≤ p.stack → Keeps r (short_raise r idx raise_to amount)
  unfolding short_raise
  short_raise-Keeps raise_to amount fits = elim (Bool-cases (ltb r.current_bet raise_to)) [
    | inl e ↦ rw e (
        rebase r _ refl refl refl refl
          (pay-Keeps (record r { current_bet = raise_to }) idx p at_idx able v amount fits false))
    | inr e ↦ rw e (pay-Keeps r idx p at_idx able v amount fits false)
  ]

  full_raise-Keeps :
      (raise_to amount : ℕ) → amount ≤ p.stack → Keeps r (full_raise r idx raise_to amount)
  unfolding full_raise
  full_raise-Keeps raise_to amount fits = rebase r _ refl refl refl refl (
      pay-Keeps (record r { last_raise_amount = raise_to - r.current_bet; current_bet = raise_to })
        idx p at_idx able v amount fits true)

  raise-Keeps : (raise_to : ℕ) (e : Effect) → raise_effect r idx p raise_to ≡ ok e → Keeps r e
  raise-Keeps raise_to e h =
      let (fits, which) = raise_cases r idx p raise_to e h in
      elim which [
        | inl (_, _, _, short) ↦ rw short (short_raise-Keeps raise_to _ fits)
        | inr (_, full) ↦ rw full (full_raise-Keeps raise_to _ fits)
      ]

  check-Keeps : Keeps r (record { moved = 0; is_aggression = false; round = r })
  check-Keeps = record {
    counted = v;
    moved_in = omega arith;
    same_stakes = refl;
    same_current = refl;
    same_done = refl;
  }

  -- Whatever the action, its effect keeps the books.
  pub effect-Keeps : (a : PlayerAction) (e : Effect) → effect r idx p a ≡ ok e → Keeps r e
  unfolding effect
  effect-Keeps fold e h = subst (Keeps r) (ok-injective h) (fold-Keeps r idx p at_idx able v)
  effect-Keeps check e h =
      subst (Keeps r) (ok-injective (>>-eq-ok (r.current_bet - p.contributed == 0) _ _ h).1)
        check-Keeps
  effect-Keeps call e h = subst (Keeps r) (ok-injective h) (call-Keeps r idx p at_idx able v)
  effect-Keeps (raise raise_to) e h = raise-Keeps raise_to e h
  effect-Keeps all_in e h = subst (Keeps r) (ok-injective h) (all_in-Keeps r idx p at_idx able v)
  effect-Keeps (blind kind amount) e h = cc
