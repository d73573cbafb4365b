-- ===== src/Draw/Sicbo/Verify.antt =====
-- draw-games/verifier/src/sicbo.rs: the proofs that `verify` accepts.
use bluffking.Prelude.{
  ℕ, ◌≡◌, refl, sym, ap, subst, ◌∙◌, ◌↔◌, ◌⊎◌, inl, inr, Bool, true, false, ◌&&◌, Option, none,
  some, ℤ, same_int, same_int-eq, same_int_self, arith, ◌==◌, Bool-cases, ==_self, sum,
}
use bluffking.Draw.{
  ok, ◌>>=◌, ◌>>◌, guard, same, same-eq, same_self, codes, >>=-eq-ok, >>-eq-ok, ok-injective,
  err-ne-ok, &&-eq-true, wrong_kind, draw_mismatch, stake_out_of_range, payout_mismatch,
}
use bluffking.Draw.Proof.{Crates, Reveal}
use bluffking.Draw.Sicbo.{
  Side, Dice, is_triple, total, wins, delta, SicboProof, draw_proof, payout_proof, same_dice,
  same_bool, allowed, check_payout, check_draw, draw, verify,
}

-- A proof as it is published for these dice: of a room's draw, or of one bet on them.
abbrev pub IsPublished : SicboProof → Dice → Type 0
IsPublished p d =
    ((p ≡ draw_proof p.reveal d) × (same p.reveal.commitment.game (codes "sicbo-room") ≡ true))
    ⊎ ((side : Side) × (stake : ℤ) × (p ≡ payout_proof p.reveal d side stake)
        × (allowed p.reveal.commitment.game stake ≡ true))

same_bool-eq : (a b : Bool) → same_bool a b ≡ true → a ≡ b
same_bool-eq true true e = refl
same_bool-eq true false e = cc
same_bool-eq false true e = cc
same_bool-eq false false e = refl

same_dice-eq : (a b : Dice) → same_dice a b ≡ true → a ≡ b
same_dice-eq a b e =
    let one : a.first ≡ b.first = ground arith in
    let two : a.second ≡ b.second = ground arith in
    let three : a.third ≡ b.third = ground arith in cc

check_payout-ok :
    (p q : SicboProof) (d : Dice) (side : Option Side) (stake : Option ℤ) (won : Option Bool)
    (claimed : Option ℤ)
    → check_payout p d side stake won claimed ≡ ok q
    → ((q ≡ draw_proof p.reveal d)
        × (same p.kind (codes "sicbo-room") ≡ true)
        × (side ≡ none)
        × (stake ≡ none)
        × (won ≡ none)
        × (claimed ≡ none))
      ⊎ ((s : Side) × (x : ℤ) × (q ≡ payout_proof p.reveal d s x)
          × (allowed p.kind x ≡ true)
          × (side ≡ some s)
          × (stake ≡ some x)
          × (won ≡ some (wins d s))
          × (claimed ≡ some (delta d s x)))
unfolding check_payout
check_payout-ok p q d (some side) (some stake) (some won) (some claimed) e =
    let pay = ok (payout_proof p.reveal d side stake) in
    let agrees = same_bool won (wins d side) && same_int claimed (delta d side stake) in
    let (fits, e') =
      >>-eq-ok (allowed p.kind stake) stake_out_of_range (guard agrees payout_mismatch >> pay) e in
    let (agreed, e'') = >>-eq-ok agrees payout_mismatch pay e' in
    let (w, c) =
      &&-eq-true (same_bool won (wins d side)) (same_int claimed (delta d side stake)) agreed in
    inr (
      side,
      stake,
      sym (ok-injective e''),
      fits,
      refl,
      refl,
      ap some (same_bool-eq won (wins d side) w),
      ap some (same_int-eq claimed (delta d side stake) c),
    )
check_payout-ok p q d none none none none e = elim (Bool-cases (same p.kind (codes "sicbo-room"))) [
  | inl room ↦ inl (sym (ok-injective (rw room at e)), room, refl, refl, refl, refl)
  | inr other ↦ absurd (err-ne-ok (rw other at e))
]
check_payout-ok p q d _ _ _ _ e = absurd (err-ne-ok e)

-- The proof that a draw's check accepts is the published one.
check_draw-IsPublished :
    (p q : SicboProof) (d : Dice)
    → p.kind ≡ p.reveal.commitment.game
    → check_draw p d ≡ ok q
    → (q ≡ p) × IsPublished p d
check_draw-IsPublished p q d kinds e =
    let sums = (p.total_shown == total d) && same_bool p.triple (is_triple d) in
    let (shown, e') =
      >>-eq-ok (same_dice p.dice d && sums) draw_mismatch
        (check_payout p d p.side p.stake p.won p.delta_shown) e in
    let (dice, rest) = &&-eq-true (same_dice p.dice d) sums shown in
    let (sum, alike) =
      &&-eq-true (p.total_shown == total d) (same_bool p.triple (is_triple d)) rest in
    let dice_equal : p.dice ≡ d = same_dice-eq p.dice d dice in
    let sum_equal : p.total_shown ≡ total d = ground (arith, sum) in
    let triple_equal : p.triple ≡ is_triple d = same_bool-eq p.triple (is_triple d) alike in
    elim (check_payout-ok p q d p.side p.stake p.won p.delta_shown e') [
      | inl (made, room, no_side, no_stake, no_won, no_delta) ↦
          let whole : p ≡ draw_proof p.reveal d = cc in
          (made ∙ sym whole, inl (whole, ap (λ k. same k (codes "sicbo-room")) (sym kinds) ∙ room))
      | inr (side, stake, made, fits, a, b, c, f) ↦
          let whole : p ≡ payout_proof p.reveal d side stake = cc in
          (made ∙ sym whole, inr (side, stake, whole, ap (λ k. allowed k stake) (sym kinds) ∙ fits))
    ]

same_dice_self : (d : Dice) → same_dice d d ≡ true
same_dice_self d = rw (==_self d.first, ==_self d.second, ==_self d.third) refl

same_bool_self : (b : Bool) → same_bool b b ≡ true
same_bool_self true = refl
same_bool_self false = refl

module _ (crates : Crates) (fuel : ℕ) where
  verify-draw_proof :
      (r : Reveal) (d : Dice)
      → draw crates fuel r ≡ ok d
      → same r.commitment.game (codes "sicbo-room") ≡ true
      → verify crates fuel (draw_proof r d) ≡ ok (draw_proof r d)
  unfolding verify check_payout
  verify-draw_proof r d drawn room =
      rw
        (
          same_self r.commitment.game,
          drawn,
          same_dice_self d,
          ==_self (total d),
          same_bool_self (is_triple d),
          room,
        )
        refl

  verify-payout_proof :
      (r : Reveal) (d : Dice) (side : Side) (stake : ℤ)
      → draw crates fuel r ≡ ok d
      → allowed r.commitment.game stake ≡ true
      → verify crates fuel (payout_proof r d side stake) ≡ ok (payout_proof r d side stake)
  unfolding verify check_payout
  verify-payout_proof r d side stake drawn fits =
      rw
        (
          same_self r.commitment.game,
          drawn,
          same_dice_self d,
          ==_self (total d),
          same_bool_self (is_triple d),
          fits,
          same_bool_self (wins d side),
          same_int_self (delta d side stake),
        )
        refl

  published-verify :
      (p : SicboProof) (d : Dice)
      → draw crates fuel p.reveal ≡ ok d
      → IsPublished p d
      → verify crates fuel p ≡ ok p
  published-verify p d drawn (inl (whole, room)) =
      subst (λ x. verify crates fuel x ≡ ok x) (sym whole) (verify-draw_proof p.reveal d drawn room)
  published-verify p d drawn (inr (side, stake, whole, fits)) =
      subst (λ x. verify crates fuel x ≡ ok x) (sym whole)
        (verify-payout_proof p.reveal d side stake drawn fits)

  -- A proof is accepted exactly when its reveal opens to dice for which it is published, and what is
  -- returned is the proof itself.
  pub verify-IsPublished :
      (p q : SicboProof)
      → (verify crates fuel p ≡ ok q)
        ↔ ((q ≡ p) × (d : Dice) × (draw crates fuel p.reveal ≡ ok d) × IsPublished p d)
  unfolding verify
  verify-IsPublished p q = (
    λ e.
        let (kinds, e') =
          >>-eq-ok (same p.kind p.reveal.commitment.game) wrong_kind
            (draw crates fuel p.reveal >>= check_draw p) e in
        let (d, drawn, e'') = >>=-eq-ok (draw crates fuel p.reveal) (check_draw p) e' in
        let kind : p.kind ≡ p.reveal.commitment.game =
          same-eq p.kind p.reveal.commitment.game kinds in
        let (equal, published) = check_draw-IsPublished p q d kind e'' in
        (equal, d, drawn, published),
    λ (equal, d, drawn, published). published-verify p d drawn published ∙ ap ok (sym equal),
  )
