-- ===== src/Draw/Scratch/Verify.antt =====
-- draw-games/verifier/src/scratch.rs: the receipts that `verify` accepts.
use bluffking.Prelude.{
  All-get, ℕ, ◌≡◌, refl, ap, ◌∙◌, ◌↔◌, inl, inr, true, ◌&&◌, Option, none, some, List, [], ◌∷◌, ℤ,
  pos, same_int, same_int-eq, same_int_self, leb, ==_self, get_elem?, count,
}
use bluffking.Draw.{
  ok, ◌>>=◌, ◌>>◌, guard, or_panic, or_panic-eq-ok, >>=-eq-ok, >>-eq-ok, &&-eq-true, same, same-eq,
  same_self, codes, wrong_kind, receipt_mismatch, bad_reward_version, reward_mismatch,
}
use bluffking.Draw.Proof.{Crates, Reveal}
use bluffking.Draw.Scratch.{
  Reward, beans, membership, ScratchCard, Receipt, Verified, same_ints, same_card, same_reward,
  settled, rewards, replay, verified, check_reward, check_card, verify,
}
use bluffking.Draw.Scratch.Rewards.{IsPaid, rewards-versioned}

same_ints-eq : (xs ys : List ℤ) → same_ints xs ys ≡ true → xs ≡ ys
unfolding same_ints
same_ints-eq [] [] e = refl
same_ints-eq [] (y ∷ ys) e = cc
same_ints-eq (x ∷ xs) [] e = cc
same_ints-eq (x ∷ xs) (y ∷ ys) e =
    let (one, rest) = &&-eq-true (same_int x y) (same_ints xs ys) e in
    let head : x ≡ y = same_int-eq x y one in let tail : xs ≡ ys = same_ints-eq xs ys rest in cc

same_ints_self : (xs : List ℤ) → same_ints xs xs ≡ true
unfolding same_ints
same_ints_self [] = refl
same_ints_self (x ∷ xs) = rw (same_int_self x) (same_ints_self xs)

same_reward-eq : (a b : Option Reward) → same_reward a b ≡ true → a ≡ b
unfolding same_reward
same_reward-eq none none e = refl
same_reward-eq none (some b) e = cc
same_reward-eq (some (beans m)) none e = cc
same_reward-eq (some (membership t m)) none e = cc
same_reward-eq (some (beans m)) (some (beans n)) e = ap (λ z. some (beans z)) (same_int-eq m n e)
same_reward-eq (some (beans m)) (some (membership u n)) e = cc
same_reward-eq (some (membership t m)) (some (beans n)) e = cc
same_reward-eq (some (membership t m)) (some (membership u n)) e =
    let (tiers, days) = &&-eq-true (same t u) (same_int m n) e in
    let one : t ≡ u = same-eq t u tiers in let two : m ≡ n = same_int-eq m n days in cc

same_reward_self : (a : Option Reward) → same_reward a a ≡ true
unfolding same_reward
same_reward_self none = refl
same_reward_self (some (beans m)) = same_int_self m
same_reward_self (some (membership t m)) = rw (same_self t) (same_int_self m)

-- The receipt that is issued for a card and a reward of a purchase.
abbrev pub receipt : Reveal → ℤ → ℕ → ℕ → ℕ → ScratchCard → Option Reward → Receipt
receipt r cost count index version c reward = record {
  kind = codes "scratch";
  reveal = r;
  cost = cost;
  count = count;
  index = index;
  numbers = c.numbers;
  lucky = c.lucky;
  prize = c.prize;
  hits = pos c.hits;
  reward_version = version;
  reward = reward;
}

same_card-eq :
    (x : Receipt) (c : ScratchCard)
    → same x.kind (codes "scratch") ≡ true
    → same_card x c ≡ true
    → x ≡ receipt x.reveal x.cost x.count x.index x.reward_version c x.reward
same_card-eq x c kind e =
    let awards = same_int x.prize c.prize && same_int x.hits (pos c.hits) in
    let (numbers, rest) =
      &&-eq-true (same_ints x.numbers c.numbers) (same_int x.lucky c.lucky && awards) e in
    let (lucky, rest') = &&-eq-true (same_int x.lucky c.lucky) awards rest in
    let (prize, hits) =
      &&-eq-true (same_int x.prize c.prize) (same_int x.hits (pos c.hits)) rest' in
    let one = same-eq x.kind (codes "scratch") kind in
    let two = same_ints-eq x.numbers c.numbers numbers in
    let three = same_int-eq x.lucky c.lucky lucky in
    let four = same_int-eq x.prize c.prize prize in
    let five = same_int-eq x.hits (pos c.hits) hits in cc

module _ (crates : Crates) (fuel : ℕ) where
  -- A receipt as it is issued: its card and its reward are those of its place in the purchase.
  abbrev pub IsIssued : Receipt → Type 0
  IsIssued x =
      (c : ScratchCard) × (expected : List (Option Reward)) × (replay crates fuel x.reveal x.cost
          x.count x.index
        ≡ ok c)
      × (rewards crates fuel x.reveal x.cost x.count x.reward_version ≡ ok expected)
      × (get_elem? expected x.index ≡ some x.reward)
      × (x ≡ receipt x.reveal x.cost x.count x.index x.reward_version c x.reward)

  verify-accepted : (x : Receipt) (v : Verified) → verify crates fuel x ≡ ok v → IsIssued x
  unfolding verify
  verify-accepted x v e =
      let (kind, e1) =
        >>-eq-ok (same x.kind (codes "scratch")) wrong_kind
          (replay crates fuel x.reveal x.cost x.count x.index >>= check_card crates fuel x) e in
      let (c, drawn, e2) =
        >>=-eq-ok (replay crates fuel x.reveal x.cost x.count x.index) (check_card crates fuel x)
          e1 in
      let drawn_rewards = rewards crates fuel x.reveal x.cost x.count x.reward_version in
      let reward_step = drawn_rewards >>= check_reward crates fuel x c in
      let known = leb 1 x.reward_version && leb x.reward_version 2 in
      let (card, e3) =
        >>-eq-ok (same_card x c) receipt_mismatch (guard known bad_reward_version >> reward_step)
          e2 in
      let (_, e4) = >>-eq-ok known bad_reward_version reward_step e3 in
      let (expected, drawn', e5) = >>=-eq-ok drawn_rewards (check_reward crates fuel x c) e4 in
      let pay = settled x.reward >>= λ paid. ok (verified crates fuel x c paid) in
      let (reward, found, e6) =
        >>=-eq-ok (or_panic (get_elem? expected x.index))
          (λ reward. guard (same_reward reward x.reward) reward_mismatch >> pay) e5 in
      let (equal, _) = >>-eq-ok (same_reward reward x.reward) reward_mismatch pay e6 in
      (
        c,
        expected,
        drawn,
        drawn',
        or_panic-eq-ok (get_elem? expected x.index) found
            ∙ ap some (same_reward-eq reward x.reward equal),
        same_card-eq x c kind card,
      )

  IsPaid-ok :
      (reward : Option Reward) → IsPaid reward → (paid : Option ℤ) × (settled reward ≡ ok paid)
  IsPaid-ok reward (inl nothing) = (none, nothing)
  IsPaid-ok reward (inr (b, paid, _, _)) = (some (pos b), paid)

  receipt-verify :
      (r : Reveal) (cost : ℤ) (count index version : ℕ) (c : ScratchCard) (reward : Option Reward)
      (expected : List (Option Reward))
      → replay crates fuel r cost count index ≡ ok c
      → rewards crates fuel r cost count version ≡ ok expected
      → get_elem? expected index ≡ some reward
      → (v : Verified) × (verify crates fuel (receipt r cost count index version c reward) ≡ ok v)
  unfolding verify
  receipt-verify r cost count index version c reward expected drawn drawn' found =
      let (known, all_paid) = rewards-versioned crates fuel r cost count version expected drawn' in
      let (paid, settles) =
        IsPaid-ok reward (All-get IsPaid expected index reward found all_paid) in
      let x = receipt r cost count index version c reward in
      (
        verified crates fuel x c paid,
        rw drawn (
            rw
              (
                same_ints_self c.numbers,
                same_int_self c.lucky,
                same_int_self c.prize,
                ==_self c.hits,
                known,
              )
              (rw drawn' (rw found (rw (same_reward_self reward) (rw settles refl))))),
      )

  -- A receipt is accepted exactly when it is issued: its card, its prize and its reward are those
  -- that its reveal gives for its place in the purchase.
  pub verify-IsIssued :
      (x : Receipt) → ((v : Verified) × (verify crates fuel x ≡ ok v)) ↔ IsIssued x
  verify-IsIssued x = (
    λ (v, e). verify-accepted x v e,
    λ (c, expected, drawn, drawn', found, whole).
        let (v, e) =
          receipt-verify x.reveal x.cost x.count x.index x.reward_version c x.reward expected drawn
            drawn' found in
        (v, ap (verify crates fuel) whole ∙ e),
  )
