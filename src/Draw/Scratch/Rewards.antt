-- ===== src/Draw/Scratch/Rewards.antt =====
-- draw-games/verifier/src/scratch.rs: the rewards of a purchase, and what they settle for.
use bluffking.Prelude.{
  ℕ, zero, suc, ◌+◌, ◌*◌, ◌≤◌, ◌<◌, ◌≡◌, refl, sym, ap, subst, ◌∙◌, ◌⊎◌, inl, inr, true, ◌&&◌,
  Option, none, some, List, [], ◌∷◌, map, ℤ, pos, same_int, arith, leb, ◌==◌, if◌then◌else◌,
  if-elim, Bool-cases, length, All,
}
use bluffking.Draw.{
  Outcome, ok, ◌>>=◌, >>=-eq-ok, >>-eq-ok, ok-injective, &&-eq-true, same, codes,
  bad_reward_purchase,
}
use bluffking.Draw.Proof.{Crates, Reveal, Entropy, entropy, below}
use bluffking.Draw.Proof.Below.{HasWords, below-Drawn, entropy-start}
use bluffking.Draw.Scratch.Cards.{IsReady, IsReady-subst}
use bluffking.Draw.Scratch.{
  Reward, reward_for, settled_beans, beans, membership, settled, skip, draw_rewards, rewards,
  top_reward_beans,
}

-- A reward of either version settles for the same beans.
reward_for-settled : (n : ℕ) → settled (reward_for 1 n) ≡ settled (reward_for 2 n)
unfolding reward_for settled settled_beans
reward_for-settled n = elim (Bool-cases (n == 31)) [
  | inl top ↦
      let is_top : n ≡ 31 = ground (arith, top) in
      subst (λ k. settled (reward_for 1 k) ≡ settled (reward_for 2 k)) (sym is_top) refl
  | inr other ↦ rw other refl
]

-- It settles for nothing, or for at most 500000 beans.
abbrev pub IsPaid : Option Reward → Type 0
IsPaid reward =
    (settled reward ≡ ok none)
    ⊎ ((b : ℕ) × (settled reward ≡ ok (some (pos b))) × (0 < b) × (b ≤ top_reward_beans))

reward_for-IsPaid : (version n : ℕ) → IsPaid (reward_for version n)
unfolding reward_for settled settled_beans
reward_for-IsPaid version n =
    let more : ℕ → Option Reward = λ b. some (beans (pos b)) in
    let last = if n == 31 then more top_reward_beans else none in
    let top =
      if (n == 31) && (version == 1) then some (membership (codes "max") (pos 30)) else last in
    let mid = if leb 21 n && leb n 30 then more 1000 else top in
    let high = if n == 20 then more 100000 else mid in
    if-elim IsPaid (leb n 19) (λ e. inr (10000, refl, omega arith, omega arith))
      (λ e.
        if-elim IsPaid (n == 20) (λ e. inr (100000, refl, omega arith, omega arith))
          (λ e.
            if-elim IsPaid (leb 21 n && leb n 30) (λ e. inr (1000, refl, omega arith, omega arith))
              (λ e.
                if-elim IsPaid ((n == 31) && (version == 1))
                  (λ e. inr (top_reward_beans, refl, omega arith, omega arith))
                  (λ e.
                    if-elim IsPaid (n == 31)
                      (λ e. inr (top_reward_beans, refl, omega arith, omega arith))
                      (λ e. inl refl)))))

module _ (crates : Crates) (fuel : ℕ) where
  draw_rewards-settled :
      (k : ℕ) (e : Entropy) (xs ys : List (Option Reward))
      → draw_rewards crates fuel 1 k e ≡ ok xs
      → draw_rewards crates fuel 2 k e ≡ ok ys
      → map settled xs ≡ map settled ys
  unfolding draw_rewards
  draw_rewards-settled zero e xs ys h h' = cc
  draw_rewards-settled (suc k) e xs ys h h' =
      let next : ℕ → ℕ × Entropy → Outcome (List (Option Reward)) = λ version x.
        draw_rewards crates fuel version k x.1 >>= λ rest. ok (reward_for version x.0 ∷ rest) in
      let (x, drawn, h1) = >>=-eq-ok (below crates fuel e 10000) (next 1) h in
      let (x', drawn', h1') = >>=-eq-ok (below crates fuel e 10000) (next 2) h' in
      let (rest, others, h2) =
        >>=-eq-ok (draw_rewards crates fuel 1 k x.1) (λ rest. ok (reward_for 1 x.0 ∷ rest)) h1 in
      let (rest', others', h2') =
        >>=-eq-ok (draw_rewards crates fuel 2 k x'.1) (λ rest. ok (reward_for 2 x'.0 ∷ rest)) h1' in
      let equal : x ≡ x' = cc in
      let tails =
        draw_rewards-settled k x.1 rest rest' others
          (ap (λ (z : ℕ × Entropy). draw_rewards crates fuel 2 k z.1) equal ∙ others') in
      let head : settled (reward_for 1 x.0) ≡ settled (reward_for 2 x'.0) =
        reward_for-settled x.0 ∙ ap (λ (z : ℕ × Entropy). settled (reward_for 2 z.0)) equal in
      rw (← ok-injective h2) (rw (← ok-injective h2') cc)

  draw_rewards-IsPaid :
      (version k : ℕ) (e : Entropy) (xs : List (Option Reward))
      → draw_rewards crates fuel version k e ≡ ok xs
      → (length xs ≡ k) × All IsPaid xs
  unfolding draw_rewards
  draw_rewards-IsPaid version zero e xs h =
      subst (λ ys. (length ys ≡ 0) × All IsPaid ys) (ok-injective h) (refl, tt)
  draw_rewards-IsPaid version (suc k) e xs h =
      let (x, drawn, h1) =
        >>=-eq-ok (below crates fuel e 10000)
          (λ (x : ℕ × Entropy).
            draw_rewards crates fuel version k x.1 >>= λ rest. ok (reward_for version x.0 ∷ rest))
          h in
      let (rest, others, h2) =
        >>=-eq-ok (draw_rewards crates fuel version k x.1)
          (λ rest. ok (reward_for version x.0 ∷ rest)) h1 in
      let (len, paid) = draw_rewards-IsPaid version k x.1 rest others in
      subst (λ ys. (length ys ≡ suc k) × All IsPaid ys) (ok-injective h2)
        (ap suc len, (reward_for-IsPaid version x.0, paid))

  reward_draws : Reveal → ℕ → ℕ → Outcome (List (Option Reward))
  reward_draws r n version =
      entropy crates r >>= λ e. skip crates fuel (n * 7) e >>= draw_rewards crates fuel version n

  rewards-ok :
      (r : Reveal) (cost : ℤ) (n version : ℕ) (xs : List (Option Reward))
      → rewards crates fuel r cost n version ≡ ok xs
      → (e : Entropy) × (e' : Entropy) × (entropy crates r ≡ ok e)
        × (skip crates fuel (n * 7) e ≡ ok e')
        × (draw_rewards crates fuel version n e' ≡ ok xs)
  unfolding rewards reward_draws
  rewards-ok r cost n version xs h =
      let allowed =
        same r.commitment.game (codes "scratch")
        && (same_int cost (pos 100)
            && ((leb 1 n && leb n 1000) && (leb 1 version && leb version 2))) in
      let (_, h1) = >>-eq-ok allowed bad_reward_purchase (reward_draws r n version) h in
      let (e, opened, h2) =
        >>=-eq-ok (entropy crates r)
          (λ e. skip crates fuel (n * 7) e >>= draw_rewards crates fuel version n) h1 in
      let (e', skipped, h3) =
        >>=-eq-ok (skip crates fuel (n * 7) e) (draw_rewards crates fuel version n) h2 in
      (e, e', opened, skipped, h3)

  -- Rewards that are drawn can be settled, and are of a known version.
  pub rewards-versioned :
      (r : Reveal) (cost : ℤ) (n version : ℕ) (xs : List (Option Reward))
      → rewards crates fuel r cost n version ≡ ok xs
      → ((leb 1 version && leb version 2) ≡ true) × All IsPaid xs
  unfolding rewards reward_draws
  rewards-versioned r cost n version xs h =
      let known = leb 1 version && leb version 2 in
      let sized = (leb 1 n && leb n 1000) && known in
      let game = same r.commitment.game (codes "scratch") in
      let (allowed, _) =
        >>-eq-ok (game && (same_int cost (pos 100) && sized)) bad_reward_purchase
          (reward_draws r n version) h in
      let (_, rest) = &&-eq-true game (same_int cost (pos 100) && sized) allowed in
      let (_, rest') = &&-eq-true (same_int cost (pos 100)) sized rest in
      let (_, versioned) = &&-eq-true (leb 1 n && leb n 1000) known rest' in
      let (e, e', opened, skipped, drawn) = rewards-ok r cost n version xs h in
      (versioned, (draw_rewards-IsPaid version n e' xs drawn).1)

  -- Rewards that are drawn, which are as many as its cards, settle for the same beans under both
  -- versions of the rules, each for nothing or for at most 500000 beans.
  rewards-settled :
      (r : Reveal) (cost : ℤ) (n : ℕ) (xs ys : List (Option Reward))
      → rewards crates fuel r cost n 1 ≡ ok xs
      → rewards crates fuel r cost n 2 ≡ ok ys
      → (map settled xs ≡ map settled ys) × (length ys ≡ n) × All IsPaid ys
  rewards-settled r cost n xs ys h h' =
      let (e, e1, opened, skipped, drawn) = rewards-ok r cost n 1 xs h in
      let (e', e1', opened', skipped', drawn') = rewards-ok r cost n 2 ys h' in
      let start : e ≡ e' = ok-injective (sym opened ∙ opened') in
      let later : e1 ≡ e1' =
        ok-injective (sym skipped ∙ ap (skip crates fuel (n * 7)) start ∙ skipped') in
      let (len, paid) = draw_rewards-IsPaid 2 n e1' ys drawn' in
      (
        draw_rewards-settled n e1' xs ys (ap (draw_rewards crates fuel 1 n) (sym later) ∙ drawn)
            drawn',
        len,
        paid,
      )

module _ (crates : Crates) (fuel : ℕ) (enough : 8 ≤ fuel) where
  draw_below :
      (upper n : ℕ) (e : Entropy)
      → IsReady crates fuel enough (suc n) e
      → 0 < upper
      → upper ≤ 16384
      → (x : ℕ × Entropy) × (below crates fuel e upper ≡ ok x) × IsReady crates fuel enough n x.1
  draw_below upper n e (aligned, words, room) low high =
      let (v, e', drawn, small, aligned', kept, blocks) =
        below-Drawn crates fuel e upper enough aligned words (omega arith) low high in
      ((v, e'), drawn, (aligned', subst (HasWords crates) (sym kept) words, omega arith))

  skip-IsReady :
      (k n : ℕ) (e : Entropy)
      → IsReady crates fuel enough (k + n) e
      → (e' : Entropy) × (skip crates fuel k e ≡ ok e') × IsReady crates fuel enough n e'
  unfolding skip
  skip-IsReady zero n e ready = (e, refl, IsReady-subst crates fuel enough e (omega arith) ready)
  skip-IsReady (suc k) n e ready =
      let (x, drawn, ready1) =
        draw_below 30 (k + n) e (IsReady-subst crates fuel enough e (omega arith) ready)
          (omega arith) (omega arith) in
      let (e', rest, ready2) = skip-IsReady k n x.1 ready1 in (e', rw drawn rest, ready2)

  draw_rewards-ok :
      (version k : ℕ) (e : Entropy)
      → IsReady crates fuel enough k e
      → (xs : List (Option Reward)) × (draw_rewards crates fuel version k e ≡ ok xs)
  unfolding draw_rewards
  draw_rewards-ok version zero e ready = ([], refl)
  draw_rewards-ok version (suc k) e ready =
      let (x, drawn, ready1) = draw_below 10000 k e ready (omega arith) (omega arith) in
      let (xs, rest) = draw_rewards-ok version k x.1 ready1 in
      (reward_for version x.0 ∷ xs, rw drawn (rw rest refl))

  rewards-drawn :
      (r : Reveal) {e : Entropy} (n version : ℕ)
      → entropy crates r ≡ ok e
      → HasWords crates e.seed
      → same r.commitment.game (codes "scratch") ≡ true
      → (1 ≤ n) × (n ≤ 1000)
      → (1 ≤ version) × (version ≤ 2)
      → (xs : List (Option Reward)) × (rewards crates fuel r (pos 100) n version ≡ ok xs)
  unfolding rewards
  rewards-drawn r {e} n version opened words game (low, high) (old, new) =
      let (aligned, fresh) = entropy-start crates r opened in
      let (e', skipped, ready) = skip-IsReady (n * 7) n e (aligned, words, omega arith) in
      let (xs, done) = draw_rewards-ok version n e' ready in
      let sized : (leb 1 n && leb n 1000) ≡ true = ground arith in
      let versioned : (leb 1 version && leb version 2) ≡ true = ground arith in
      (xs, rw game (rw (sized, versioned) (rw opened (rw skipped done))))

  -- The rewards of a purchase of an opened reveal are drawn under both versions of the rules, one for
  -- each card, and both settle for the same beans, each reward for nothing or for at most 500000,
  -- when every block of the stream has a word that is not among the first 16384 values.
  pub rewards-IsPaid :
      (r : Reveal) {e : Entropy} (n : ℕ)
      → entropy crates r ≡ ok e
      → HasWords crates e.seed
      → same r.commitment.game (codes "scratch") ≡ true
      → (1 ≤ n) × (n ≤ 1000)
      → (xs : List (Option Reward)) × (ys : List (Option Reward)) × (rewards crates fuel r
            (pos 100)
            n
            1
          ≡ ok xs)
        × (rewards crates fuel r (pos 100) n 2 ≡ ok ys)
        × (map settled xs ≡ map settled ys)
        × (length ys ≡ n)
        × All IsPaid ys
  rewards-IsPaid r n opened words game size =
      let (xs, old) = rewards-drawn r n 1 opened words game size (omega arith, omega arith) in
      let (ys, new) = rewards-drawn r n 2 opened words game size (omega arith, omega arith) in
      let (alike, len, paid) = rewards-settled crates fuel r (pos 100) n xs ys old new in
      (xs, ys, old, new, alike, len, paid)
