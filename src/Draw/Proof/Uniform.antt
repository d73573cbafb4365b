-- ===== src/Draw/Proof/Uniform.antt =====
-- draw-games/verifier/src/proof.rs: how many words `below` accepts for each value.
use native.Mathlib.Nat.{mod-lt, mod-eq_of_lt, mod-eq-sub-mod, div-add-mod, mul-add-mod_self_left}
use bluffking.Prelude.{
  lt→ltb, ℕ, zero, suc, ◌+◌, ◌*◌, ◌/◌, ◌%◌, ◌≤◌, ◌<◌, ◌≡◌, refl, sym, ap, ◌∙◌, inl, inr, Bool, true,
  false, ◌&&◌, [], ◌++◌, arith, ltb, leb, ◌==◌, if◌then◌else◌, Bool-cases, take,
}
use bluffking.Draw.{Outcome, ok, starved}
use bluffking.Draw.Proof.{
  Entropy, Crates, zeros, to_be_bytes, word_at, refill, word, accept, below, first_accepted,
}
use bluffking.Draw.Proof.Bytes.{from_be_bytes-to_be_bytes}

abbrev one_if : Bool → ℕ
one_if true = 1
one_if false = 0

-- Of the words below `n`, how many give `v` when they are not below `threshold`.
unfoldable accepted : ℕ → ℕ → ℕ → ℕ → ℕ
accepted threshold upper v zero = 0
accepted threshold upper v (suc n) =
    accepted threshold upper v n + one_if (leb threshold n && (n % upper == v))

module _ (upper v : ℕ) (range : v < upper) where
  -- With no threshold, each full run of `upper` words has `v` once.
  accepted-run : (q r : ℕ) → r ≤ upper → accepted 0 upper v (upper * q + r) ≡ q + one_if (ltb v r)
  unfolding accepted
  accepted-run zero zero h =
      let none_yet : upper * 0 + 0 ≡ 0 = omega arith in
      ap (accepted 0 upper v) none_yet ∙ ground arith
  accepted-run (suc q) zero h =
      let full : upper * suc q + 0 ≡ upper * q + upper = omega arith in
      ap (accepted 0 upper v) full
      ∙ ground (arith, accepted-run q upper (omega arith), lt→ltb v upper range)
  accepted-run q (suc r) h =
      let place : (upper * q + r) % upper ≡ r =
        mul-add-mod_self_left upper q r ∙ mod-eq_of_lt (omega arith) in
      let next : upper * q + suc r ≡ suc (upper * q + r) = omega arith in
      ap (accepted 0 upper v) next ∙ rw place (ground (arith, accepted-run q r (omega arith)))

  accepted-none : (threshold m : ℕ) → m ≤ threshold → accepted threshold upper v m ≡ 0
  unfolding accepted
  accepted-none threshold zero h = refl
  accepted-none threshold (suc m) h = ground (arith, accepted-none threshold m (omega arith))

  accepted-above :
      (threshold k : ℕ)
      → accepted threshold upper v (threshold + k) + accepted 0 upper v threshold
        ≡ accepted 0 upper v (threshold + k)
  unfolding accepted
  accepted-above threshold zero =
      let same_place : threshold + 0 ≡ threshold = omega arith in
      omega (
        arith,
        ap (accepted threshold upper v) same_place,
        ap (accepted 0 upper v) same_place,
        accepted-none threshold threshold (omega arith),
      )
  accepted-above threshold (suc k) =
      let next : threshold + suc k ≡ suc (threshold + k) = omega arith in
      rw next (ground (arith, accepted-above threshold k))

  accepted-uniform :
      upper < 18446744073709551616
      → accepted (first_accepted upper) upper v 18446744073709551616 ≡ 18446744073709551616 / upper
  accepted-uniform small =
      let q = 18446744073709551616 / upper in
      let t = 18446744073709551616 % upper in
      let whole : upper * q + t ≡ 18446744073709551616 = div-add-mod 18446744073709551616 upper in
      let start : first_accepted upper ≡ t =
        ap (λ (n : ℕ). n % upper) (omega arith)
        ∙ sym (mod-eq-sub-mod {n = 18446744073709551616} {m = upper} (omega arith)) in
      let low : t < upper = mod-lt 18446744073709551616 (omega arith) in
      let above = accepted-above t (upper * q) in
      let order : t + upper * q ≡ 18446744073709551616 = omega arith in
      let first = accepted-run 0 t (omega arith) in
      let last = accepted-run q t (omega arith) in
      let from_zero : upper * 0 + t ≡ t = omega arith in
      rw start (
        omega (
          arith,
          above,
          first,
          last,
          ap (accepted t upper v) order,
          ap (accepted 0 upper v) order,
          ap (accepted 0 upper v) whole,
          ap (accepted 0 upper v) from_zero,
        ))

-- A stream whose next word is `w`.
abbrev pub holding : ℕ → Entropy
holding w = record { seed = []; counter = 0; block = to_be_bytes 8 w ++ zeros 24; offset = 0 }

-- Whether a draw gave a value.
abbrev pub gives : ℕ → Outcome (ℕ × Entropy) → Bool
gives v (ok (x, e)) = x == v
gives v _ = false

gives-if :
    (threshold upper v w : ℕ) (e : Entropy)
    → gives v (if leb threshold w then ok (w % upper, e) else starved)
      ≡ (leb threshold w && (w % upper == v))
gives-if threshold upper v w e = elim (Bool-cases (leb threshold w)) [
  | inl over ↦ rw over refl
  | inr under ↦ rw under refl
]

module _ (crates : Crates) (upper v : ℕ) where
  -- For how many of the words below `n` a draw that reads one word gives `v`.
  unfoldable pub drawn : ℕ → ℕ
  drawn zero = 0
  drawn (suc n) = drawn n + one_if (gives v (below crates 1 (holding n) upper))

  holding-word : (w : ℕ) → w < 18446744073709551616 → word_at (holding w).block 0 ≡ w
  unfolding word_at take to_be_bytes
  holding-word w small =
      from_be_bytes-to_be_bytes 8 w 0
      ∙ omega (arith, mod-eq_of_lt {n = w} {m = 18446744073709551616} small)

  below-gives :
      (w : ℕ)
      → 0 < upper
      → w < 18446744073709551616
      → gives v (below crates 1 (holding w) upper)
        ≡ (leb (first_accepted upper) w && (w % upper == v))
  unfolding below accept word refill
  below-gives w some_upper small =
      let t = first_accepted upper in
      let positive : ltb 0 upper ≡ true = lt→ltb 0 upper some_upper in
      let read : word_at (holding w).block 0 ≡ w = holding-word w small in
      let opened : below crates 1 (holding w) upper ≡ accept crates 1 (holding w) t upper =
        rw positive refl in
      ap (gives v) opened
      ∙ gives-if t upper v (word_at (holding w).block 0) (record (holding w) { offset = 8 })
      ∙ ap (λ m. leb t m && (m % upper == v)) read

  drawn-accepted :
      (n : ℕ)
      → 0 < upper
      → n ≤ 18446744073709551616
      → drawn n ≡ accepted (first_accepted upper) upper v n
  unfolding drawn accepted
  drawn-accepted zero some_upper h = refl
  drawn-accepted (suc n) some_upper h = rw (below-gives n some_upper (omega (arith, h))) (
      ap (λ k. k + one_if (leb (first_accepted upper) n && (n % upper == v)))
        (drawn-accepted n some_upper (omega (arith, h))))

  -- Of all words of 64 bits, read as the first word of a stream, equally many make `below` give each
  -- value below a bound of less than 2 ^ 64, with one word for the draw.
  pub below-uniform :
      v < upper
      → upper < 18446744073709551616
      → drawn 18446744073709551616 ≡ 18446744073709551616 / upper
  below-uniform range small =
      drawn-accepted 18446744073709551616 (omega arith) (omega arith)
      ∙ accepted-uniform upper v range small
