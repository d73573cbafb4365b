-- ===== src/Draw/Proof/Below.antt =====
-- draw-games/verifier/src/proof.rs: the draws of `below`, their end and their range.
use native.Mathlib.Nat.{mod-lt}
use bluffking.Prelude.{
  ℕ, zero, suc, ◌+◌, ◌-◌, ◌*◌, ◌%◌, ◌≤◌, ◌<◌, ◌≡◌, refl, ap, ◌≢◌, inl, inr, true, false, List,
  arith, ltb, leb, ◌==◌, Bool-cases, sum,
}
use bluffking.Prelude.{lt→ltb}
use bluffking.Draw.{Outcome, ok}
use bluffking.Draw.Proof.Binding.{entropy-ok}
use bluffking.Draw.Proof.{
  Crates, Reveal, Entropy, entropy, outcome_stream, word_at, stream_block, refill, word, accept,
  first_accepted, below,
}

-- Eight bytes of a block are read at a time.
abbrev pub IsAligned : Entropy → Type 0
IsAligned e = (j : ℕ) × (j ≤ 4) × (e.offset ≡ 8 * j)

module _ (crates : Crates) where
  -- Each block of a seed has among its four words one that is not below 16384.
  abbrev pub HasWords : List ℕ → Type 0
  HasWords seed =
      (counter : ℕ)
      → (k : ℕ) × (k < 4) × (16384 ≤ word_at (stream_block crates seed counter) (8 * k))

  -- What a draw of a value gives: it is below the bound, and so many blocks at most were begun.
  abbrev pub Drawn : ℕ → Entropy → ℕ → Outcome (ℕ × Entropy) → Type 0
  Drawn blocks e upper o =
      (v : ℕ) × (e' : Entropy) × (o ≡ ok (v, e'))
      × (v < upper)
      × IsAligned e'
      × (e'.seed ≡ e.seed)
      × (e'.counter ≤ e.counter + blocks)

  -- A word inside a block.
  word-inside :
      (e : Entropy) (j : ℕ)
      → j < 4
      → e.offset ≡ 8 * j
      → word crates e ≡ ok (word_at e.block e.offset, record e { offset = e.offset + 8 })
  unfolding word refill
  word-inside e j h o = let inside : (e.offset == 32) ≡ false = ground arith in rw inside refl

  -- The draw that ends in the block it is in.
  accept-inside :
      (fuel : ℕ) (e : Entropy) (j k threshold upper : ℕ)
      → e.offset ≡ 8 * j
      → j ≤ k
      → k < 4
      → k < j + fuel
      → threshold ≤ word_at e.block (8 * k)
      → 0 < upper
      → Drawn 0 e upper (accept crates fuel e threshold upper)
  unfolding accept
  accept-inside zero e j k threshold upper o le lt enough good pos = absurd (omega arith)
  accept-inside (suc fuel) e j k threshold upper o le lt enough good pos =
      let e1 : Entropy = record e { offset = e.offset + 8 } in
      rw (word-inside e j (omega arith) o)
        (elim (Bool-cases (leb threshold (word_at e.block e.offset))) [
          | inl taken ↦ rw taken (
            word_at e.block e.offset % upper,
            e1,
            refl,
            mod-lt (word_at e.block e.offset) pos,
            (j + 1, omega arith, omega arith),
            refl,
            omega arith,
          )
          | inr passed ↦
              let under : word_at e.block (8 * j) < threshold =
                ground (arith, ap (λ i. word_at e.block i) o) in
              let differ : j ≢ k =
                λ equal. omega (arith, ap (λ i. word_at e.block (8 * i)) equal) in
              rw passed (
                accept-inside fuel e1 (j + 1) k threshold upper (omega arith) (omega arith) lt
                  (omega arith) good pos)
        ])

  -- At the end of a block the next one is begun.
  word-refill :
      (e : Entropy)
      → e.offset ≡ 32
      → e.counter < 18446744073709551615
      → word crates e
        ≡ word crates (record e {
          block = stream_block crates e.seed e.counter;
          counter = e.counter + 1;
          offset = 0;
        })
  unfolding word refill
  word-refill e o room =
      let ended : (e.offset == 32) ≡ true = ground arith in
      let more : leb 18446744073709551615 e.counter ≡ false = ground arith in
      rw ended (rw more refl)

  -- The draw that may have to go on to the next block.
  accept-aligned :
      (rest fuel : ℕ) (e : Entropy) (j threshold upper : ℕ)
      → HasWords e.seed
      → e.offset ≡ 8 * j
      → j + rest ≡ 4
      → rest + 4 ≤ fuel
      → e.counter < 18446744073709551615
      → threshold ≤ 16384
      → 0 < upper
      → Drawn 1 e upper (accept crates fuel e threshold upper)
  unfolding accept
  accept-aligned rest zero e j threshold upper words o sum enough room low pos =
      absurd (omega arith)
  accept-aligned zero (suc fuel) e j threshold upper words o sum enough room low pos =
      let e1 : Entropy = record e {
        block = stream_block crates e.seed e.counter;
        counter = e.counter + 1;
        offset = 0;
      } in
      let (k, lt, good) = words e.counter in
      let (v, e', done, small, aligned, kept, blocks) =
        accept-inside (suc fuel) e1 0 k threshold upper (omega arith) (omega arith) lt (omega arith)
          (omega arith) pos in
      rw (word-refill e (omega arith) room) (v, e', done, small, aligned, kept, omega arith)
  accept-aligned (suc rest) (suc fuel) e j threshold upper words o sum enough room low pos =
      let e1 : Entropy = record e { offset = e.offset + 8 } in
      rw (word-inside e j (omega arith) o)
        (elim (Bool-cases (leb threshold (word_at e.block e.offset))) [
          | inl taken ↦ rw taken (
            word_at e.block e.offset % upper,
            e1,
            refl,
            mod-lt (word_at e.block e.offset) pos,
            (j + 1, omega arith, omega arith),
            refl,
            omega arith,
          )
          | inr passed ↦ rw passed (
              accept-aligned rest fuel e1 (j + 1) threshold upper words (omega arith) (omega arith)
                (omega arith) room low pos)
        ])

  -- A draw below a bound of at most 16384 ends within eight words, and its value is in range.
  pub below-Drawn :
      (fuel : ℕ) (e : Entropy) (upper : ℕ)
      → 8 ≤ fuel
      → IsAligned e
      → HasWords e.seed
      → e.counter < 18446744073709551615
      → 0 < upper
      → upper ≤ 16384
      → Drawn 1 e upper (below crates fuel e upper)
  unfolding below
  below-Drawn fuel e upper enough (j, le, o) words room pos small =
      let some_value : ltb 0 upper ≡ true = lt→ltb 0 upper pos in
      rw some_value (
        accept-aligned (4 - j) fuel e j (first_accepted upper) upper words o (omega arith)
          (omega arith) room
          (omega (arith, mod-lt ((18446744073709551616 - upper) % 18446744073709551616) pos)) pos)

  -- The stream of an opened reveal starts before its first block.
  pub entropy-start :
      (r : Reveal) {e : Entropy} → entropy crates r ≡ ok e → IsAligned e × (e.counter ≡ 0)
  unfolding outcome_stream
  entropy-start r {e} opened =
      let (_, server, client, _, _, _, _, stream) = entropy-ok crates r opened in
      let start : e.offset ≡ 32 = ap (λ (x : Entropy). x.offset) stream in
      ((4, omega arith, omega arith), ap (λ (x : Entropy). x.counter) stream)
