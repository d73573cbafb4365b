-- ===== src/Draw/Zjh/Codes.antt =====
-- draw-games/verifier/src/zjh.rs: the wire codes of the deck's indices.
use bluffking.Prelude.{
  ℕ, zero, suc, ◌+◌, ◌*◌, ◌≤◌, ◌<◌, ◌≡◌, refl, ap, subst, inl, inr, Bool, true, false, ◌&&◌, List,
  [], ◌∷◌, arith, ◌==◌, if◌then◌else◌, Bool-cases, all,
}
use bluffking.Draw.{Outcome, panicked, starved, err, ok, &&-eq-true}
use bluffking.Draw.Zjh.{ranks, suits, code, range}

abbrev text_of : Outcome (List ℕ) → List ℕ
text_of (ok text) = text
text_of _ = []

-- The code of an index of the deck.
unfoldable pub code_text : ℕ → List ℕ
code_text i = text_of (code i)

-- The index that a code stands for.
place : ℕ → List ℕ → ℕ
place c [] = 0
place c (x ∷ xs) = let rest = place c xs in if x == c then 0 else rest + 1

index_of : List ℕ → ℕ
index_of (r ∷ s ∷ []) = 13 * place s suits + place r ranks
index_of _ = 0

abbrev is_ok {ℓ} : {T : Type ℓ} → Outcome T → Bool
is_ok (ok value) = true
is_ok _ = false

abbrev reads_back : ℕ → Bool
reads_back i = is_ok (code i) && (index_of (code_text i) == i)

table : all reads_back (range 0 52) ≡ true
unfolding all range code code_text index_of place
table = refl

all-range :
    (p : ℕ → Bool) (from len i : ℕ)
    → all p (range from len) ≡ true
    → from ≤ i
    → i < from + len
    → p i ≡ true
unfolding all range
all-range p from zero i h lo hi = absurd (omega arith)
all-range p from (suc len) i h lo hi =
    let (now, later) = &&-eq-true (p from) (all p (range (from + 1) len)) h in
    elim (Bool-cases (from == i)) [
      | inl here ↦ subst (λ k. p k ≡ true) (ground (arith, here)) now
      | inr after ↦ all-range p (from + 1) len i later (ground (arith, after)) (omega arith)
    ]

ok-text_of : (o : Outcome (List ℕ)) → is_ok o ≡ true → o ≡ ok (text_of o)
ok-text_of panicked h = cc
ok-text_of starved h = cc
ok-text_of (err reason) h = cc
ok-text_of (ok text) h = refl

pub code-code_text : (i : ℕ) → i < 52 → code i ≡ ok (code_text i)
unfolding code_text
code-code_text i h =
    let good = all-range reads_back 0 52 i table (omega arith) (omega arith) in
    ok-text_of (code i) (&&-eq-true (is_ok (code i)) (index_of (code_text i) == i) good).0

-- Two cards of the deck have different codes.
pub code_text-injective : (i j : ℕ) → i < 52 → j < 52 → code_text i ≡ code_text j → i ≡ j
code_text-injective i j hi hj e =
    let gi = all-range reads_back 0 52 i table (omega arith) (omega arith) in
    let gj = all-range reads_back 0 52 j table (omega arith) (omega arith) in
    let (_, ri) = &&-eq-true (is_ok (code i)) (index_of (code_text i) == i) gi in
    let (_, rj) = &&-eq-true (is_ok (code j)) (index_of (code_text j) == j) gj in
    ground (arith, ri, rj, ap index_of e)
