-- ===== src/Settle/ButtonOrder.antt =====
-- engine/src/game/pots.rs: the offsets of `button_relative_order`.
use mathlib.Core.Option.{some-injective}
use native.Mathlib.Nat.{mod-lt, mod-eq_of_lt, mod-eq-sub-mod}
use bluffking.Prelude.{
  ltb→lt, ℕ, zero, suc, ◌+◌, ◌-◌, ◌%◌, ◌≤◌, ◌<◌, ◌≡◌, refl, sym, ap, subst, ◌∙◌, ◌⊎◌, inl, inr,
  true, false, ◌||◌, Option, none, some, List, [], ◌∷◌, map, arith, ltb, ◌==◌, if◌then◌else◌,
  Bool-cases, ==_self, length, get_elem?, get-in_range, contains, IsNodup,
}
use bluffking.Settle.Seat.{HandSeat, order_loop, button_relative_order}

contains-get {ℓ} :
    {A : Type ℓ} (f : A → ℕ) (xs : List A) (i : ℕ) (x : A)
    → get_elem? xs i ≡ some x
    → contains (f x) (map f xs) ≡ true
unfolding contains
contains-get f [] i x e = cc
contains-get f (y ∷ xs) zero x e =
    subst (λ z. (f z == f y || contains (f z) (map f xs)) ≡ true) (some-injective _ _ e)
      (ground (arith, ==_self (f y)))
contains-get f (y ∷ xs) (suc i) x e = ground (arith, contains-get f xs i x e)

-- Distinct ids stand at distinct indices.
get-injective {ℓ} :
    {A : Type ℓ} (f : A → ℕ) (xs : List A) (i j : ℕ) (x y : A)
    → IsNodup (map f xs)
    → get_elem? xs i ≡ some x
    → get_elem? xs j ≡ some y
    → f x ≡ f y
    → i ≡ j
get-injective f [] i j x y d ex ey e = cc
get-injective f (z ∷ xs) zero zero x y d ex ey e = refl
get-injective f (z ∷ xs) zero (suc j) x y d ex ey e =
    let same : f z ≡ f y = ap f (some-injective _ _ ex) ∙ e in
    let there = contains-get f xs j y ey in
    absurd (ground (arith, there, subst (λ v. contains v (map f xs) ≡ false) same d.0))
get-injective f (z ∷ xs) (suc i) zero x y d ex ey e =
    let same : f z ≡ f x = ap f (some-injective _ _ ey) ∙ sym e in
    let there = contains-get f xs i x ex in
    absurd (ground (arith, there, subst (λ v. contains v (map f xs) ≡ false) same d.0))
get-injective f (z ∷ xs) (suc i) (suc j) x y d ex ey e =
    ap suc (get-injective f xs i j x y d.1 ex ey e)

wrap-cases : (n x : ℕ) → x < n + n → ((x < n) × (x % n ≡ x)) ⊎ ((n ≤ x) × (x % n ≡ x - n))
wrap-cases n x h = elim (Bool-cases (ltb x n)) [
  | inl e ↦ inl (ltb→lt x n e, mod-eq_of_lt (ltb→lt x n e))
  | inr e ↦
      let above : n ≤ x = ground (arith, e) in
      inr (above, mod-eq-sub-mod above ∙ mod-eq_of_lt (omega (arith, above, h)))
]

-- Around a table, different offsets reach different indices.
around-injective :
    (n first a b : ℕ) → first < n → a < n → b < n → (first + a) % n ≡ (first + b) % n → a ≡ b
around-injective n first a b hf ha hb e =
    omega (arith, e, wrap-cases n (first + a) (omega arith), wrap-cases n (first + b) (omega arith))

module _ (seats : List HandSeat) (first : ℕ) (small : first < length seats)
    (d : IsNodup (map (λ (s : HandSeat). s.player_id) seats)) where
  loop-other :
      (k offset pid : ℕ) (order : ℕ → Option ℕ)
      → ((j : ℕ) (s : HandSeat)
          → offset ≤ j
          → j < offset + k
          → get_elem? seats ((first + j) % length seats) ≡ some s
          → (pid == s.player_id) ≡ false)
      → order_loop seats (length seats) first offset k order pid ≡ order pid
  unfolding order_loop
  loop-other zero offset pid order h = refl
  loop-other (suc k) offset pid order h =
      let (s, at_s) =
        get-in_range seats ((first + offset) % length seats)
          (mod-lt (first + offset) (omega arith)) in
      let differ = h offset s (omega arith) (omega arith) at_s in
      rw (at_s, order_loop)
        (loop-other k (offset + 1) pid (λ p. if p == s.player_id then some offset else order p)
            (λ j s' low high at_j. h j s' (omega arith) (omega arith) at_j)
          ∙ rw differ refl)

  distinct :
      (a b : ℕ) (s s' : HandSeat)
      → get_elem? seats ((first + a) % length seats) ≡ some s
      → get_elem? seats ((first + b) % length seats) ≡ some s'
      → a < b
      → a < length seats
      → b < length seats
      → (s.player_id == s'.player_id) ≡ false
  distinct a b s s' at_a at_b less ha hb = elim (Bool-cases (s.player_id == s'.player_id)) [
    | inl same ↦
        let index =
          get-injective (λ (s : HandSeat). s.player_id) seats ((first + a) % length seats)
            ((first + b) % length seats) s s' d at_a at_b (ground (arith, same)) in
        absurd (omega (arith, around-injective (length seats) first a b small ha hb index, less))
    | inr differ ↦ differ
  ]

  loop-at :
      (k offset t : ℕ) (order : ℕ → Option ℕ) (s : HandSeat)
      → offset ≤ t
      → t < offset + k
      → offset + k ≤ length seats
      → get_elem? seats ((first + t) % length seats) ≡ some s
      → order_loop seats (length seats) first offset k order s.player_id ≡ some t
  unfolding order_loop
  loop-at zero offset t order s low high top e = absurd (omega arith)
  loop-at (suc k) offset t order s low high top e = elim (Bool-cases (offset == t)) [
    | inl same ↦
        let now : t ≡ offset = ground (arith, same) in
        let at_s = subst (λ j. get_elem? seats ((first + j) % length seats) ≡ some s) now e in
        rw (at_s, order_loop)
          (loop-other k (offset + 1) s.player_id
              (λ p. if p == s.player_id then some offset else order p)
              (λ j s' low' high' at_j.
                distinct offset j s s' at_s at_j (omega arith) (omega arith) (omega arith))
            ∙ rw (==_self s.player_id) (ap some (sym now)))
    | inr later ↦
        let (s', at_s) =
          get-in_range seats ((first + offset) % length seats)
            (mod-lt (first + offset) (omega arith)) in
        rw (at_s, order_loop)
          (loop-at k (offset + 1) t (λ p. if p == s'.player_id then some offset else order p) s
            (ground (arith, later, low)) (omega arith) (omega arith) e)
  ]

-- At a table of distinct ids, the player who sits `k` seats to the left of the first seat after the button has
-- the order `k`.
pub button_relative_order-get :
    (seats : List HandSeat) (dealer_idx k : ℕ) (s : HandSeat)
    → IsNodup (map (λ (s : HandSeat). s.player_id) seats)
    → k < length seats
    → get_elem? seats (((dealer_idx % length seats + 1) % length seats + k) % length seats) ≡ some s
    → button_relative_order seats dealer_idx s.player_id ≡ some k
unfolding button_relative_order
button_relative_order-get seats dealer_idx k s d h e =
    let some_seat : (length seats == 0) ≡ false = ground (arith, h) in
    let first = (dealer_idx % length seats + 1) % length seats in
    rw some_seat (
      loop-at seats first (mod-lt (dealer_idx % length seats + 1) (omega arith)) d (length seats) 0
        k (λ pid. none) s (omega arith) (omega arith) (omega arith) e)
