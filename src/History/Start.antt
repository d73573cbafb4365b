-- ===== src/History/Start.antt =====
-- engine/src/game/pots.rs: the seat where `compute_show_order` starts.
use native.Mathlib.Nat.{mod-lt, mod-eq_of_lt, mod-add-mod, mul-add-mod_self_left, div-add-mod}
use mathlib.Core.Option.{some-injective}
use bluffking.Prelude.{
  ℕ, zero, suc, ◌+◌, ◌-◌, ◌*◌, ◌/◌, ◌%◌, ◌≤◌, ◌<◌, ◌≡◌, refl, sym, ap, subst, ◌∙◌, ◌⊎◌, inl, inr,
  true, false, Option, none, some, List, [], ◌∷◌, arith, leb, ◌==◌, Bool-cases, Option-cases,
  length, get_elem?, All, position, count, take, get-in_range, get-bound, position-get,
}
use bluffking.Settle.Seat.{HandSeat, is_in}
use bluffking.History.{folded_at, first_in, start_index}

-- The seat so many places to the left of the one after the button.
abbrev pub left_of_button : List HandSeat → ℕ → ℕ → ℕ
left_of_button seats dealer_idx j = (dealer_idx % length seats + 1 + j) % length seats

-- The player at a seat is out of the hand.
abbrev pub IsOut : List HandSeat → ℕ → Type 0
IsOut seats idx = (s : HandSeat) × (get_elem? seats idx ≡ some s) × (s.folded ≡ true)

abbrev pub IsOther : ℕ → HandSeat → Type 0
IsOther pid s = (s.player_id == pid) ≡ false

-- The order starts at the first seat of the last raiser, and without one at the first seat to the left
-- of the button whose player is in. (A raiser without a seat gives the seat after the button.)
abbrev pub IsStart : List HandSeat → ℕ → Option ℕ → ℕ → Type 0
IsStart seats dealer_idx (some pid) k =
    ((s : HandSeat) × (get_elem? seats k ≡ some s)
      × (s.player_id ≡ pid)
      × All (IsOther pid) (take k seats))
    ⊎ (All (IsOther pid) seats × (k ≡ left_of_button seats dealer_idx 0))
IsStart seats dealer_idx none k =
    (j : ℕ) × (s : HandSeat) × (k ≡ left_of_button seats dealer_idx j)
    × (get_elem? seats k ≡ some s)
    × (s.folded ≡ false)
    × ((i : ℕ) → i < j → IsOut seats (left_of_button seats dealer_idx i))

position-first :
    (pid : ℕ) (seats : List HandSeat) (i : ℕ)
    → position (λ (s : HandSeat). s.player_id == pid) seats ≡ some i
    → All (IsOther pid) (take i seats)
unfolding position take
position-first pid [] i e = absurd (ground (arith, e))
position-first pid (s ∷ seats) i e = elim (Bool-cases (s.player_id == pid)) [
  | inl hit ↦
      let first : 0 ≡ i = some-injective 0 i (rw hit at e) in
      subst (λ k. All (IsOther pid) (take k (s ∷ seats))) first tt
  | inr miss ↦ elim (Option-cases (position (λ (s : HandSeat). s.player_id == pid) seats)) [
    | inl none_left ↦ absurd (ground (arith, rw (miss, none_left) at e))
    | inr (j, found) ↦
        let next : suc j ≡ i = some-injective (suc j) i (rw (miss, found) at e) in
        subst (λ k. All (IsOther pid) (take k (s ∷ seats))) next
          (miss, position-first pid seats j found)
  ]
]

position-none :
    (pid : ℕ) (seats : List HandSeat)
    → position (λ (s : HandSeat). s.player_id == pid) seats ≡ none
    → All (IsOther pid) seats
unfolding position
position-none pid [] e = tt
position-none pid (s ∷ seats) e = elim (Bool-cases (s.player_id == pid)) [
  | inl hit ↦ absurd (ground (arith, rw hit at e))
  | inr miss ↦ elim (Option-cases (position (λ (s : HandSeat). s.player_id == pid) seats)) [
    | inl none_left ↦ (miss, position-none pid seats none_left)
    | inr (j, found) ↦ absurd (ground (arith, rw (miss, found) at e))
  ]
]

folded_at-IsOut : (seats : List HandSeat) (idx : ℕ) → folded_at seats idx ≡ true → IsOut seats idx
folded_at-IsOut seats idx e = elim (Option-cases (get_elem? seats idx)) [
  | inl missing ↦ absurd (ground (arith, rw (folded_at, missing) at e))
  | inr (s, there) ↦ (s, there, rw (folded_at, there) at e)
]

below-suc :
    (P : ℕ → Type 0) (j : ℕ) → P 0 → ((i : ℕ) → i < j → P (suc i)) → (i : ℕ) → i < suc j → P i
below-suc P j first later zero h = first
below-suc P j first later (suc i) h = later i (omega (arith, h))

module _ (seats : List HandSeat) where
  -- The search from `b` stops at a seat that did not fold, or after `m` players that are out.
  first_in-found :
      (m b : ℕ)
      → (j : ℕ) × (j ≤ m)
        × (first_in seats m (b % length seats) ≡ (b + j) % length seats)
        × ((j ≡ m) ⊎ (folded_at seats ((b + j) % length seats) ≡ false))
        × ((i : ℕ) → i < j → IsOut seats ((b + i) % length seats))
  unfolding first_in
  first_in-found zero b =
      let here : b ≡ b + 0 = omega arith in
      (0, omega arith, ap (λ x. x % length seats) here, inl refl, λ i h. absurd (omega (arith, h)))
  first_in-found (suc m) b =
      let n = length seats in
      let here : b ≡ b + 0 = omega arith in
      elim (Bool-cases (folded_at seats (b % n))) [
        | inr stays ↦ (
          0,
          omega arith,
          rw stays (ap (λ x. x % n) here),
          inr (subst (λ x. folded_at seats (x % n) ≡ false) here stays),
          λ i h. absurd (omega (arith, h)),
        )
        | inl out ↦
            let (j, bound, at, stop, before) = first_in-found m (b + 1) in
            let shift : (i : ℕ) → b + 1 + i ≡ b + suc i = λ i. omega arith in
            let next : (b % n + 1) % n ≡ (b + 1) % n = mod-add-mod b n 1 in
            (
              suc j,
              omega (arith, bound),
              rw out (ap (first_in seats m) next ∙ at ∙ ap (λ x. x % n) (shift j)),
              elim stop [
                | inl all_out ↦ inl (ap suc all_out)
                | inr stays ↦ inr (subst (λ x. folded_at seats (x % n) ≡ false) (shift j) stays)
              ],
              below-suc (λ i. IsOut seats ((b + i) % n)) j
                  (subst (λ x. IsOut seats (x % n)) here (folded_at-IsOut seats (b % n) out))
                  (λ i h. subst (λ x. IsOut seats (x % n)) (shift i) (before i h)),
            )
      ]

  -- Some player is in.
  somebody :
      (xs : List HandSeat)
      → 0 < count is_in xs
      → (p : ℕ) × (s : HandSeat) × (get_elem? xs p ≡ some s) × (s.folded ≡ false)
  unfolding count
  somebody [] h = absurd (omega (arith, h))
  somebody (x ∷ xs) h = elim (Bool-cases x.folded) [
    | inr stays ↦ (0, x, refl, stays)
    | inl out ↦
        let (p, s, there, stays) = somebody xs (ground (arith, h, out)) in (suc p, s, there, stays)
  ]

  -- Each index is met in one walk around the table.
  met : (b p : ℕ) → p < length seats → (i : ℕ) × (i < length seats) × ((b + i) % length seats ≡ p)
  met b p h =
      let n = length seats in
      let q = b / n in
      let whole : n * q + b % n ≡ b = div-add-mod b n in
      let low : b % n < n = mod-lt b (omega (arith, h)) in
      let self : p % n ≡ p = mod-eq_of_lt h in
      elim (Bool-cases (leb (b % n) p)) [
        | inl ahead ↦
            let i = p - b % n in
            let place : b + i ≡ n * q + p = ground (arith, ahead, whole) in
            (i, omega (arith, h), ap (λ x. x % n) place ∙ mul-add-mod_self_left n q p ∙ self)
        | inr behind ↦
            let i = p + n - b % n in
            let place : b + i ≡ n * (q + 1) + p = ground (arith, behind, whole, low) in
            (
              i,
              ground (arith, h, behind, low),
              ap (λ x. x % n) place ∙ mul-add-mod_self_left n (q + 1) p ∙ self,
            )
      ]

  -- The order starts where it should.
  pub start_index-IsStart :
      (dealer_idx : ℕ) (raiser : Option ℕ)
      → 0 < count is_in seats
      → IsStart seats dealer_idx raiser (start_index seats dealer_idx raiser)
  start_index-IsStart dealer_idx (some pid) alive =
      elim (Option-cases (position (λ (s : HandSeat). s.player_id == pid) seats)) [
        | inl absent ↦
            let b = dealer_idx % length seats + 1 in
            let here : b ≡ b + 0 = omega arith in
            rw (start_index, absent)
              (inr (position-none pid seats absent, ap (λ x. x % length seats) here))
        | inr (i, found) ↦
            let (s, there, same) =
              position-get (λ (s : HandSeat). s.player_id == pid) seats i found in
            rw (start_index, found)
              (inl (s, there, ground (arith, same), position-first pid seats i found))
      ]
  start_index-IsStart dealer_idx none alive =
      let n = length seats in
      let b = dealer_idx % n + 1 in
      let (j, bound, at, stop, before) = first_in-found n b in
      let (p, t, there_t, stays_t) = somebody seats alive in
      let k = (b + j) % n in
      let some_seat : 0 < n = omega (arith, get-bound seats p t there_t) in
      let (s, there) = get-in_range seats k (mod-lt (b + j) some_seat) in
      let in_hand : s.folded ≡ false = elim stop [
        | inr stays ↦ rw (folded_at, there) at stays
        | inl all_out ↦
            let (i, small, meets) = met b p (get-bound seats p t there_t) in
            let (u, there_u, out) = before i (omega (arith, small, all_out)) in
            let same : t ≡ u =
              some-injective t u (sym there_t ∙ ap (get_elem? seats) (sym meets) ∙ there_u) in
            absurd (ground (arith, sym stays_t ∙ ap (λ (x : HandSeat). x.folded) same ∙ out))
      ] in
      subst (IsStart seats dealer_idx none) (sym at) (j, s, refl, there, in_hand, before)
