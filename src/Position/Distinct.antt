-- ===== src/Position/Distinct.antt =====
-- engine/src/player.rs: the positions that `Position::for_seat` gives to different seats.
use native.Mathlib.Nat.{mod-eq-sub-mod, mod-eq_of_lt}
use mathlib.Core.Option.{some-injective}
use bluffking.Prelude.{ltb→lt}
use bluffking.Prelude.{
  ℕ, ◌+◌, ◌-◌, ◌%◌, ◌≤◌, ◌<◌, ◌≡◌, refl, sym, ap, subst, ◌∙◌, ◌⊎◌, inl, inr, true, false, some,
  List, arith, ltb, leb, ◌==◌, Bool-cases, length, get_elem?, position, any, get-bound,
  position-get, position-any,
}
use bluffking.Position.{
  Position, dealer, small_blind, big_blind, utg, utg_plus1, utg_plus2, lojack, hijack, cutoff,
  ring_label, label, distance, for_seat,
}

-- The place of a position in the data type.
abbrev pub place : Position → ℕ
place dealer = 0
place small_blind = 1
place big_blind = 2
place utg = 3
place utg_plus1 = 4
place utg_plus2 = 5
place lojack = 6
place hijack = 7
place cutoff = 8

ring_label-injective :
    (num d e : ℕ)
    → 5 < num
    → num ≤ 9
    → d < num
    → e < num
    → place (ring_label num d) ≡ place (ring_label num e)
    → d ≡ e
unfolding ring_label
ring_label-injective num d e low high hd he p = ground arith

label-injective :
    (num d e : ℕ)
    → 1 < num
    → num ≤ 9
    → d < num
    → e < num
    → place (label num d) ≡ place (label num e)
    → d ≡ e
unfolding label
label-injective num d e low high hd he p = ground (arith, ring_label-injective num d e)

wrap : (x n : ℕ) → n ≤ x → x < n + n → x % n ≡ x - n
wrap x n low high = mod-eq-sub-mod low ∙ mod-eq_of_lt (omega arith)

-- A distance is the difference of the ranks, around the table where the seat stands before.
distance-cases :
    (n r a : ℕ)
    → r < n
    → a < n
    → ((r ≤ a) × (distance n r a ≡ a - r)) ⊎ ((a < r) × (distance n r a ≡ a + n - r))
unfolding distance
distance-cases n r a hr ha = elim (Bool-cases (ltb a r)) [
  | inl e ↦ inr (ltb→lt a r e, mod-eq_of_lt (omega (arith, ltb→lt a r e)))
  | inr e ↦
      let le : r ≤ a = ground (arith, e) in
      inl (le, wrap (a + n - r) n (omega arith) (omega arith) ∙ omega (arith, le))
]

distance-injective : (n r a b : ℕ) → r < n → a < n → b < n → distance n r a ≡ distance n r b → a ≡ b
distance-injective n r a b hr ha hb e =
    omega (arith, distance-cases n r a hr ha, distance-cases n r b hr hb)

for_seat-label :
    (seat dealer_seat : ℕ) (active : List ℕ) (d i : ℕ)
    → 1 < length active
    → position (λ s. s == dealer_seat) active ≡ some d
    → position (λ s. s == seat) active ≡ some i
    → for_seat seat dealer_seat active
      ≡ label (length active % 256) (distance (length active) d i % 256)
unfolding for_seat
for_seat-label seat dealer_seat active d i low at_d at_i =
    let many : leb (length active) 1 ≡ false = ground arith in rw many (rw at_d (rw at_i refl))

position-eq :
    (a : ℕ) (active : List ℕ) (i : ℕ)
    → position (λ s. s == a) active ≡ some i
    → get_elem? active i ≡ some a
position-eq a active i e =
    let (x, get_i, is_x) = position-get (λ s. s == a) active i e in
    subst (λ z. get_elem? active i ≡ some z) (ground (arith, is_x)) get_i

label_byte-injective :
    (n r a b : ℕ)
    → 1 < n
    → n ≤ 9
    → r < n
    → a < n
    → b < n
    → label (n % 256) (distance n r a % 256) ≡ label (n % 256) (distance n r b % 256)
    → a ≡ b
label_byte-injective n r a b low high hr ha hb e =
    let da = distance-cases n r a hr ha in
    let db = distance-cases n r b hr hb in
    let same =
      label-injective (n % 256) (distance n r a % 256) (distance n r b % 256) (omega arith)
        (omega arith) (omega (arith, da)) (omega (arith, db)) (ap place e) in
    distance-injective n r a b hr ha hb (omega (arith, same, da, db))

-- Among two to nine seats with the dealer, two seats of the table with the same position are the
-- same seat.
pub for_seat-injective :
    (a b dealer_seat : ℕ) (active : List ℕ)
    → 1 < length active
    → length active ≤ 9
    → any (λ s. s == dealer_seat) active ≡ true
    → any (λ s. s == a) active ≡ true
    → any (λ s. s == b) active ≡ true
    → for_seat a dealer_seat active ≡ for_seat b dealer_seat active
    → a ≡ b
for_seat-injective a b dealer_seat active low high hd ha hb e =
    let (d, at_d) = position-any (λ s. s == dealer_seat) active hd in
    let (i, at_i) = position-any (λ s. s == a) active ha in
    let (j, at_j) = position-any (λ s. s == b) active hb in
    let bound = λ (p : ℕ) (k : ℕ) (at_k : position (λ s. s == p) active ≡ some k).
      get-bound active k p (position-eq p active k at_k) in
    let same : i ≡ j =
      label_byte-injective (length active) d i j low high (bound dealer_seat d at_d)
        (bound a i at_i) (bound b j at_j)
        (sym (for_seat-label a dealer_seat active d i low at_d at_i)
          ∙ e
          ∙ for_seat-label b dealer_seat active d j low at_d at_j) in
    some-injective _ _
      (sym (position-eq a active i at_i) ∙ ap (get_elem? active) same ∙ position-eq b active j at_j)
