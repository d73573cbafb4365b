-- ===== src/Draw/Proof/Bytes.antt =====
-- draw-games/verifier/src/proof.rs: the bytes that are hashed determine the fields.
use Prim.Native.Nat.{◌^◌}
use native.Mathlib.Nat.{
  mod-lt, div-add-mod, mul-add-mod_self_left, mod-eq_of_lt, pow-suc, pow-zero, add-mul,
}
use bluffking.Prelude.{
  ℕ, zero, suc, ◌+◌, ◌-◌, ◌*◌, ◌/◌, ◌%◌, ◌<◌, ◌≡◌, refl, sym, ap, ◌∙◌, List, [], ◌∷◌, ◌++◌, arith,
  length, All, length-append,
}
use bluffking.Draw.Proof.{to_be_bytes, from_be_bytes, framed}

mod-split : (p m : ℕ) → 0 < p → m % (p * 256) ≡ p * ((m / p) % 256) + m % p
mod-split p m h =
    let low : m % p < p = mod-lt m h in
    let digit : (m / p) % 256 < 256 = omega arith in
    let parts : m / p ≡ 256 * (m / p / 256) + (m / p) % 256 = omega arith in
    let gap : 255 ≡ (m / p) % 256 + (255 - (m / p) % 256) = omega arith in
    let whole : m ≡ (p * 256) * (m / p / 256) + (p * ((m / p) % 256) + m % p) =
      omega (arith, div-add-mod m p, ap (λ (k : ℕ). p * k) parts) in
    let bound : p * ((m / p) % 256) + m % p < p * 256 = omega (arith, ap (λ (k : ℕ). p * k) gap) in
    ap (λ k. k % (p * 256)) whole
    ∙ mul-add-mod_self_left (p * 256) (m / p / 256) (p * ((m / p) % 256) + m % p)
    ∙ mod-eq_of_lt bound

pow-pos : (w : ℕ) → 0 < 256 ^ w
pow-pos zero = rw (pow-zero 256) (omega arith)
pow-pos (suc w) = rw (pow-suc 256 w) (omega (arith, pow-pos w))

-- A number of so many bytes is read back from them.
pub from_be_bytes-to_be_bytes :
    (w n a : ℕ) → from_be_bytes (to_be_bytes w n) a ≡ a * 256 ^ w + n % 256 ^ w
unfolding from_be_bytes to_be_bytes
from_be_bytes-to_be_bytes zero n a = omega arith
from_be_bytes-to_be_bytes (suc w) n a =
    from_be_bytes-to_be_bytes w n (a * 256 + (n / 256 ^ w) % 256)
    ∙ omega (
      arith,
      add-mul (a * 256) (n / 256 ^ w % 256) (256 ^ w),
      ap (λ (k : ℕ). a * k) (pow-suc 256 w),
      mod-split (256 ^ w) n (pow-pos w),
      pow-suc 256 w,
      ap (λ (k : ℕ). n % k) (pow-suc 256 w),
    )

pub length-to_be_bytes : (w n : ℕ) → length (to_be_bytes w n) ≡ w
unfolding to_be_bytes
length-to_be_bytes zero n = refl
length-to_be_bytes (suc w) n = ap suc (length-to_be_bytes w n)

-- A list is the front of a concatenation together with the rest.
pub append-injective :
    (xs ys : List ℕ) {us vs : List ℕ}
    → length xs ≡ length ys
    → xs ++ us ≡ ys ++ vs
    → (xs ≡ ys) × (us ≡ vs)
append-injective [] [] h e = (refl, e)
append-injective [] (y ∷ ys) h e = absurd (omega arith)
append-injective (x ∷ xs) [] h e = absurd (omega arith)
append-injective (x ∷ xs) (y ∷ ys) {us} {vs} h e =
    let head : x ≡ y = cc in
    let tails : xs ++ us ≡ ys ++ vs = cc in
    let (front, rest) = append-injective xs ys (omega arith) tails in (cc, rest)

abbrev pub IsShort : List ℕ → Type 0
IsShort field = length field < 18446744073709551616

-- Lists of fields, all shorter than 2^64 bytes, are the same when their framings are.
pub framed-injective :
    (xs ys : List (List ℕ)) → All IsShort xs → All IsShort ys → framed xs ≡ framed ys → xs ≡ ys
unfolding framed
framed-injective [] [] px py e = refl
framed-injective [] (y ∷ ys) px py e = absurd (
    omega (
      arith,
      ap length e,
      length-append (to_be_bytes 8 (length y)) (y ++ framed ys),
      length-to_be_bytes 8 (length y),
    ))
framed-injective (x ∷ xs) [] px py e = absurd (
    omega (
      arith,
      ap length e,
      length-append (to_be_bytes 8 (length x)) (x ++ framed xs),
      length-to_be_bytes 8 (length x),
    ))
framed-injective (x ∷ xs) (y ∷ ys) (p, px) (q, py) e =
    let (head, rest) =
      append-injective (to_be_bytes 8 (length x)) (to_be_bytes 8 (length y))
        (length-to_be_bytes 8 (length x) ∙ sym (length-to_be_bytes 8 (length y))) e in
    let lengths : length x ≡ length y = omega (
      arith,
      from_be_bytes-to_be_bytes 8 (length x) 0,
      from_be_bytes-to_be_bytes 8 (length y) 0,
      ap (λ bs. from_be_bytes bs 0) head,
    ) in
    let (same_field, tails) = append-injective x y lengths rest in
    let fields : xs ≡ ys = framed-injective xs ys px py tails in cc
