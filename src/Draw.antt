-- ===== src/Draw.antt =====
-- draw-games/verifier/src: the games whose draws are committed before play and replayed after it.
-- This file has the results of the fallible calls; the children are named after the source's files.
use Prim.Native.Char.{code}
use Prim.Native.String.{String}
use bluffking.Prelude.{
  ℕ, zero, suc, ◌+◌, ◌-◌, ◌*◌, ◌/◌, ◌%◌, ◌≤◌, ◌<◌, min, max, ◌≡◌, refl, sym, ap, subst, ◌∙◌, ◌≢◌,
  ◌↔◌, ◌⊎◌, inl, inr, Bool, true, false, not, ◌&&◌, ◌||◌, Option, none, some, List, [], ◌∷◌, ◌++◌,
  map, arith, ltb, leb, ◌==◌, if◌then◌else◌, if-elim, Bool-cases, Option-cases, ==_iff, ==_self,
  length, get_elem?, All, length-append, keep, length-map, All-append, All-if, modify, find,
  position, any, all, filter, count, sum_by, drop, drop-get, rotate, take-all, length-drop,
  count-rotate, map-filter-IsNodup, sort_by-All, IsSorted, sort_by-IsSorted, filter-sort_by,
  take_while-filter, take, take_while, map-sort_by-IsNodup, map-take_while-IsNodup,
  contains-map-sort_by, contains-map-take_while, sum_by-add, get-in_range, get-bound, position-get,
  position-any, count-modify, length-modify, get_elem?-modify_ne, get_elem?-modify_self, sort,
  dedup, sum32, sum, IsAscending, Occurs, sum32-eq, sort-IsAscending, sort-Occurs,
  dedup-IsAscending, dedup-Occurs, insert_by, sort_by, contains, sum_by-sort_by, length-sort_by,
  IsNodup, contains-sort_by, sort_by-IsNodup, sum_by-take, sum_by-const, sum_by-map, add32, sub32,
  u32_mod, saturating_add, add32-eq, sub32-eq,
}
pub mod Proof
mod Tests
pub mod Sicbo
pub mod Zjh
pub mod Scratch
pub mod Text

-- The messages of the source's errors.
pub data DrawError : Type 0 where
  bad_seed bad_context not_committed room_client_seed wrong_game wrong_kind draw_mismatch
        stake_out_of_range payout_mismatch incomplete_payout bad_draw_id seats_differ
        nothing_disclosed cards_mismatch bad_purchase bad_card index_outside receipt_mismatch
        bad_reward_version reward_mismatch bad_reward bad_reward_purchase :
      DrawError

-- What a fallible call gives. `panicked` is a failed `assert!`, `expect` or index, and `starved`
-- says that the words on which the model ran were all rejected.
pub data Outcome {ℓ} (T : Type ℓ) : Type ℓ where
  panicked starved : Outcome T
  err : (reason : DrawError) → Outcome T
  ok : (value : T) → Outcome T

infixl 5 ◌>>=◌ ◌>>◌
abbrev pub ◌>>=◌ {ℓ κ} :
    {T : Type ℓ} {U : Type κ} (step : Outcome T) (next : T → Outcome U) → Outcome U
panicked >>= next = panicked
starved >>= next = starved
err reason >>= next = err reason
ok value >>= next = next value

abbrev pub ◌>>◌ {κ} : {U : Type κ} (step : Outcome (Unit {0})) (next : Outcome U) → Outcome U
step >> next = step >>= λ nothing. next

-- `if !allowed { return Err(reason) }`
abbrev pub guard : (allowed : Bool) (reason : DrawError) → Outcome (Unit {0})
guard allowed reason = if allowed then ok tt else err reason

-- `ok_or` and `map_err`
abbrev pub or_refuse {ℓ} : {T : Type ℓ} → Option T → DrawError → Outcome T
or_refuse none reason = err reason
or_refuse (some value) reason = ok value

pub or_refuse-eq-ok {ℓ} :
    {T : Type ℓ} (o : Option T) (reason : DrawError) {t : T}
    → or_refuse o reason ≡ ok t
    → o ≡ some t
or_refuse-eq-ok none reason e = cc
or_refuse-eq-ok (some value) reason e = cc

pub >>=-eq-ok {ℓ κ} :
    {T : Type ℓ} {U : Type κ} (step : Outcome T) (next : T → Outcome U) {u : U}
    → (step >>= next) ≡ ok u
    → (t : T) × (step ≡ ok t) × (next t ≡ ok u)
>>=-eq-ok panicked next e = cc
>>=-eq-ok starved next e = cc
>>=-eq-ok (err reason) next e = cc
>>=-eq-ok (ok value) next e = (value, refl, e)

pub >>-eq-ok {ℓ} :
    {U : Type ℓ} (c : Bool) (reason : DrawError) (next : Outcome U) {u : U}
    → (guard c reason >> next) ≡ ok u
    → (c ≡ true) × (next ≡ ok u)
>>-eq-ok true reason next e = (refl, e)
>>-eq-ok false reason next e = cc

pub ok-injective {ℓ} : {T : Type ℓ} {a b : T} → ok a ≡ ok b → a ≡ b
ok-injective e = cc

pub err-ne-ok {ℓ} : {T : Type ℓ} {reason : DrawError} {a : T} → err reason ≡ ok a → ⊥
err-ne-ok e = cc

-- A test of two parts.
pub &&-eq-true : (a b : Bool) → (a && b) ≡ true → (a ≡ true) × (b ≡ true)
&&-eq-true true b e = (refl, e)
&&-eq-true false b e = cc

pub ||-eq-true : (a b : Bool) → (a || b) ≡ true → (a ≡ true) ⊎ (b ≡ true)
||-eq-true true b e = inl refl
||-eq-true false b e = inr e

-- The characters of an ASCII text, which are its bytes.
abbrev pub codes : String → List ℕ
codes String.[] = []
codes (String.◌∷◌ c s) = code c ∷ codes s

-- Bytes are numbers, and texts are the lists of their bytes.
abbrev pub same : List ℕ → List ℕ → Bool
same [] [] = true
same (x ∷ xs) (y ∷ ys) = (x == y) && same xs ys
same _ _ = false

pub same-eq : (xs ys : List ℕ) → same xs ys ≡ true → xs ≡ ys
same-eq [] [] e = refl
same-eq [] (y ∷ ys) e = cc
same-eq (x ∷ xs) [] e = cc
same-eq (x ∷ xs) (y ∷ ys) e = elim (Bool-cases (x == y)) [
  | inl equal ↦
      let head : x ≡ y = ground arith in let tail : xs ≡ ys = same-eq xs ys (ground arith) in cc
  | inr differ ↦ absurd (ground arith)
]

pub same_self : (xs : List ℕ) → same xs xs ≡ true
same_self [] = refl
same_self (x ∷ xs) = rw (==_self x) (same_self xs)

-- An index, and an `unwrap`, that panics out of bounds.
abbrev pub or_panic {ℓ} : {T : Type ℓ} → Option T → Outcome T
or_panic none = panicked
or_panic (some value) = ok value

pub or_panic-eq-ok {ℓ} : {T : Type ℓ} (o : Option T) {t : T} → or_panic o ≡ ok t → o ≡ some t
or_panic-eq-ok none e = cc
or_panic-eq-ok (some value) e = cc
