-- ===== src/Action.antt =====
-- engine/src/action.rs: the betting actions and the errors of a refused action, and the result
-- type of the engine's fallible calls. A player id and a chip count are numbers.
use bluffking.Prelude.{ℕ, Bool, true, false, ◌≡◌, refl}

pub data BlindKind : Type 0 where
  small big straddle : BlindKind

pub data PlayerAction : Type 0 where
  fold check call : PlayerAction
  raise : (amount : ℕ) → PlayerAction
  all_in : PlayerAction
  blind : (kind : BlindKind) (amount : ℕ) → PlayerAction

pub data ActionError : Type 0 where
  not_your_turn invalid_action below_min_raise not_in_hand hand_finished hand_not_started
        already_folded :
      ActionError

-- What a fallible call of the engine gives. `panicked` is an index out of bounds or a failed `expect`.
pub data Result {ℓ} (T : Type ℓ) : Type ℓ where
  panicked : Result T
  err : (reason : ActionError) → Result T
  ok : (value : T) → Result T

-- `?` and `and_then`: the next call runs on a value.
infixl 5 ◌>>=◌ ◌>>◌
abbrev pub ◌>>=◌ {ℓ κ} :
    {T : Type ℓ} {U : Type κ} (step : Result T) (next : T → Result U) → Result U
panicked >>= next = panicked
err reason >>= next = err reason
ok value >>= next = next value

-- The next call runs after one that gives nothing.
abbrev pub ◌>>◌ {κ} : {U : Type κ} (step : Result (Unit {0})) (next : Result U) → Result U
step >> next = step >>= λ nothing. next

-- `if !allowed { return Err(reason) }`
abbrev pub guard : (allowed : Bool) (reason : ActionError) → Result (Unit {0})
guard allowed reason = elim allowed [ true ↦ ok tt | false ↦ err reason ]

pub >>=-eq-ok {ℓ κ} :
    {T : Type ℓ} {U : Type κ} (step : Result T) (next : T → Result U) {u : U}
    → (step >>= next) ≡ ok u
    → (t : T) × (step ≡ ok t) × (next t ≡ ok u)
>>=-eq-ok panicked next e = cc
>>=-eq-ok (err reason) next e = cc
>>=-eq-ok (ok value) next e = (value, refl, e)

pub >>-eq-ok {ℓ} :
    {B : Type ℓ} (c : Bool) (e : ActionError) (k : Result B) {b : B}
    → (guard c e >> k) ≡ ok b
    → (c ≡ true) × (k ≡ ok b)
>>-eq-ok true e k h = (refl, h)
>>-eq-ok false e k h = cc

pub ok-injective {ℓ} : {A : Type ℓ} {a b : A} → ok a ≡ ok b → a ≡ b
ok-injective h = cc
