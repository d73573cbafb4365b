-- ===== src/Hand/Injection.antt =====
-- engine/src/game/mod.rs: the errors of an injection, and what an injection gives.
use bluffking.Prelude.{ℕ, ◌≡◌, refl, Bool, true, false, Option, none, some, if◌then◌else◌}
use bluffking.Action.{Result, panicked, err, ok}
use bluffking.Card.{Card, Street}

pub data BlindInjectError : Type 0 where
  not_blind_mode no_board_pending not_at_showdown no_second_run_pending runout_choice_closed :
      BlindInjectError
  wrong_board_count : (street : Street) (expected got : ℕ) → BlindInjectError
  unknown_player player_is_folded already_revealed : (player_id : ℕ) → BlindInjectError
  duplicate_card : (card : Card) → BlindInjectError

-- What an injection gives. `crashed` stands for a panic.
pub data Injected {ℓ} (T : Type ℓ) : Type ℓ where
  crashed : Injected T
  refused : (reason : BlindInjectError) → Injected T
  accepted : (value : T) → Injected T

infixl 5 ◌>>=◌ ◌>>◌
abbrev pub ◌>>=◌ {ℓ κ} :
    {T : Type ℓ} {U : Type κ} (step : Injected T) (next : T → Injected U) → Injected U
crashed >>= next = crashed
refused reason >>= next = refused reason
accepted value >>= next = next value

abbrev pub ◌>>◌ {κ} : {U : Type κ} (step : Injected (Unit {0})) (next : Injected U) → Injected U
step >> next = step >>= λ nothing. next

abbrev pub guard : (allowed : Bool) (reason : BlindInjectError) → Injected (Unit {0})
guard allowed reason = if allowed then accepted tt else refused reason

-- `ok_or`
abbrev pub or_refuse {ℓ} : {T : Type ℓ} → Option T → BlindInjectError → Injected T
or_refuse none reason = refused reason
or_refuse (some value) reason = accepted value

-- A call of the engine inside an injection, its error mapped.
abbrev pub or_else {ℓ} : {T : Type ℓ} → Result T → BlindInjectError → Injected T
or_else panicked reason = crashed
or_else (err e) reason = refused reason
or_else (ok value) reason = accepted value

pub >>=-accepted {ℓ κ} :
    {T : Type ℓ} {U : Type κ} (step : Injected T) (next : T → Injected U) {u : U}
    → (step >>= next) ≡ accepted u
    → (t : T) × (step ≡ accepted t) × (next t ≡ accepted u)
>>=-accepted crashed next e = cc
>>=-accepted (refused reason) next e = cc
>>=-accepted (accepted value) next e = (value, refl, e)

pub >>-accepted {ℓ} :
    {U : Type ℓ} (c : Bool) (reason : BlindInjectError) (next : Injected U) {u : U}
    → (guard c reason >> next) ≡ accepted u
    → (c ≡ true) × (next ≡ accepted u)
>>-accepted true reason next e = (refl, e)
>>-accepted false reason next e = cc

pub or_refuse-accepted {ℓ} :
    {T : Type ℓ} (o : Option T) (reason : BlindInjectError) {t : T}
    → or_refuse o reason ≡ accepted t
    → o ≡ some t
or_refuse-accepted none reason e = cc
or_refuse-accepted (some value) reason e = cc

pub or_else-accepted {ℓ} :
    {T : Type ℓ} (o : Result T) (reason : BlindInjectError) {t : T}
    → or_else o reason ≡ accepted t
    → o ≡ ok t
or_else-accepted panicked reason e = cc
or_else-accepted (err x) reason e = cc
or_else-accepted (ok value) reason e = cc

pub accepted-injective {ℓ} : {T : Type ℓ} {a b : T} → accepted a ≡ accepted b → a ≡ b
accepted-injective e = cc
