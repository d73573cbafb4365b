-- ===== src/Settle/Split.antt =====
-- engine/src/game/mod.rs: the results of a pot; engine/src/game/pots.rs: the equal split of a pot
-- with its odd chips. The map of button-relative seat orders is a function.
use bluffking.Prelude.{
  ℕ, ◌/◌, ◌%◌, Bool, ◌&&◌, ◌||◌, Option, none, some, List, [], map, ltb, leb, ◌==◌, if◌then◌else◌,
  length, sort_by, contains, add32, take,
}

pub record PotWinner : Type 0 where
  pub player_id : ℕ
  pub amount_won : ℕ

pub record PotResult : Type 0 where
  pub index : ℕ
  pub amount : ℕ
  pub eligible_player_ids : List ℕ
  pub winners : List PotWinner
  pub is_refund : Bool

-- `.unwrap_or(usize::MAX)`
abbrev pub seat_order : Option ℕ → ℕ
seat_order none = 18446744073709551615
seat_order (some n) = n

-- The order of the keys `(button order, player id)`.
unfoldable pub key_leb : (ℕ → Option ℕ) → ℕ → ℕ → Bool
key_leb order x y =
    let a = seat_order (order x) in let b = seat_order (order y) in ltb a b || a == b && leb x y

unfoldable pub odd_chip_recipients : List ℕ → ℕ → (ℕ → Option ℕ) → List ℕ
unfolding key_leb
odd_chip_recipients ids rem order = if rem == 0 then [] else take rem (sort_by (key_leb order) ids)

-- What a player gets of a pot whose share is `base`.
unfoldable pub paid : ℕ → List ℕ → ℕ → PotWinner
paid base odd_recipients pid = record {
  player_id = pid;
  amount_won = add32 base (if contains pid odd_recipients then 1 else 0);
}

-- The base shares and the odd chips of a pot among `ids`. (`len() as u32` is the length: a list of
-- ids is far shorter than 2 ^ 32.)
unfoldable pub split_pot : List ℕ → ℕ → (ℕ → Option ℕ) → List PotWinner
unfolding odd_chip_recipients paid
split_pot ids amount order =
    let n = length ids in
    let odd_recipients = odd_chip_recipients ids (amount % n) order in
    map (paid (amount / n) odd_recipients) ids
