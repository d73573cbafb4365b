-- ===== src/Hand/Antes.antt =====
-- engine/src/game/start.rs and engine/src/game/mod.rs: the positions of the blinds, and the antes.
use bluffking.Prelude.{
  ℕ, ◌+◌, ◌-◌, ◌%◌, min, Bool, true, false, ◌&&◌, Option, none, some, List, [], ◌∷◌, ◌++◌, map, ltb,
  leb, ◌==◌, if◌then◌else◌, get_elem?, modify, sum32, add32,
}
use bluffking.Action.{Result, panicked, ok}
use bluffking.Settle.Seat.{HandSeat}
use bluffking.Hand.State.{Hand, Phase, not_started}

-- `blind_positions`
unfoldable pub blind_positions : ℕ → ℕ → ℕ × ℕ
blind_positions dealer_idx n =
    if ltb n 2
    then (0, 0)
    else if n == 2
    then (dealer_idx % n, (dealer_idx % n + 1) % 2)
    else ((dealer_idx % n + 1) % n, (dealer_idx % n + 2) % n)

-- `forced_blind_positions`
unfoldable pub forced_blind_positions : Hand → ℕ → Option ℕ × ℕ
forced_blind_positions h n =
    let (sb, bb) = blind_positions h.dealer_idx n in
    if h.dead_small_blind && leb 3 n then (none, (h.dealer_idx % n + 1) % n) else (some sb, bb)

abbrev pub is_unstarted : Phase → Bool
is_unstarted not_started = true
is_unstarted _ = false

abbrev pub is_set : Option ℕ → Bool
is_set none = false
is_set (some amount) = true

-- `GameHand::ante`
abbrev pub ante_amount : Hand → ℕ
ante_amount h = elim h.bomb_pot [ none ↦ h.ante | some amount ↦ amount ]

abbrev pub all_ids : List HandSeat → List ℕ
all_ids = map (λ (s : HandSeat). s.player_id)

abbrev pub ante_of : ℕ → HandSeat → ℕ
ante_of ante s = min ante s.stack

-- A seat posts the ante, or what it has.
abbrev pub pay_ante : ℕ → HandSeat → HandSeat
pay_ante ante s =
    let stack' = s.stack - ante_of ante s in
    record s { stack = stack'; all_in = if stack' == 0 then true else s.all_in }

-- The antes, and what they are together.
unfoldable pub collect_antes : Hand → Hand × ℕ
collect_antes h =
    let ante = ante_amount h in
    let total = sum32 (map (ante_of ante) h.seats) in
    if ltb 0 ante
    then (
      record h {
        seats = map (pay_ante ante) h.seats;
        completed_pot = add32 h.completed_pot total;
        cumulative_side_pots =
            h.cumulative_side_pots
            ++ (record { cap = ante; amount = total; eligible = all_ids h.seats; refund_to = [] }
                ∷ []);
      },
      total,
    )
    else (h, 0)

-- `self.seats[idx]`
abbrev pub seat_at : Hand → ℕ → Result HandSeat
seat_at h idx = elim (get_elem? h.seats idx) [ none ↦ panicked | some s ↦ ok s ]

-- The ante of the big blind's seat, behind the live blind.
unfoldable pub post_big_blind_ante : ℕ → Hand × ℕ → HandSeat → Hand × ℕ
post_big_blind_ante bb_idx (h, total) s =
    let amount = min (s.stack - h.big_blind) h.big_blind_ante in
    if ltb 0 h.big_blind_ante && ltb 0 amount
    then (
      record h {
        seats = modify h.seats bb_idx (λ _. record s { stack = s.stack - amount });
        posted_big_blind_ante = some (s.player_id, amount);
        completed_pot = add32 h.completed_pot amount;
        cumulative_side_pots =
            h.cumulative_side_pots
            ++ (record { cap = 0; amount = amount; eligible = all_ids h.seats; refund_to = [] }
                ∷ []);
      },
      add32 total amount,
    )
    else (h, total)
