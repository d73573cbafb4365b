-- ===== src/Hand/Reach/Started.antt =====
-- engine/src/game/start.rs: the start of a blind hand shows no card.
use bluffking.Prelude.{
  ℕ, ◌+◌, ◌-◌, ◌%◌, min, ◌≡◌, refl, ap, subst, ◌∙◌, ◌⊎◌, inl, inr, true, not, ◌&&◌, ◌||◌, Option,
  none, some, arith, ltb, leb, Bool-cases, Option-cases, length, get_elem?, add32, saturating_add,
}
use bluffking.Action.{
  Result, ok, ok-injective, >>=-eq-ok, >>-eq-ok, ◌>>◌, guard, hand_finished, invalid_action,
  not_in_hand,
}
use bluffking.Card.{preflop}
use bluffking.Settle.Seat.{HandSeat}
use bluffking.Hand.State.{Hand, betting, blind_mode}
use bluffking.Hand.Snapshot.{snapshot-same}
use bluffking.Hand.Street.{synced, sync_stacks_from_round}
use bluffking.Hand.Start.{
  is_unstarted, is_set, ante_amount, pay_ante, collect_antes, seat_at, post_big_blind_ante,
  deal_hole_cards, Straddle, ForcedBets, small_amount, big_amount, record_small, record_big,
  optional_seat, straddle_amount, straddle_from, post_straddle, forced_bets, forced_big,
  forced_small, post_forced, preflop_round, bring_in, open_preflop, skip_preflop, start_bomb_pot,
  deal_and_open, blinds_from, start_blinds, start_paid, table_total, forced_blind_positions, start,
}
use bluffking.Hand.Board.Shown.{SameCards, SameCards-trans, SameCards-refl, close-SameCards}
use bluffking.Hand.Reach.Acted.{all_revealed-map, all_revealed-modify}

seat_at-get :
    (h : Hand) (idx : ℕ) (s : HandSeat) → seat_at h idx ≡ ok s → get_elem? h.seats idx ≡ some s
seat_at-get h idx s e = elim (Option-cases (get_elem? h.seats idx)) [
  | inl missing ↦ absurd (ground (arith, simp (seat_at, missing) at e))
  | inr (t, found) ↦ found ∙ ap some (ok-injective (simp (seat_at, found) at e))
]

collect_antes-SameCards : (h : Hand) → SameCards h (collect_antes h).0
unfolding collect_antes
collect_antes-SameCards h = elim (Bool-cases (ltb 0 (ante_amount h))) [
  | inl some_ante ↦
      simp (collect_antes, some_ante)
        (record {
          same_mode = refl;
          same_board = refl;
          same_second = refl;
          same_shown = all_revealed-map (pay_ante (ante_amount h)) (λ s. refl) h.seats;
        })
  | inr no_ante ↦ simp (collect_antes, no_ante) (SameCards-refl h)
]

post_big_blind_ante-SameCards :
    (idx total : ℕ) (h : Hand) (s : HandSeat)
    → get_elem? h.seats idx ≡ some s
    → SameCards h (post_big_blind_ante idx (h, total) s).0
unfolding post_big_blind_ante
post_big_blind_ante-SameCards idx total h s found =
    let amount = min (s.stack - h.big_blind) h.big_blind_ante in
    elim (Bool-cases (ltb 0 h.big_blind_ante && ltb 0 amount)) [
      | inl posted ↦
          simp (post_big_blind_ante, posted)
            (record {
              same_mode = refl;
              same_board = refl;
              same_second = refl;
              same_shown =
                  all_revealed-modify h.seats idx s (record s { stack = s.stack - amount }) found
                    refl;
            })
      | inr none_posted ↦ simp (post_big_blind_ante, none_posted) (SameCards-refl h)
    ]

record_small-SameCards :
    (s : Option HandSeat) (total : ℕ) (h : Hand) → SameCards h (record_small s total h)
record_small-SameCards none total h = SameCards-refl h
record_small-SameCards (some s) total h = record {
  same_mode = refl;
  same_board = refl;
  same_second = refl;
  same_shown = refl;
}

record_big-SameCards : (s : HandSeat) (total : ℕ) (h : Hand) → SameCards h (record_big s total h)
record_big-SameCards s total h = record {
  same_mode = refl;
  same_board = refl;
  same_second = refl;
  same_shown = refl;
}

post_straddle-SameCards :
    (idx pot : ℕ) (h h' : Hand) (extra : Option Straddle)
    → post_straddle idx pot h ≡ ok (h', extra)
    → SameCards h h'
post_straddle-SameCards bb_idx pot h h' extra e = elim (Option-cases (straddle_amount h)) [
  | inl missing ↦
      subst (SameCards h) (ap (λ x. x.0) (ok-injective (simp (post_straddle, missing) at e)))
        (SameCards-refl h)
  | inr (requested, wanted) ↦
      let idx = (bb_idx + 1) % length h.seats in
      let (s, seated, e1) =
        >>=-eq-ok (seat_at h idx) (straddle_from h idx pot requested)
          (simp (post_straddle, wanted) at e) in
      subst (SameCards h) (ap (λ x. x.0) (ok-injective e1))
        (record { same_mode = refl; same_board = refl; same_second = refl; same_shown = refl })
]

post_forced-SameCards :
    (sb_idx : Option ℕ) (bb_idx total : ℕ) (h h' : Hand) (b : ForcedBets)
    → post_forced sb_idx bb_idx (h, total) ≡ ok (h', b)
    → SameCards h h'
post_forced-SameCards sb_idx bb_idx total h h' b e =
    let (small_seat, first, e1) =
      >>=-eq-ok (optional_seat h sb_idx) (forced_small bb_idx (h, total)) e in
    let (big_seat, second, e2) =
      >>=-eq-ok (seat_at h bb_idx) (forced_big bb_idx (h, total) small_seat) e1 in
    let with_small = record_small small_seat total h in
    let after_small = add32 total (small_amount h small_seat) in
    let pot =
      saturating_add (saturating_add total (small_amount h small_seat)) (big_amount h big_seat) in
    let blinds = record_big big_seat after_small with_small in
    let ((h3, extra), third, e3) =
      >>=-eq-ok (post_straddle bb_idx pot blinds) (forced_bets bb_idx small_seat big_seat) e2 in
    let recorded =
      SameCards-trans (record_small-SameCards small_seat total h)
        (record_big-SameCards big_seat after_small with_small) in
    let all = SameCards-trans recorded (post_straddle-SameCards bb_idx pot blinds h3 extra third) in
    subst (SameCards h) (ap (λ x. x.0) (ok-injective e3)) all

deal_hole_cards-blind :
    (h h' : Hand) → h.mode ≡ blind_mode → deal_hole_cards h ≡ ok h' → SameCards h h'
unfolding deal_hole_cards
deal_hole_cards-blind h h' blind e =
    subst (SameCards h) (ok-injective (simp (deal_hole_cards, blind) at e)) (SameCards-refl h)

sync_stacks-SameCards : (h : Hand) → SameCards h (sync_stacks_from_round h)
unfolding sync_stacks_from_round
sync_stacks-SameCards h = elim (Option-cases h.betting_round) [
  | inl missing ↦ simp (sync_stacks_from_round, missing) (SameCards-refl h)
  | inr (r, there) ↦
      simp (sync_stacks_from_round, there)
        (record {
          same_mode = refl;
          same_board = refl;
          same_second = refl;
          same_shown = all_revealed-map (synced r) (λ s. refl) h.seats;
        })
]

open_preflop-SameCards :
    (b : ForcedBets) (h h' : Hand) → h.mode ≡ blind_mode → open_preflop b h ≡ ok h' → SameCards h h'
unfolding open_preflop
open_preflop-SameCards b h h' blind e =
    let r = preflop_round b h in
    let dealt : Hand = record h {
      preflop_bring_in = bring_in h b;
      phase = betting preflop;
      betting_round = some r;
    } in
    let opened = sync_stacks_from_round dealt in
    let set : SameCards h dealt = record {
      same_mode = refl;
      same_board = refl;
      same_second = refl;
      same_shown = refl;
    } in
    let same = SameCards-trans set (sync_stacks-SameCards dealt) in
    let blind' : opened.mode ≡ blind_mode = same.same_mode ∙ blind in
    elim (Bool-cases r.done) [
      | inl over ↦ SameCards-trans same (close-SameCards 4 opened h' blind' (simp over at e))
      | inr still ↦ subst (SameCards h) (snapshot-same opened h' (simp still at e)) same
    ]

start_bomb_pot-SameCards :
    (h h' : Hand) → h.mode ≡ blind_mode → start_bomb_pot h ≡ ok h' → SameCards h h'
start_bomb_pot-SameCards h h' blind e =
    let (dealt, deal, e1) = >>=-eq-ok (deal_hole_cards h) skip_preflop e in
    let same = deal_hole_cards-blind h dealt blind deal in
    let opened : Hand = record dealt { phase = betting preflop } in
    let set : SameCards dealt opened = record {
      same_mode = refl;
      same_board = refl;
      same_second = refl;
      same_shown = refl;
    } in
    let blind' : opened.mode ≡ blind_mode = same.same_mode ∙ blind in
    SameCards-trans same (SameCards-trans set (close-SameCards 4 opened h' blind' e1))

start_blinds-SameCards :
    (h h' : Hand) (total : ℕ)
    → h.mode ≡ blind_mode
    → start_blinds (h, total) ≡ ok h'
    → SameCards h h'
start_blinds-SameCards h h' total blind e =
    let (sb_idx, bb_idx) = forced_blind_positions h (length h.seats) in
    let (bb, seated, e1) = >>=-eq-ok (seat_at h bb_idx) (blinds_from sb_idx bb_idx (h, total)) e in
    let (paid, total') = post_big_blind_ante bb_idx (h, total) bb in
    let first = post_big_blind_ante-SameCards bb_idx total h bb (seat_at-get h bb_idx bb seated) in
    let ((h2, b), forced, e2) =
      >>=-eq-ok (post_forced sb_idx bb_idx (paid, total')) deal_and_open e1 in
    let second =
      SameCards-trans first (post_forced-SameCards sb_idx bb_idx total' paid h2 b forced) in
    let blind2 : h2.mode ≡ blind_mode = second.same_mode ∙ blind in
    let (dealt, deal, e3) = >>=-eq-ok (deal_hole_cards h2) (open_preflop b) e2 in
    let third = SameCards-trans second (deal_hole_cards-blind h2 dealt blind2 deal) in
    let blind3 : dealt.mode ≡ blind_mode = third.same_mode ∙ blind in
    SameCards-trans third (open_preflop-SameCards b dealt h' blind3 e3)

-- What a hand that starts has passed.
start-paid :
    (h h' : Hand)
    → start h ≡ ok h'
    → (is_unstarted h.phase ≡ true) × (start_paid (collect_antes h) ≡ ok h')
unfolding start
start-paid h h' e =
    let rest = start_paid (collect_antes h) in
    let clear = not (ltb 0 h.big_blind_ante && (ltb 0 h.ante || is_set h.bomb_pot)) in
    let many = leb 2 (length h.seats) in
    let small_table = leb (table_total h) 4294967295 in
    let tail2 : Result Hand = guard clear invalid_action >> rest in
    let tail1 : Result Hand = guard many not_in_hand >> tail2 in
    let tail0 : Result Hand = guard small_table invalid_action >> tail1 in
    let (unstarted, e0) = >>-eq-ok (is_unstarted h.phase) hand_finished tail0 e in
    let (representable, e1) = >>-eq-ok small_table invalid_action tail1 e0 in
    let (two_seats, e2) = >>-eq-ok many not_in_hand tail2 e1 in
    let (one_ante, e3) = >>-eq-ok clear invalid_action rest e2 in (unstarted, e3)

-- The start of a blind hand shows no card.
pub start-SameCards : (h h' : Hand) → h.mode ≡ blind_mode → start h ≡ ok h' → SameCards h h'
start-SameCards h h' blind e =
    let (paid, total) = collect_antes h in
    let first : SameCards h paid = collect_antes-SameCards h in
    let pays = (start-paid h h' e).1 in
    let blind' : paid.mode ≡ blind_mode = first.same_mode ∙ blind in
    elim (Bool-cases (is_set paid.bomb_pot)) [
      | inl bomb ↦ SameCards-trans first (start_bomb_pot-SameCards paid h' blind' (rw bomb at pays))
      | inr plain ↦
          SameCards-trans first (start_blinds-SameCards paid h' total blind' (rw plain at pays))
    ]

-- A hand starts with a round before the flop, or goes to the flop at once.
pub start-opens :
    (h h' : Hand)
    → start h ≡ ok h'
    → (is_unstarted h.phase ≡ true)
      × (((dealt : Hand) × (skip_preflop dealt ≡ ok h'))
          ⊎ ((b : ForcedBets) × (dealt : Hand) × (open_preflop b dealt ≡ ok h')))
start-opens h h' e =
    let (unstarted, pays) = start-paid h h' e in
    let (paid, total) = collect_antes h in
    let (sb_idx, bb_idx) = forced_blind_positions paid (length paid.seats) in
    (
      unstarted,
      elim (Bool-cases (is_set paid.bomb_pot)) [
        | inl bomb ↦
            let (dealt, deal, skips) =
              >>=-eq-ok (deal_hole_cards paid) skip_preflop (rw bomb at pays) in
            inl (dealt, skips)
        | inr plain ↦
            let (bb, seated, e1) =
              >>=-eq-ok (seat_at paid bb_idx) (blinds_from sb_idx bb_idx (paid, total))
                (rw plain at pays) in
            let posted = post_forced sb_idx bb_idx (post_big_blind_ante bb_idx (paid, total) bb) in
            let ((h2, b), forced, e2) = >>=-eq-ok posted deal_and_open e1 in
            let (dealt, deal, opens) = >>=-eq-ok (deal_hole_cards h2) (open_preflop b) e2 in
            inr (b, dealt, opens)
      ],
    )
