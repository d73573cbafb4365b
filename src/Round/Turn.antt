-- ===== src/Round/Turn.antt =====
-- engine/src/round.rs: whose turn it is, and when the street closes.
use bluffking.Prelude.{
  ℕ, zero, suc, ◌+◌, ◌%◌, Bool, true, false, not, ◌&&◌, ◌||◌, none, some, List, [], ◌∷◌, max, ltb,
  leb, ◌==◌, if◌then◌else◌, length, get_elem?, find, all, filter, count,
}
use bluffking.Round.State.{PlayerState, BettingRound, can_act, is_live}

-- `self.players[i]` can act; an index out of range does not occur (`i < n`).
abbrev pub can_act_at : List PlayerState → ℕ → Bool
can_act_at ps i = elim (get_elem? ps i) [ none ↦ false | some p ↦ can_act p ]

-- The `for _ in 0..n` of `advance`, with `n` the number of players.
unfoldable pub advance_loop : ℕ → ℕ → BettingRound → BettingRound
advance_loop zero n r = record r { done = true }
advance_loop (suc k) n r =
    let next = record r { current = (r.current + 1) % n } in
    elim (can_act_at next.players next.current) [ true ↦ next | false ↦ advance_loop k n next ]

unfoldable pub advance : BettingRound → BettingRound
unfolding advance_loop
advance r =
    let n = length r.players in if n == 0 then record r { done = true } else advance_loop n n r

-- The `for i in 0..n` of `seek_active`, with `k` rounds left.
unfoldable pub seek_loop : ℕ → ℕ → ℕ → ℕ → BettingRound → BettingRound
seek_loop zero i start n r = record r { done = true }
seek_loop (suc k) i start n r =
    let idx = (start + i) % n in
    elim (can_act_at r.players idx) [
      | true ↦ record r { current = idx }
      | false ↦ seek_loop k (i + 1) start n r
    ]

unfoldable pub seek_active : BettingRound → BettingRound
unfolding seek_loop
seek_active r =
    let n = length r.players in
    if n == 0 then record r { done = true } else seek_loop n 0 r.current n r

-- `.map(|p| p.contributed.0).max().unwrap_or(0)`
unfoldable pub max_contributed : List PlayerState → ℕ
max_contributed [] = 0
max_contributed (p ∷ ps) = max p.contributed (max_contributed ps)

-- The largest contribution of a live player with another id.
unfoldable pub max_opp_contrib : ℕ → List PlayerState → ℕ
unfolding max_contributed
max_opp_contrib lone_id ps =
    max_contributed (filter (λ p. not (p.player_id == lone_id) && not p.folded) ps)

abbrev pub is_matched : ℕ → PlayerState → Bool
is_matched bet p = p.folded || p.all_in || p.contributed == bet

-- The tests of `check_done` after the case of a lone player who can act.
unfoldable pub close_if_settled : BettingRound → BettingRound
close_if_settled r =
    if leb (count is_live r.players) 1
    then record r { done = true }
    else if all (is_matched r.current_bet) r.players && r.actions_remaining == 0
    then record r { done = true }
    else r

-- The case `n_can_act == 1`, at the player that can act.
unfoldable pub close_lone : BettingRound → PlayerState → BettingRound
unfolding close_if_settled max_opp_contrib
close_lone r lone =
    let opp = max_opp_contrib lone.player_id r.players in
    if leb opp lone.contributed
    then record r { done = true }
    else if ltb opp r.current_bet
    then close_if_settled (record r { current_bet = opp })
    else close_if_settled r

unfoldable pub check_done : BettingRound → BettingRound
unfolding close_lone close_if_settled
check_done r =
    if r.n_can_act == 0
    then record r { done = true }
    else if r.n_can_act == 1
    then elim (find can_act r.players) [ none ↦ close_if_settled r | some lone ↦ close_lone r lone ]
    else close_if_settled r
