-- ===== src/Round/Frame.antt =====
-- engine/src/round.rs: the chips, folds and all-in flags under the bookkeeping after an action.
use bluffking.Prelude.{
  ℕ, zero, suc, ◌+◌, ◌≡◌, refl, Bool, List, [], ◌∷◌, arith, modify, count, sum_by, All,
}
use bluffking.Round.State.{PlayerState, can_act}
use bluffking.Round.Action.{reopen}
use bluffking.Round.Counted.{stake, stakes, IsSolvent, IsCounted}

-- Two states that differ in the marks of the last action at most.
pub record SameChip (p q : PlayerState) : Type 0 where
  pub player_id : q.player_id ≡ p.player_id
  pub stack : q.stack ≡ p.stack
  pub contributed : q.contributed ≡ p.contributed
  pub folded : q.folded ≡ p.folded
  pub all_in : q.all_in ≡ p.all_in

SameChip-refl : (p : PlayerState) → SameChip p p
SameChip-refl p = record {
  player_id = refl;
  stack = refl;
  contributed = refl;
  folded = refl;
  all_in = refl;
}

abbrev pub SameChips : List PlayerState → List PlayerState → Type 0
SameChips [] [] = Unit {0}
SameChips (p ∷ ps) (q ∷ qs) = SameChip p q × SameChips ps qs
SameChips _ _ = ⊥

pub SameChips-refl : (ps : List PlayerState) → SameChips ps ps
SameChips-refl [] = tt
SameChips-refl (p ∷ ps) = (SameChip-refl p, SameChips-refl ps)

pub SameChips-trans :
    (ps qs rs : List PlayerState) → SameChips ps qs → SameChips qs rs → SameChips ps rs
SameChips-trans [] [] [] h k = tt
SameChips-trans [] [] (r ∷ rs) h k = elim k [ ]
SameChips-trans [] (q ∷ qs) rs h k = elim h [ ]
SameChips-trans (p ∷ ps) [] rs h k = elim h [ ]
SameChips-trans (p ∷ ps) (q ∷ qs) [] h k = elim k [ ]
SameChips-trans (p ∷ ps) (q ∷ qs) (r ∷ rs) h k = (ground arith, SameChips-trans ps qs rs h.1 k.1)

pub sum_by-SameChips :
    (g : PlayerState → ℕ) (ps qs : List PlayerState)
    → ((p q : PlayerState) → SameChip p q → g q ≡ g p)
    → SameChips ps qs
    → sum_by g qs ≡ sum_by g ps
unfolding sum_by
sum_by-SameChips g [] [] e h = refl
sum_by-SameChips g [] (q ∷ qs) e h = elim h [ ]
sum_by-SameChips g (p ∷ ps) [] e h = elim h [ ]
sum_by-SameChips g (p ∷ ps) (q ∷ qs) e h = omega (arith, e p q h.0, sum_by-SameChips g ps qs e h.1)

pub count-SameChips :
    (g : PlayerState → Bool) (ps qs : List PlayerState)
    → ((p q : PlayerState) → SameChip p q → g q ≡ g p)
    → SameChips ps qs
    → count g qs ≡ count g ps
unfolding count
count-SameChips g [] [] e h = refl
count-SameChips g [] (q ∷ qs) e h = elim h [ ]
count-SameChips g (p ∷ ps) [] e h = elim h [ ]
count-SameChips g (p ∷ ps) (q ∷ qs) e h = ground (arith, e p q h.0, count-SameChips g ps qs e h.1)

pub stakes-SameChips : (ps qs : List PlayerState) → SameChips ps qs → stakes qs ≡ stakes ps
stakes-SameChips [] [] h = refl
stakes-SameChips [] (q ∷ qs) h = elim h [ ]
stakes-SameChips (p ∷ ps) [] h = elim h [ ]
stakes-SameChips (p ∷ ps) (q ∷ qs) h = ground (arith, stakes-SameChips ps qs h.1)

All-SameChips : (ps qs : List PlayerState) → SameChips ps qs → All IsSolvent ps → All IsSolvent qs
All-SameChips [] [] h s = tt
All-SameChips [] (q ∷ qs) h s = elim h [ ]
All-SameChips (p ∷ ps) [] h s = elim h [ ]
All-SameChips (p ∷ ps) (q ∷ qs) h s = (ground arith, All-SameChips ps qs h.1 s.1)

pub IsCounted-SameChips :
    (ps qs : List PlayerState) {able pot : ℕ}
    → SameChips ps qs
    → IsCounted ps able pot
    → IsCounted qs able pot
IsCounted-SameChips ps qs h v = record {
  solvent = All-SameChips ps qs h v.solvent;
  bound = omega (arith, sum_by-SameChips stake ps qs (λ p q s. omega arith) h, v.bound);
  able_count = omega (arith, count-SameChips can_act ps qs (λ p q s. ground arith) h, v.able_count);
  pot_sum =
      omega
        (arith, sum_by-SameChips (λ p. p.contributed) ps qs (λ p q s. s.contributed) h, v.pot_sum);
}

pub reopen-SameChips : (idx i : ℕ) (ps : List PlayerState) → SameChips ps (reopen idx i ps)
unfolding reopen
reopen-SameChips idx i [] = tt
reopen-SameChips idx i (p ∷ ps) = (ground arith, reopen-SameChips idx (i + 1) ps)

pub modify-SameChips :
    (ps : List PlayerState) (i : ℕ) (f : PlayerState → PlayerState)
    → ((p : PlayerState) → SameChip p (f p))
    → SameChips ps (modify ps i f)
unfolding modify
modify-SameChips [] i f h = tt
modify-SameChips (p ∷ ps) zero f h = (h p, SameChips-refl ps)
modify-SameChips (p ∷ ps) (suc i) f h = (SameChip-refl p, modify-SameChips ps i f h)
