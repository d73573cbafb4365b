-- ===== src/Draw/Text.antt =====
-- The functions of Rust's standard library on texts that draw-games/verifier/src/zjh.rs uses:
-- `to_string`, `parse`, `join`, `split` and `split_once`. A text is the list of its bytes.
pub mod Facts
use mathlib.Core.Option
use bluffking.Prelude.{
  ℕ, zero, suc, ◌+◌, ◌-◌, ◌*◌, ◌/◌, ◌%◌, ◌≤◌, ◌<◌, min, max, ◌≡◌, refl, sym, ap, subst, ◌∙◌, ◌≢◌,
  ◌↔◌, ◌⊎◌, inl, inr, Bool, true, false, not, ◌&&◌, ◌||◌, Option, none, some, List, [], ◌∷◌, ◌++◌,
  map, ℤ, pos, negsuc, negate, within, same_int, same_int-eq, same_int_self, arith, ltb, leb, ◌==◌,
  if◌then◌else◌, if-elim, Bool-cases, Option-cases, ==_iff, ==_self, length, get_elem?, All,
  length-append, keep, length-map, All-append, All-if, modify, find, position, any, all, filter,
  count, sum_by, drop, drop-get, rotate, take-all, length-drop, count-rotate, map-filter-IsNodup,
  sort_by-All, IsSorted, sort_by-IsSorted, filter-sort_by, take_while-filter, take, take_while,
  map-sort_by-IsNodup, map-take_while-IsNodup, contains-map-sort_by, contains-map-take_while,
  sum_by-add, get-in_range, get-bound, position-get, position-any, count-modify, length-modify,
  get_elem?-modify_ne, get_elem?-modify_self, sort, dedup, sum32, sum, IsAscending, Occurs,
  sum32-eq, sort-IsAscending, sort-Occurs, dedup-IsAscending, dedup-Occurs, insert_by, sort_by,
  contains, sum_by-sort_by, length-sort_by, IsNodup, contains-sort_by, sort_by-IsNodup, sum_by-take,
  sum_by-const, sum_by-map, add32, sub32, u32_mod, saturating_add, add32-eq, sub32-eq,
}

-- `usize::to_string`, digit by digit from the last; a 64-bit number has twenty digits at most.
unfoldable pub decimal : ℕ → ℕ → List ℕ
decimal zero n = []
decimal (suc fuel) n =
    let front = decimal fuel (n / 10) in
    if ltb n 10 then (b'0' + n) ∷ [] else front ++ ((b'0' + n % 10) ∷ [])

abbrev pub to_string : ℕ → List ℕ
to_string n = decimal 20 n

-- `[String]::join` with one byte between
unfoldable pub join : ℕ → List (List ℕ) → List ℕ
join separator [] = []
join separator (part ∷ []) = part
join separator (part ∷ next ∷ parts) = part ++ (separator ∷ join separator (next ∷ parts))

-- `str::split`: a byte before the first part of the rest
abbrev pub onto_first : ℕ → List (List ℕ) → List (List ℕ)
onto_first c [] = (c ∷ []) ∷ []
onto_first c (part ∷ parts) = (c ∷ part) ∷ parts

unfoldable pub split : ℕ → List ℕ → List (List ℕ)
split separator [] = [] ∷ []
split separator (c ∷ text) =
    let rest = split separator text in if c == separator then [] ∷ rest else onto_first c rest

-- `str::split_once`
unfoldable pub split_once : ℕ → List ℕ → Option (List ℕ × List ℕ)
split_once separator [] = none
split_once separator (c ∷ text) =
    let rest = split_once separator text in
    if c == separator
    then some ([], text)
    else Option.map (λ (x : List ℕ × List ℕ). (c ∷ x.0, x.1)) rest

-- The number that a text of digits writes, after those that are read.
unfoldable pub digits_value : List ℕ → ℕ → ℕ
digits_value [] n = n
digits_value (c ∷ text) n = digits_value text (n * 10 + (c - b'0'))

-- `str::parse::<usize>` on a text of digits
abbrev pub parse_usize : List ℕ → Option ℕ
parse_usize text =
    let n = digits_value text 0 in if ltb n 18446744073709551616 then some n else none
