-- ===== src/Draw/Proof.antt =====
-- draw-games/verifier/src/proof.rs: commitments, their opening, and the stream of random words of
-- an opened commitment. The crates `sha2` and `hex` are the record Crates.
pub mod Bytes
pub mod Binding
pub mod Below
pub mod Uniform
use Prim.Native.Nat.{◌^◌}
use bluffking.Prelude.{
  ℕ, zero, suc, ◌+◌, ◌-◌, ◌*◌, ◌/◌, ◌%◌, ◌≤◌, ◌<◌, min, max, ◌≡◌, refl, sym, ap, subst, ◌∙◌, ◌≢◌,
  ◌↔◌, ◌⊎◌, inl, inr, Bool, true, false, not, ◌&&◌, ◌||◌, Option, none, some, List, [], ◌∷◌, ◌++◌,
  map, arith, ltb, leb, ◌==◌, if◌then◌else◌, if-elim, Bool-cases, Option-cases, ==_iff, ==_self,
  length, get_elem?, All, length-append, keep, length-map, All-append, All-if, modify, find,
  position, any, all, filter, count, sum_by, drop, drop-get, rotate, take-all, length-drop,
  count-rotate, map-filter-IsNodup, sort_by-All, IsSorted, sort_by-IsSorted, filter-sort_by,
  take_while-filter, take, take_while, map-sort_by-IsNodup, map-take_while-IsNodup,
  contains-map-sort_by, contains-map-take_while, sum_by-add, get-in_range, get-bound, position-get,
  position-any, count-modify, length-modify, get_elem?-modify_ne, get_elem?-modify_self, sort,
  dedup, sum32, sum, IsAscending, Occurs, sum32-eq, sort-IsAscending, sort-Occurs,
  dedup-IsAscending, dedup-Occurs, insert_by, sort_by, contains, sum_by-sort_by, length-sort_by,
  IsNodup, contains-sort_by, sort_by-IsNodup, sum_by-take, sum_by-const, sum_by-map, add32, sub32,
  u32_mod, saturating_add, add32-eq, sub32-eq,
}
use bluffking.Draw.{
  Outcome, panicked, starved, err, ok, ◌>>=◌, ◌>>◌, guard, or_refuse, same, codes, DrawError,
  bad_seed, bad_context, not_committed, room_client_seed,
}

-- What the code calls of `sha2` and `hex`.
pub record Crates : Type 0 where
  -- `Sha256::digest` on the bytes that the updates put together
  pub sha256 : List ℕ → List ℕ
  pub encode : List ℕ → List ℕ
  pub decode : List ℕ → Option (List ℕ)

-- `to_be_bytes` on a number of so many bytes
unfoldable pub to_be_bytes : ℕ → ℕ → List ℕ
to_be_bytes zero n = []
to_be_bytes (suc width) n = (n / 256 ^ width) % 256 ∷ to_be_bytes width n

-- `u64::from_be_bytes`
unfoldable pub from_be_bytes : List ℕ → ℕ → ℕ
from_be_bytes [] n = n
from_be_bytes (b ∷ bs) n = from_be_bytes bs (n * 256 + b)

-- The bytes that `sha256_fields` hashes: each field after its length.
unfoldable pub framed : List (List ℕ) → List ℕ
framed [] = []
framed (field ∷ fields) = to_be_bytes 8 (length field) ++ (field ++ framed fields)

pub record Commitment : Type 0 where
  pub protocol : List ℕ
  pub game : List ℕ
  pub draw_id : List ℕ
  pub commitment : List ℕ

-- `Commitment: PartialEq`
abbrev pub same_commitment : Commitment → Commitment → Bool
same_commitment a b =
    same a.protocol b.protocol
    && (same a.game b.game && (same a.draw_id b.draw_id && same a.commitment b.commitment))

pub record Reveal : Type 0 where
  pub commitment : Commitment
  pub server_seed : List ℕ
  pub client_seed : List ℕ

-- `Entropy`: the counter stream
pub record Entropy : Type 0 where
  pub seed : List ℕ
  pub counter : ℕ
  pub block : List ℕ
  pub offset : ℕ

abbrev pub zeros : ℕ → List ℕ
zeros zero = []
zeros (suc n) = 0 ∷ zeros n

-- `Entropy::new`
abbrev pub new_entropy : List ℕ → Entropy
new_entropy seed = record { seed = seed; counter = 0; block = zeros 32; offset = 32 }

-- `b.is_ascii_digit() || (b'a'..=b'f').contains(&b)`
abbrev pub is_hex : ℕ → Bool
is_hex b = (leb b'0' b && leb b b'9') || (leb b'a' b && leb b b'f')

abbrev pub is_ascii : ℕ → Bool
is_ascii b = ltb b 128

-- `matches!(game, "scratch" | "sicbo" | "sicbo-room" | "zjh")`
unfoldable pub known_game : List ℕ → Bool
known_game game =
    same game (codes "scratch")
    || (same game (codes "sicbo") || (same game (codes "sicbo-room") || same game (codes "zjh")))

-- `matches!(game, "sicbo-room" | "zjh")`
unfoldable pub shared_game : List ℕ → Bool
shared_game game = same game (codes "sicbo-room") || same game (codes "zjh")

-- The fields of a commitment that are hashed.
abbrev pub committed_fields : List ℕ → List ℕ → List ℕ → List (List ℕ)
committed_fields game draw_id seed = codes "bluffking-draw-v1/commit" ∷ game ∷ draw_id ∷ seed ∷ []

-- `u64::from_be_bytes(block[offset..offset + 8])`
unfoldable pub word_at : List ℕ → ℕ → ℕ
word_at block offset = from_be_bytes (take 8 (drop offset block)) 0

-- `upper.wrapping_neg() % upper`
abbrev pub first_accepted : ℕ → ℕ
first_accepted upper = (18446744073709551616 - upper) % 18446744073709551616 % upper

module _ (crates : Crates) where
  unfoldable pub sha256_fields : List (List ℕ) → List ℕ
  sha256_fields fields = crates.sha256 (framed fields)

  unfoldable pub seed_bytes : List ℕ → Outcome (List ℕ)
  seed_bytes seed =
      guard ((length seed == 64) && all is_hex seed) bad_seed
      >> or_refuse (crates.decode seed) bad_seed

  unfoldable pub commit : List ℕ → List ℕ → List ℕ → Outcome Commitment
  commit game draw_id server_seed = do
    guard
        (known_game game
          && (not (length draw_id == 0) && (leb (length draw_id) 128 && all is_ascii draw_id)))
        bad_context
    seed ← seed_bytes server_seed
    ok (record {
      protocol = codes "bluffking-draw-v1";
      game = game;
      draw_id = draw_id;
      commitment = crates.encode (sha256_fields (committed_fields game draw_id seed));
    })

  -- The client's part of the outcome seed.
  unfoldable pub client_bytes : List ℕ → List ℕ → Outcome (List ℕ)
  client_bytes game client_seed =
      if shared_game game
      then guard (length client_seed == 0) room_client_seed >> ok []
      else seed_bytes client_seed

  -- The stream that a draw's context and seeds give.
  unfoldable pub outcome_stream : List ℕ → List ℕ → List ℕ → List ℕ → Entropy
  outcome_stream game draw_id server client =
      new_entropy
        (sha256_fields (codes "bluffking-draw-v1/outcome" ∷ game ∷ draw_id ∷ server ∷ client ∷ []))

  -- `Reveal::entropy` after the commitment is made again.
  abbrev pub opened : Reveal → Commitment → Outcome Entropy
  opened r expected = do
    guard (same_commitment expected r.commitment) not_committed
    server ← seed_bytes r.server_seed
    client ← client_bytes r.commitment.game r.client_seed
    ok (outcome_stream r.commitment.game r.commitment.draw_id server client)

  -- `Reveal::entropy`
  unfoldable pub entropy : Reveal → Outcome Entropy
  entropy r = commit r.commitment.game r.commitment.draw_id r.server_seed >>= opened r

  -- The block of the stream at a counter.
  unfoldable pub stream_block : List ℕ → ℕ → List ℕ
  stream_block seed counter =
      sha256_fields (codes "bluffking-draw-v1/stream" ∷ seed ∷ to_be_bytes 8 counter ∷ [])

  -- The block from which the next word is read, with the counter after it: a new one when the last
  -- is used up. The counter's `checked_add` fails at the end of the stream.
  unfoldable pub refill : Entropy → Outcome Entropy
  refill e =
      if e.offset == 32
      then if leb 18446744073709551615 e.counter
        then panicked
        else ok (record e {
          block = stream_block e.seed e.counter;
          counter = e.counter + 1;
          offset = 0;
        })
      else ok e

  -- `Entropy::word`; a block has 32 bytes by its type, so that the slice is in range.
  unfoldable pub word : Entropy → Outcome (ℕ × Entropy)
  word e = do e' ← refill e; ok (word_at e'.block e'.offset, record e' { offset = e'.offset + 8 })

  -- The loop of `below` on at most so many words.
  unfoldable pub accept : ℕ → Entropy → ℕ → ℕ → Outcome (ℕ × Entropy)
  accept zero e threshold upper = starved
  accept (suc fuel) e threshold upper = word e >>= λ (w : ℕ × Entropy).
      let rest = accept fuel w.1 threshold upper in
      if leb threshold w.0 then ok (w.0 % upper, w.1) else rest

  -- `Entropy::below`
  unfoldable pub below : ℕ → Entropy → ℕ → Outcome (ℕ × Entropy)
  below fuel e upper = if ltb 0 upper then accept fuel e (first_accepted upper) upper else panicked
