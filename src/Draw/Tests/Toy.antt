-- ===== src/Draw/Tests/Toy.antt =====
-- A digest of 32 bytes and the hex text, in place of the crates `sha2` and `hex`, for the runs of
-- draw-games/verifier/src.
use mathlib.Core.Option.{some-injective}
use bluffking.Prelude.{
  ℕ, zero, suc, ◌+◌, ◌-◌, ◌*◌, ◌/◌, ◌%◌, ◌<◌, ◌≡◌, refl, ap, subst, ◌&&◌, Option, none, some, List,
  [], ◌∷◌, arith, ltb, leb, if◌then◌else◌, length, All, take,
}
use bluffking.Draw.{codes}
use bluffking.Draw.Proof.{
  Crates, Reveal, committed_fields, zeros, word_at, from_be_bytes, sha256_fields, stream_block,
}
use bluffking.Draw.Proof.Binding.{IsByte, IsDocumented}
use bluffking.Draw.Proof.Below.{HasWords}

-- A digest that begins with a full byte and then the sum of the bytes.
abbrev pub mixed : List ℕ → ℕ → ℕ
mixed [] n = n % 256
mixed (b ∷ bs) n = mixed bs ((n * 31 + b) % 65536)

abbrev pub digest : List ℕ → List ℕ
digest m =
    255
    ∷ mixed m 7
    ∷ mixed m 11
    ∷ mixed m 13
    ∷ mixed m 17
    ∷ mixed m 19
    ∷ mixed m 23
    ∷ mixed m 29
    ∷ zeros 24

mixed-IsByte : (m : List ℕ) (n : ℕ) → IsByte (mixed m n)
mixed-IsByte [] n = omega arith
mixed-IsByte (b ∷ bs) n = mixed-IsByte bs ((n * 31 + b) % 65536)

zeros-IsByte : (n : ℕ) → All IsByte (zeros n)
zeros-IsByte zero = tt
zeros-IsByte (suc n) = (omega arith, zeros-IsByte n)

abbrev pub hex_digit : ℕ → ℕ
hex_digit n = if ltb n 10 then 48 + n else 87 + n

abbrev pub hex_value : ℕ → Option ℕ
hex_value c =
    if leb 48 c && leb c 57
    then some (c - 48)
    else if leb 97 c && leb c 102
    then some (c - 87)
    else none

abbrev pub encode : List ℕ → List ℕ
encode [] = []
encode (b ∷ bs) = hex_digit (b / 16) ∷ hex_digit (b % 16) ∷ encode bs

abbrev pub paired : Option ℕ → Option ℕ → Option (List ℕ) → Option (List ℕ)
paired (some h) (some l) (some bs) = some ((h * 16 + l) ∷ bs)
paired _ _ _ = none

abbrev pub decode : List ℕ → Option (List ℕ)
decode [] = some []
decode (c ∷ []) = none
decode (c ∷ d ∷ text) = paired (hex_value c) (hex_value d) (decode text)

abbrev pub toy : Crates
toy = record { sha256 = digest; encode = encode; decode = decode }

hex_value-hex_digit : (n : ℕ) → n < 16 → hex_value (hex_digit n) ≡ some n
hex_value-hex_digit n h = ground arith

hex_digit-hex_value : (c v : ℕ) → hex_value c ≡ some v → (hex_digit v ≡ c) × (v < 16)
hex_digit-hex_value c v h = (ground arith, ground arith)

decode-encode : (bs : List ℕ) → All IsByte bs → decode (encode bs) ≡ some bs
decode-encode [] h = refl
decode-encode (b ∷ bs) (h, hs) =
    let high = hex_value-hex_digit (b / 16) (omega arith) in
    let low = hex_value-hex_digit (b % 16) (omega arith) in
    rw (high, low, decode-encode bs hs) (ap (λ x. some (x ∷ bs)) (omega arith))

paired-some :
    (h l : Option ℕ) (o : Option (List ℕ)) {bs : List ℕ}
    → paired h l o ≡ some bs
    → (x : ℕ) × (y : ℕ) × (rest : List ℕ) × (h ≡ some x)
      × (l ≡ some y)
      × (o ≡ some rest)
      × ((x * 16 + y) ∷ rest ≡ bs)
paired-some none l o e = cc
paired-some (some x) none o e = cc
paired-some (some x) (some y) none e = cc
paired-some (some x) (some y) (some rest) e = (x, y, rest, refl, refl, refl, some-injective _ _ e)

encode-decode :
    (text bs : List ℕ) → decode text ≡ some bs → (encode bs ≡ text) × (length text ≡ 2 * length bs)
encode-decode [] bs h =
    subst (λ ys. (encode ys ≡ []) × (0 ≡ 2 * length ys)) (some-injective _ _ h) (refl, refl)
encode-decode (c ∷ []) bs h = cc
encode-decode (c ∷ d ∷ text) bs h =
    let (x, y, rest, hx, hy, hr, whole) = paired-some (hex_value c) (hex_value d) (decode text) h in
    let (dx, lx) = hex_digit-hex_value c x hx in
    let (dy, ly) = hex_digit-hex_value d y hy in
    let (again, len) = encode-decode text rest hr in
    let high : (x * 16 + y) / 16 ≡ x = omega arith in
    let low : (x * 16 + y) % 16 ≡ y = omega arith in
    rw (← whole) (rw (high, low, dx, dy) (ap (λ t. c ∷ d ∷ t) again), omega (arith, len))

pub toy-IsDocumented : IsDocumented toy
toy-IsDocumented = record {
  digest-IsByte = λ m. (
    omega arith,
    (
      mixed-IsByte m 7,
      (
        mixed-IsByte m 11,
        (
          mixed-IsByte m 13,
          (
            mixed-IsByte m 17,
            (mixed-IsByte m 19, (mixed-IsByte m 23, (mixed-IsByte m 29, zeros-IsByte 24))),
          ),
        ),
      ),
    ),
  );
  decode-encode = decode-encode;
  encode-decode = λ text bs hex read. (encode-decode text bs read).0;
  length-decode = λ text bs read. (encode-decode text bs read).1;
}

pub toy-HasWords : (seed : List ℕ) → HasWords toy seed
unfolding stream_block sha256_fields word_at from_be_bytes take
toy-HasWords seed counter = (0, omega arith, omega arith)

-- The text of a seed of 32 bytes.
abbrev pub digits : ℕ → ℕ → List ℕ
digits c zero = []
digits c (suc n) = c ∷ digits c n

abbrev pub seed_text : List ℕ
seed_text = digits 97 64

abbrev pub seed : List ℕ
seed = digits 170 32

-- A reveal of this seed for a draw.
abbrev pub revealed : List ℕ → List ℕ → List ℕ → Reveal
revealed game draw_id client_seed = record {
  commitment = record {
    protocol = codes "bluffking-draw-v1";
    game = game;
    draw_id = draw_id;
    commitment = encode (sha256_fields toy (committed_fields game draw_id seed));
  };
  server_seed = seed_text;
  client_seed = client_seed;
}
