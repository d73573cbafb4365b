-- ===== src/Draw/Proof/Binding.antt =====
-- draw-games/verifier/src/proof.rs: what a commitment binds, over the documented laws of the
-- crates `sha2` and `hex`.
use mathlib.Core.List.{List-discrete}
use native.Mathlib.Decide.{ℕ_discrete}
use bluffking.Prelude.{
  leb→le, ℕ, ◌*◌, ◌≤◌, ◌<◌, ◌≡◌, refl, sym, ap, ◌∙◌, ◌≢◌, ◌⊎◌, inl, inr, true, not, ◌&&◌, ◌||◌,
  some, List, arith, leb, ◌==◌, length, All, all,
}
use bluffking.Draw.{
  ok, ◌>>=◌, >>=-eq-ok, >>-eq-ok, ok-injective, or_refuse, or_refuse-eq-ok, &&-eq-true, ||-eq-true,
  same, same-eq, same_self, codes, bad_seed, bad_context, not_committed,
}
use bluffking.Draw.Proof.{
  Crates, Commitment, Reveal, Entropy, same_commitment, is_hex, is_ascii, known_game, sha256_fields,
  seed_bytes, committed_fields, commit, client_bytes, entropy, opened, outcome_stream, framed,
}
use bluffking.Draw.Proof.Bytes.{IsShort, framed-injective}

abbrev pub IsByte : ℕ → Type 0
IsByte b = b < 256

-- What the crates document: a digest is made of bytes, hex text is read back, and lowercase hex
-- text that is read is written again.
pub record IsDocumented (crates : Crates) : Type 0 where
  pub digest-IsByte : (m : List ℕ) → All IsByte (crates.sha256 m)
  pub decode-encode : (bs : List ℕ) → All IsByte bs → crates.decode (crates.encode bs) ≡ some bs
  pub encode-decode :
      (s bs : List ℕ) → all is_hex s ≡ true → crates.decode s ≡ some bs → crates.encode bs ≡ s
  pub length-decode : (s bs : List ℕ) → crates.decode s ≡ some bs → length s ≡ 2 * length bs

-- Two different texts with the same digest.
abbrev pub Collision : Crates → Type 0
Collision crates = (x : List ℕ) × (y : List ℕ) × (x ≢ y) × (crates.sha256 x ≡ crates.sha256 y)

known_game-bound : (game : List ℕ) → known_game game ≡ true → length game ≤ 10
unfolding known_game
known_game-bound game e =
    let is_scratch = same game (codes "scratch") in
    let is_sicbo = same game (codes "sicbo") in
    let is_room = same game (codes "sicbo-room") in
    let is_zjh = same game (codes "zjh") in
    elim (||-eq-true is_scratch (is_sicbo || (is_room || is_zjh)) e) [
      | inl scratch ↦ omega (arith, ap length (same-eq game (codes "scratch") scratch))
      | inr e' ↦ elim (||-eq-true is_sicbo (is_room || is_zjh) e') [
        | inl sicbo ↦ omega (arith, ap length (same-eq game (codes "sicbo") sicbo))
        | inr e'' ↦ elim (||-eq-true is_room is_zjh e'') [
          | inl room ↦ omega (arith, ap length (same-eq game (codes "sicbo-room") room))
          | inr zjh ↦ omega (arith, ap length (same-eq game (codes "zjh") zjh))
        ]
      ]
    ]

committed_fields-IsShort :
    (game draw_id bs : List ℕ)
    → known_game game ≡ true
    → length draw_id ≤ 128
    → length bs ≡ 32
    → All IsShort (committed_fields game draw_id bs)
committed_fields-IsShort game draw_id bs known short width =
    (omega arith, (omega (arith, known_game-bound game known), (omega arith, (omega arith, tt))))

module _ (crates : Crates) where
  -- What an opened reveal is: its commitment is the one made from its seed.
  pub entropy-ok :
      (r : Reveal) {e : Entropy}
      → entropy crates r ≡ ok e
      → (c : Commitment) × (server : List ℕ) × (client : List ℕ) × (commit crates r.commitment.game
            r.commitment.draw_id r.server_seed
          ≡ ok c)
        × (same_commitment c r.commitment ≡ true)
        × (seed_bytes crates r.server_seed ≡ ok server)
        × (client_bytes crates r.commitment.game r.client_seed ≡ ok client)
        × (e ≡ outcome_stream crates r.commitment.game r.commitment.draw_id server client)
  unfolding entropy
  entropy-ok r {e} done =
      let finish = λ (server : List ℕ).
        client_bytes crates r.commitment.game r.client_seed >>= λ (client : List ℕ).
        ok (outcome_stream crates r.commitment.game r.commitment.draw_id server client) in
      let (c, made, rest) =
        >>=-eq-ok (commit crates r.commitment.game r.commitment.draw_id r.server_seed)
          (opened crates r) done in
      let (agrees, rest') =
        >>-eq-ok (same_commitment c r.commitment) not_committed
          (seed_bytes crates r.server_seed >>= finish) rest in
      let (server, seed, rest'') = >>=-eq-ok (seed_bytes crates r.server_seed) finish rest' in
      let (client, own, stream) =
        >>=-eq-ok (client_bytes crates r.commitment.game r.client_seed)
          (λ (client : List ℕ).
            ok (outcome_stream crates r.commitment.game r.commitment.draw_id server client))
          rest'' in
      (c, server, client, made, agrees, seed, own, sym (ok-injective stream))

module _ (crates : Crates) (laws : IsDocumented crates) where
  encode-injective :
      (xs ys : List ℕ)
      → All IsByte xs
      → All IsByte ys
      → crates.encode xs ≡ crates.encode ys
      → xs ≡ ys
  encode-injective xs ys px py e =
      let one : some xs ≡ some ys =
        sym (laws.decode-encode xs px) ∙ ap crates.decode e ∙ laws.decode-encode ys py in
      cc

  -- What an accepted seed is.
  pub seed_bytes-ok :
      (s : List ℕ) {bs : List ℕ}
      → seed_bytes crates s ≡ ok bs
      → (length bs ≡ 32) × (crates.encode bs ≡ s)
  unfolding seed_bytes
  seed_bytes-ok s {bs} e =
      let decoded = or_refuse (crates.decode s) bad_seed in
      let (allowed, read) = >>-eq-ok ((length s == 64) && all is_hex s) bad_seed decoded e in
      let (long, hex) = &&-eq-true (length s == 64) (all is_hex s) allowed in
      let found : crates.decode s ≡ some bs = or_refuse-eq-ok (crates.decode s) bad_seed read in
      (ground (arith, laws.length-decode s bs found, long), laws.encode-decode s bs hex found)

  -- What an accepted commitment is.
  pub commit-ok :
      (game draw_id s : List ℕ) {c : Commitment}
      → commit crates game draw_id s ≡ ok c
      → (known_game game ≡ true)
        × (length draw_id ≤ 128)
        × (bs : List ℕ) × (seed_bytes crates s ≡ ok bs)
        × (c.game ≡ game)
        × (c.draw_id ≡ draw_id)
        × (c.commitment ≡ crates.encode (sha256_fields crates (committed_fields game draw_id bs)))
  unfolding commit
  commit-ok game draw_id s {c} e =
      let sized = leb (length draw_id) 128 in
      let plain = all is_ascii draw_id in
      let named = not (length draw_id == 0) in
      let make = λ (bs : List ℕ). ok (record {
        protocol = codes "bluffking-draw-v1";
        game = game;
        draw_id = draw_id;
        commitment = crates.encode (sha256_fields crates (committed_fields game draw_id bs));
      }) in
      let (allowed, step) =
        >>-eq-ok (known_game game && (named && (sized && plain))) bad_context
          (seed_bytes crates s >>= make) e in
      let (known, rest) = &&-eq-true (known_game game) (named && (sized && plain)) allowed in
      let (filled, rest') = &&-eq-true named (sized && plain) rest in
      let (short, text) = &&-eq-true sized plain rest' in
      let (bs, seed, made) = >>=-eq-ok (seed_bytes crates s) make step in
      let equal = ok-injective made in
      (
        known,
        leb→le (length draw_id) 128 short,
        bs,
        seed,
        sym (ap (λ (x : Commitment). x.game) equal),
        sym (ap (λ (x : Commitment). x.draw_id) equal),
        sym (ap (λ (x : Commitment). x.commitment) equal),
      )

  -- Two seeds that open one commitment text are the same, for the same game and draw, unless two
  -- texts with the same digest are at hand.
  pub commit-Collision :
      (game draw_id s game' draw_id' s' : List ℕ) {c c' : Commitment}
      → commit crates game draw_id s ≡ ok c
      → commit crates game' draw_id' s' ≡ ok c'
      → c.commitment ≡ c'.commitment
      → Collision crates ⊎ ((game ≡ game') × (draw_id ≡ draw_id') × (s ≡ s'))
  unfolding sha256_fields
  commit-Collision game draw_id s game' draw_id' s' {c} {c'} e e' h =
      let (known, short, bs, seed, _, _, made) = commit-ok game draw_id s e in
      let (known', short', bs', seed', _, _, made') = commit-ok game' draw_id' s' e' in
      let (width, text) = seed_bytes-ok s seed in
      let (width', text') = seed_bytes-ok s' seed' in
      let fields = committed_fields game draw_id bs in
      let fields' = committed_fields game' draw_id' bs' in
      let digests : crates.sha256 (framed fields) ≡ crates.sha256 (framed fields') =
        encode-injective _ _ (laws.digest-IsByte _) (laws.digest-IsByte _) (sym made ∙ h ∙ made') in
      elim (List-discrete ℕ_discrete (framed fields) (framed fields')) [
        | no differ ↦ inl (framed fields, framed fields', differ, digests)
        | yes equal ↦
            let all_equal : fields ≡ fields' =
              framed-injective fields fields'
                (committed_fields-IsShort game draw_id bs known short width)
                (committed_fields-IsShort game' draw_id' bs' known' short' width') equal in
            let games : game ≡ game' = cc in
            let ids : draw_id ≡ draw_id' = cc in
            let seeds : bs ≡ bs' = cc in inr (games, ids, sym text ∙ ap crates.encode seeds ∙ text')
      ]

  pub same_commitment-eq :
      (a b : Commitment)
      → same_commitment a b ≡ true
      → (a.protocol ≡ b.protocol)
        × (a.game ≡ b.game)
        × (a.draw_id ≡ b.draw_id)
        × (a.commitment ≡ b.commitment)
  same_commitment-eq a b e =
      let ids = same a.draw_id b.draw_id && same a.commitment b.commitment in
      let games = same a.game b.game && ids in
      let (p, e') = &&-eq-true (same a.protocol b.protocol) games e in
      let (g, e'') = &&-eq-true (same a.game b.game) ids e' in
      let (d, t) = &&-eq-true (same a.draw_id b.draw_id) (same a.commitment b.commitment) e'' in
      (
        same-eq a.protocol b.protocol p,
        same-eq a.game b.game g,
        same-eq a.draw_id b.draw_id d,
        same-eq a.commitment b.commitment t,
      )

  -- Two reveals that open the same commitment text draw from the same stream wherever the players'
  -- seeds are the same, unless two texts with the same digest are at hand.
  pub entropy-Collision :
      (r r' : Reveal) {e e' : Entropy}
      → entropy crates r ≡ ok e
      → entropy crates r' ≡ ok e'
      → r.commitment.commitment ≡ r'.commitment.commitment
      → r.client_seed ≡ r'.client_seed
      → Collision crates ⊎ (e ≡ e')
  entropy-Collision r r' {e} {e'} done done' texts clients =
      let (c, server, client, made, agrees, seed, own, stream) = entropy-ok crates r done in
      let (c', server', client', made', agrees', seed', own', stream') =
        entropy-ok crates r' done' in
      let (_, _, _, text) = same_commitment-eq c r.commitment agrees in
      let (_, _, _, text') = same_commitment-eq c' r'.commitment agrees' in
      elim (commit-Collision r.commitment.game r.commitment.draw_id r.server_seed r'.commitment.game
        r'.commitment.draw_id r'.server_seed made made' (text ∙ texts ∙ sym text')) [
          | inl collision ↦ inl collision
          | inr (games, ids, seeds) ↦ inr cc
        ]

  same_commitment_self : (c : Commitment) → same_commitment c c ≡ true
  same_commitment_self c =
      rw (same_self c.protocol, same_self c.game, same_self c.draw_id, same_self c.commitment) refl

  -- A commitment that the server makes is opened by the seed it was made from, with a client's seed
  -- as the game asks for it.
  pub entropy-commit :
      (game draw_id s client_seed : List ℕ) {c : Commitment} {client : List ℕ}
      → commit crates game draw_id s ≡ ok c
      → client_bytes crates game client_seed ≡ ok client
      → (e : Entropy) × (entropy crates
            (record { commitment = c; server_seed = s; client_seed = client_seed })
          ≡ ok e)
  unfolding entropy
  entropy-commit game draw_id s client_seed {c} {client} made own =
      let (_, _, bs, seed, games, ids, _) = commit-ok game draw_id s made in
      let r : Reveal = record { commitment = c; server_seed = s; client_seed = client_seed } in
      let again : commit crates c.game c.draw_id s ≡ ok c =
        ap (λ g. commit crates g c.draw_id s) games ∙ ap (λ d. commit crates game d s) ids ∙ made in
      let own' : client_bytes crates c.game client_seed ≡ ok client =
        ap (λ g. client_bytes crates g client_seed) games ∙ own in
      (
        outcome_stream crates c.game c.draw_id bs client,
        rw again (rw (same_commitment_self c) (rw seed (rw own' refl))),
      )
