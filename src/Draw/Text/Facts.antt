-- ===== src/Draw/Text/Facts.antt =====
-- The functions on texts of the standard library that draw-games/verifier/src/zjh.rs uses: their
-- inverses.
use mathlib.Core.Option.{some-injective}
use mathlib.Core.Option
use bluffking.Prelude.{
  ℕ, ◌+◌, ◌-◌, ◌*◌, ◌≤◌, ◌≡◌, refl, sym, ap, subst, ◌∙◌, inl, inr, false, Option, none, some, List,
  [], ◌∷◌, ◌++◌, arith, ◌==◌, Bool-cases, Option-cases, ==_self, All, contains,
}
use bluffking.Draw.Text.{join, split, split_once, digits_value}

contains-rest :
    (c x : ℕ) (xs : List ℕ)
    → contains c (x ∷ xs) ≡ false
    → ((x == c) ≡ false) × (contains c xs ≡ false)
unfolding contains
contains-rest c x xs h = (ground arith, ground arith)

pub split_once-append :
    (c : ℕ) (front rest : List ℕ)
    → contains c front ≡ false
    → split_once c (front ++ (c ∷ rest)) ≡ some (front, rest)
unfolding split_once contains
split_once-append c [] rest h = rw (==_self c) refl
split_once-append c (x ∷ front) rest h =
    let (differ, none_left) = contains-rest c x front h in
    rw differ (rw (split_once-append c front rest none_left) refl)

pub split_once-some :
    (c : ℕ) (text : List ℕ) (y : List ℕ × List ℕ)
    → split_once c text ≡ some y
    → (contains c y.0 ≡ false) × (text ≡ y.0 ++ (c ∷ y.1))
unfolding split_once contains
split_once-some c [] y h = cc
split_once-some c (x ∷ text) y h = elim (Bool-cases (x == c)) [
  | inl found ↦
      let equal : x ≡ c = ground (arith, found) in
      let here : ◌≡◌ {A = List ℕ × List ℕ} ([], text) y = some-injective _ _ (rw found at h) in
      let none_before : [] ≡ y.0 = ap (λ (z : List ℕ × List ℕ). z.0) here in
      let rest_equal : text ≡ y.1 = ap (λ (z : List ℕ × List ℕ). z.1) here in
      (
        subst (λ f. contains c f ≡ false) none_before refl,
        rw (← none_before) (rw (← rest_equal) (ap (λ d. d ∷ text) equal)),
      )
  | inr differ ↦ elim (Option-cases (split_once c text)) [
    | inl nothing ↦
        let stuck : Option.map (λ (z : List ℕ × List ℕ). (x ∷ z.0, z.1)) (split_once c text)
            ≡ some y =
          rw differ at h in
        let none_some : ◌≡◌ {A = Option (List ℕ × List ℕ)} none (some y) = rw nothing at stuck in cc
    | inr (z, later) ↦
        let stuck : Option.map (λ (z : List ℕ × List ℕ). (x ∷ z.0, z.1)) (split_once c text)
            ≡ some y =
          rw differ at h in
        let here : ◌≡◌ {A = List ℕ × List ℕ} (x ∷ z.0, z.1) y =
          some-injective _ _ (rw later at stuck) in
        let front_equal : x ∷ z.0 ≡ y.0 = ap (λ (z : List ℕ × List ℕ). z.0) here in
        let rest_equal : z.1 ≡ y.1 = ap (λ (z : List ℕ × List ℕ). z.1) here in
        let (unseen, whole) = split_once-some c text z later in
        let flipped : (c == x) ≡ false = ground (arith, differ) in
        (
          subst (λ f. contains c f ≡ false) front_equal (rw flipped unseen),
          rw (← front_equal) (rw (← rest_equal) (ap (λ t. x ∷ t) whole)),
        )
  ]
]

split-cons : (c : ℕ) (text : List ℕ) → (p : List ℕ) × (ps : List (List ℕ)) × (split c text ≡ p ∷ ps)
unfolding split
split-cons c [] = ([], [], refl)
split-cons c (x ∷ text) =
    let (p, ps, e) = split-cons c text in
    elim (Bool-cases (x == c)) [
      | inl found ↦ ([], split c text, rw found refl)
      | inr differ ↦ (x ∷ p, ps, rw differ (rw e refl))
    ]

join-onto_first :
    (c x : ℕ) (p : List ℕ) (ps : List (List ℕ)) → join c ((x ∷ p) ∷ ps) ≡ x ∷ join c (p ∷ ps)
unfolding join
join-onto_first c x p [] = refl
join-onto_first c x p (q ∷ ps) = refl

-- Joining the parts of a text gives the text back.
pub join-split : (c : ℕ) (text : List ℕ) → join c (split c text) ≡ text
unfolding split join
join-split c [] = refl
join-split c (x ∷ text) =
    let (p, ps, e) = split-cons c text in
    let again : join c (p ∷ ps) ≡ text = ap (join c) (sym e) ∙ join-split c text in
    elim (Bool-cases (x == c)) [
      | inl found ↦ rw found (rw e (let equal : c ≡ x = ground (arith, found) in cc))
      | inr differ ↦ rw differ (rw e (join-onto_first c x p ps ∙ ap (λ t. x ∷ t) again))
    ]

split-append :
    (c : ℕ) (part rest : List ℕ)
    → contains c part ≡ false
    → split c (part ++ (c ∷ rest)) ≡ part ∷ split c rest
unfolding split
split-append c [] rest h = rw (==_self c) refl
split-append c (x ∷ part) rest h =
    let (differ, unseen) = contains-rest c x part h in
    rw differ (rw (split-append c part rest unseen) refl)

split-whole : (c : ℕ) (part : List ℕ) → contains c part ≡ false → split c part ≡ part ∷ []
unfolding split
split-whole c [] h = refl
split-whole c (x ∷ part) h =
    let (differ, unseen) = contains-rest c x part h in
    rw differ (rw (split-whole c part unseen) refl)

-- Parts that do not hold the separator are split again.
pub split-join :
    (c : ℕ) (part : List ℕ) (parts : List (List ℕ))
    → All (λ p. contains c p ≡ false) (part ∷ parts)
    → split c (join c (part ∷ parts)) ≡ part ∷ parts
unfolding join
split-join c part [] (h, rest) = split-whole c part h
split-join c part (next ∷ parts) (h, rest) =
    split-append c part (join c (next ∷ parts)) h
    ∙ ap (λ ps. part ∷ ps) (split-join c next parts rest)

-- Reading digits only makes the number larger.
pub digits_value-le : (text : List ℕ) (n : ℕ) → n ≤ digits_value text n
unfolding digits_value
digits_value-le [] n = omega arith
digits_value-le (c ∷ text) n = omega (arith, digits_value-le text (n * 10 + (c - b'0')))
