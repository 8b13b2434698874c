-- ===== src/Schema/TypePath/Segments.antt =====
-- Splitting a text at its double colons, and joining the segments again.
use quent.Base.{
  ℕ, ◌≡◌, refl, ap, ◌∙◌, inl, inr, Bool, true, false, not, ◌&&◌, List, [], ◌∷◌, ◌++◌, arith, eqb,
  Bool-cases, nat_eq, pair_eq, option_eq, list_eq,
}
use quent.Base.Text.{Text, text}
use quent.Schema.TypePath.{push_char, split}

abbrev pub join : List Text → Text
join [] = []
join (s ∷ []) = s
join (s ∷ t ∷ ss) = s ++ text "::" ++ join (t ∷ ss)

abbrev pub no_colon : Text → Bool
no_colon [] = true
no_colon (c ∷ s) = not (eqb c b':') && no_colon s

join-push_char : (c : ℕ) (ss : List Text) → join (push_char c ss) ≡ c ∷ join ss
join-push_char c [] = refl
join-push_char c (s ∷ []) = refl
join-push_char c (s ∷ t ∷ ss) = refl

push_char-cons :
    (c : ℕ) (ss : List Text) → (t : Text) × (ts : List Text) × (push_char c ss ≡ t ∷ ts)
push_char-cons c [] = (c ∷ [], [], refl)
push_char-cons c (s ∷ ss) = (c ∷ s, ss, refl)

pub split-cons : (s : Text) → (t : Text) × (ts : List Text) × (split s ≡ t ∷ ts)
unfolding split
split-cons [] = ([], [], refl)
split-cons (c ∷ []) = (c ∷ [], [], refl)
split-cons (c ∷ d ∷ s) = elim (Bool-cases (eqb c b':' && eqb d b':')) [
  | inl t ↦ rw t ([], split s, refl)
  | inr f ↦ rw f (push_char-cons c (split (d ∷ s)))
]

join-empty_first : (s : Text) → join ([] ∷ split s) ≡ text "::" ++ join (split s)
join-empty_first s = let (t, ts, e) = split-cons s in rw e refl

pub join-split : (s : Text) → join (split s) ≡ s
unfolding split
join-split [] = refl
join-split (c ∷ []) = refl
join-split (c ∷ d ∷ s) = elim (Bool-cases (eqb c b':' && eqb d b':')) [
  | inl t ↦
      let first : c ≡ b':' = ground arith in
      let second : d ≡ b':' = ground arith in
      rw t (rw (first, second) (join-empty_first s ∙ ap (λ r. b':' ∷ b':' ∷ r) (join-split s)))
  | inr f ↦ rw f (join-push_char c (split (d ∷ s)) ∙ ap (λ r. c ∷ r) (join-split (d ∷ s)))
]

pub split-no_colon : (a : Text) → no_colon a ≡ true → split a ≡ a ∷ []
unfolding split
split-no_colon [] h = refl
split-no_colon (c ∷ []) h = refl
split-no_colon (c ∷ d ∷ s) h =
    let plain : (eqb c b':' && eqb d b':') ≡ false = ground arith in
    let rest : no_colon (d ∷ s) ≡ true = ground arith in
    rw (plain, split-no_colon (d ∷ s) rest) refl

pub split-append : (a s : Text) → no_colon a ≡ true → split (a ++ text "::" ++ s) ≡ a ∷ split s
unfolding split
split-append [] s h = refl
split-append (c ∷ []) s h = let plain : eqb c b':' ≡ false = ground arith in rw plain refl
split-append (c ∷ d ∷ a) s h =
    let plain : (eqb c b':' && eqb d b':') ≡ false = ground arith in
    let rest : no_colon (d ∷ a) ≡ true = ground arith in
    rw (plain, split-append (d ∷ a) s rest) refl
