-- ===== src/Schema/Identifier/Grammar.antt =====
-- The identifiers are exactly the texts of the grammar.
use quent.Base.{
  ℕ, ◌+◌, ◌≡◌, refl, ◌↔◌, inl, inr, Bool, true, false, ◌&&◌, Option, none, some, [], ◌∷◌, arith,
  Bool-cases, nat_eq, pair_eq, option_eq, list_eq,
}
use quent.Base.Text.{Text}
use quent.Base.Result.{ok}
use quent.Schema.Identifier.{
  Identifier, IdentifierError, is_ascii_alphabetic, may_follow, len_utf8, check_chars,
  or_identifier, try_new,
}

abbrev pub all_may_follow : Text → Bool
all_may_follow [] = true
all_may_follow (c ∷ s) = may_follow c && all_may_follow s

-- `[A-Za-z][A-Za-z0-9_]*`
abbrev pub matches : Text → Bool
matches [] = false
matches (c ∷ s) = is_ascii_alphabetic c && all_may_follow s

check_chars-all_may_follow :
    (index : ℕ) (s : Text) → (check_chars index s ≡ none) ↔ (all_may_follow s ≡ true)
unfolding check_chars
check_chars-all_may_follow index [] = (λ h. refl, λ h. refl)
check_chars-all_may_follow index (c ∷ s) =
    let rest = check_chars-all_may_follow (index + len_utf8 c) s in
    elim (Bool-cases (may_follow c)) [ inl t ↦ rw t rest | inr f ↦ rw f (λ h. cc, λ h. cc) ]

or_identifier-ok :
    (s : Text) (o : Option IdentifierError) (i : Identifier)
    → (or_identifier s o ≡ ok i) ↔ ((o ≡ none) × (i.text ≡ s))
or_identifier-ok s none i = (λ h. (refl, ground arith), λ h. ground arith)
or_identifier-ok s (some e) i = (λ h. cc, λ h. cc)

-- A text is an identifier, of itself, exactly where it follows the grammar.
pub try_new-ok :
    (s : Text) (i : Identifier) → (try_new s ≡ ok i) ↔ ((matches s ≡ true) × (i.text ≡ s))
unfolding try_new
try_new-ok [] i = (λ h. cc, λ h. cc)
try_new-ok (c ∷ s) i =
    let rest = check_chars-all_may_follow (len_utf8 c) s in
    let made = or_identifier-ok (c ∷ s) (check_chars (len_utf8 c) s) i in
    elim (Bool-cases (is_ascii_alphabetic c)) [
      | inl t ↦ rw t (λ h. let m = made.0 h in (rest.0 m.0, m.1), λ h. made.1 (rest.1 h.0, h.1))
      | inr f ↦ rw f (λ h. cc, λ h. cc)
    ]
