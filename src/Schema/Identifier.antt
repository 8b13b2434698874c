-- ===== src/Schema/Identifier.antt =====
-- crates/schema/src/schema/identifier.rs: names that follow `[A-Za-z][A-Za-z0-9_]*`.
pub mod Grammar
use quent.Base.{
  ℕ, ◌+◌, Bool, ◌&&◌, ◌||◌, Option, none, some, [], ◌∷◌, ltb, leb, eqb, if◌then◌else◌, nat_eq,
  pair_eq, option_eq, list_eq,
}
use quent.Base.Text.{Text}
use quent.Base.Result.{Result, ok, err}

pub record Identifier : Type 0 where
  pub text : Text

pub data IdentifierError : Type 0 where
  empty : IdentifierError
  invalid_start : ℕ → IdentifierError
  invalid_char : ℕ → ℕ → IdentifierError

-- Tests of code points, as the library has them for `char`.
abbrev pub is_ascii_alphabetic : ℕ → Bool
is_ascii_alphabetic c = leb b'A' c && leb c b'Z' || leb b'a' c && leb c b'z'

abbrev pub is_ascii_alphanumeric : ℕ → Bool
is_ascii_alphanumeric c = is_ascii_alphabetic c || leb b'0' c && leb c b'9'

abbrev pub may_follow : ℕ → Bool
may_follow c = is_ascii_alphanumeric c || eqb c b'_'

-- The bytes of a code point in UTF-8.
abbrev pub len_utf8 : ℕ → ℕ
len_utf8 c = if ltb c 0x80 then 1 else if ltb c 0x800 then 2 else if ltb c 0x10000 then 3 else 4

-- The loop over what follows the first character, from a byte offset on: the first character that may
-- not stand there.
unfoldable pub check_chars : ℕ → Text → Option IdentifierError
check_chars index [] = none
check_chars index (c ∷ s) =
    let rest = check_chars (index + len_utf8 c) s in
    if may_follow c then rest else some (invalid_char c index)

abbrev pub or_identifier : Text → Option IdentifierError → Result Identifier IdentifierError
or_identifier s none = ok (record { text = s })
or_identifier s (some e) = err e

unfoldable pub try_new : Text → Result Identifier IdentifierError
unfolding check_chars
try_new [] = err empty
try_new (c ∷ s) =
    if is_ascii_alphabetic c
    then or_identifier (c ∷ s) (check_chars (len_utf8 c) s)
    else err (invalid_start c)
