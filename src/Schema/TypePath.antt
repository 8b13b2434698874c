-- ===== src/Schema/TypePath.antt =====
-- crates/schema/src/schema/path.rs: paths of types, `Path` in the source, and their text.
pub mod Segments
pub mod Printing
use quent.Base.{
  ℕ, ◌+◌, ◌-◌, ◌≡◌, refl, ◌&&◌, Option, none, some, List, [], ◌∷◌, ◌++◌, eqb, if◌then◌else◌, nat_eq,
  pair_eq, option_eq, list_eq,
}
use quent.Base.Text.{Text, text}
use quent.Base.Result.{Result, ok, err, ◌>>=◌}
use quent.Schema.Identifier
use quent.Schema.Identifier.{Identifier, IdentifierError}

pub record TypePath : Type 0 where
  pub namespace : List Identifier
  pub name : Identifier

pub data PathError : Type 0 where
  empty : PathError
  invalid_segment : ℕ → IdentifierError → PathError

unfoldable pub with_name : TypePath → Identifier → TypePath
with_name p name = record { namespace = p.namespace; name = name }

-- `Vec::pop`, with what is left.
abbrev cons_init :
    Identifier → Option (List Identifier × Identifier) → Option (List Identifier × Identifier)
cons_init i none = none
cons_init i (some (init, last)) = some (i ∷ init, last)

unfoldable pub pop : List Identifier → Option (List Identifier × Identifier)
pop [] = none
pop (i ∷ []) = some ([], i)
pop (i ∷ j ∷ is) = cons_init i (pop (j ∷ is))

abbrev pub from_popped : Option (List Identifier × Identifier) → Result TypePath PathError
from_popped none = err empty
from_popped (some (namespace, name)) = ok (record { namespace = namespace; name = name })

unfoldable pub try_from : List Identifier → Result TypePath PathError
unfolding pop
try_from segments = from_popped (pop segments)

-- `str::split("::")`
abbrev pub push_char : ℕ → List Text → List Text
push_char c [] = (c ∷ []) ∷ []
push_char c (s ∷ ss) = (c ∷ s) ∷ ss

unfoldable pub split : Text → List Text
split [] = [] ∷ []
split (c ∷ []) = (c ∷ []) ∷ []
split (c ∷ d ∷ s) =
    let after = split s in
    let next = split (d ∷ s) in if eqb c b':' && eqb d b':' then [] ∷ after else push_char c next

abbrev pub parsed_segment : ℕ → Result Identifier IdentifierError → Result Identifier PathError
parsed_segment index (ok i) = ok i
parsed_segment index (err e) = err (invalid_segment index e)

-- The segments, from an index on; the first error ends it.
unfoldable pub parse_segments : ℕ → List Text → Result (List Identifier) PathError
unfolding Identifier.try_new
parse_segments index [] = ok []
parse_segments index (s ∷ ss) = do
  i ← parsed_segment index (Identifier.try_new s)
  rest ← parse_segments (index + 1) ss
  ok (i ∷ rest)

unfoldable pub from_str : Text → Result TypePath PathError
unfolding split parse_segments try_from
from_str [] = err empty
from_str (c ∷ s) = do segments ← parse_segments 0 (split (c ∷ s)); try_from segments

unfoldable pub display_segments : List Identifier → Text
display_segments [] = []
display_segments (i ∷ is) = i.text ++ text "::" ++ display_segments is

unfoldable pub display : TypePath → Text
unfolding display_segments
display p = display_segments p.namespace ++ p.name.text

from_str-display_FooQuery :
    from_str (text "Foo::Query")
    ≡ ok (record {
      namespace = record { text = text "Foo" } ∷ [];
      name = record { text = text "Query" };
    })
unfolding from_str
from_str-display_FooQuery = refl
