-- ===== src/Schema/Visitor.antt =====
-- crates/schema/src/visitor.rs: the walk of a visitor through the elements of a schema. A cursor
-- is the path from the root to the current element, and the state of a walk the cursor and the
-- visitor's own state.
pub mod Positions
pub mod Placed
use quent.Base.{
  ◌+◌, Bool, Option, none, some, List, [], ◌∷◌, ◌++◌, nat_eq, pair_eq, option_eq, list_eq, last?,
}
use quent.Base.Text.{Text, text}
use quent.Schema.Identifier.{Identifier}
use quent.Schema.TypePath.{TypePath}
use quent.Schema.TypePath
use quent.Schema.Elements.{
  Annotations, DataType, RefData, Field, Event, Entity, Record, Schema, values, bool, uuid, string,
  u8, u16, u32, u64, i8, i16, i32, i64, f32, f64, option, list, record_ref, dynamic_record,
  entity_ref, no_data, with_data,
}

pub data Element : Type 0 where
  the_schema : Schema → Element
  the_annotations : Annotations → Element
  the_entity : Entity → Element
  the_event : Event → Element
  the_field : Field → Element
  the_record : Record → Element
  the_type : DataType → Element

abbrev pub Cursor : Type 0
Cursor = List Element

unfoldable pub cursor_new : Schema → Cursor
cursor_new s = the_schema s ∷ []

-- `None` stands for the panic of an empty path.
unfoldable pub current : Cursor → Option Element
current c = last? c

unfoldable pub previous : Cursor → Option Element
previous [] = none
previous (x ∷ []) = none
previous (x ∷ y ∷ []) = some x
previous (x ∷ y ∷ z ∷ c) = previous (y ∷ z ∷ c)

unfoldable pub root : Cursor → Option Schema
root (the_schema s ∷ c) = some s
root _ = none

unfoldable pub enter : Cursor → Element → Cursor
enter c x = c ++ x ∷ []

unfoldable pub leave : Cursor → Cursor
leave [] = []
leave (x ∷ []) = []
leave (x ∷ y ∷ c) = x ∷ leave (y ∷ c)

unfoldable pub display_type : DataType → Text
unfolding TypePath.display
display_type bool = text "Bool"
display_type uuid = text "UUID"
display_type string = text "String"
display_type u8 = text "U8"
display_type u16 = text "U16"
display_type u32 = text "U32"
display_type u64 = text "U64"
display_type i8 = text "I8"
display_type i16 = text "I16"
display_type i32 = text "I32"
display_type i64 = text "I64"
display_type f32 = text "F32"
display_type f64 = text "F64"
display_type (option t) = text "Option"
display_type (list t) = text "List"
display_type (record_ref path) = text "Record(" ++ TypePath.display path ++ text ")"
display_type dynamic_record = text "DynamicRecord"
display_type (entity_ref d a) = text "EntityRef"

unfoldable pub display_element : Element → Text
unfolding display_type TypePath.display
display_element (the_schema s) = s.name.text
display_element (the_annotations a) = text "Annotations"
display_element (the_entity e) = TypePath.display e.path
display_element (the_event e) = e.name.text
display_element (the_field f) = f.name.text
display_element (the_record r) = TypePath.display r.path
display_element (the_type t) = display_type t

abbrev pub display_rest : Cursor → Text
display_rest [] = []
display_rest (x ∷ c) = text "." ++ display_element x ++ display_rest c

unfoldable pub display : Cursor → Text
unfolding display_element
display [] = []
display (x ∷ c) = display_element x ++ display_rest c

-- A visitor: its state at first is an argument of the walk.
pub record Visitor {ℓ κ} (S : Type ℓ) (Output : Type κ) : Type (ℓ ⊔ κ) where
  pub visit : S → Cursor → S
  pub finish : S → Output

module _ {ℓ} {S : Type ℓ} (visit : S → Cursor → S) where
  -- An element and its children, from the state at it to the state after it.
  unfoldable pub within : (Cursor × S → Cursor × S) → Element → Cursor × S → Cursor × S
  unfolding enter leave
  within children x (c, s) =
      let here = enter c x in let after = children (here, visit s here) in (leave after.0, after.1)

  -- A loop over children.
  abbrev pub for_each {κ} :
      {A : Type κ} → (A → Cursor × S → Cursor × S) → List A → Cursor × S → Cursor × S
  for_each f [] w = w
  for_each f (x ∷ xs) w = for_each f xs (f x w)

  abbrev pub nothing : Cursor × S → Cursor × S
  nothing w = w

  unfoldable pub walk_annotations : Annotations → Cursor × S → Cursor × S
  unfolding within
  walk_annotations a = within nothing (the_annotations a)

  unfoldable mutual
    unfolding within walk_annotations

    pub walk_data_type : DataType → Cursor × S → Cursor × S
    walk_data_type (option t) w = within (walk_data_type t) (the_type (option t)) w
    walk_data_type (list t) w = within (walk_data_type t) (the_type (list t)) w
    walk_data_type (entity_ref d a) w =
        within (λ v. walk_ref_data d (walk_annotations a v)) (the_type (entity_ref d a)) w
    walk_data_type t w = within nothing (the_type t) w

    pub walk_ref_data : RefData → Cursor × S → Cursor × S
    walk_ref_data no_data w = w
    walk_ref_data (with_data t) w = walk_data_type t w

  unfoldable pub walk_field : Field → Cursor × S → Cursor × S
  unfolding within walk_annotations walk_data_type
  walk_field f = within (λ w. walk_data_type f.ty (walk_annotations f.annotations w)) (the_field f)

  unfoldable pub walk_event : Event → Cursor × S → Cursor × S
  unfolding within walk_annotations walk_field
  walk_event e =
      within (λ w. for_each walk_field (values e.payload) (walk_annotations e.annotations w))
        (the_event e)

  unfoldable pub walk_record : Record → Cursor × S → Cursor × S
  unfolding within walk_annotations walk_field
  walk_record r =
      within (λ w. for_each walk_field (values r.fields) (walk_annotations r.annotations w))
        (the_record r)

  unfoldable pub walk_entity : Entity → Cursor × S → Cursor × S
  unfolding within walk_annotations walk_event
  walk_entity e =
      within (λ w. for_each walk_event (values e.events) (walk_annotations e.annotations w))
        (the_entity e)

unfoldable pub walk {ℓ κ} : {S : Type ℓ} {Output : Type κ} → Visitor S Output → S → Schema → Output
unfolding cursor_new walk_annotations walk_entity walk_record
walk v visitor schema =
    let cursor = cursor_new schema in
    let w = walk_annotations v.visit schema.annotations (cursor, v.visit visitor cursor) in
    let w = for_each v.visit (walk_entity v.visit) (values schema.entities) w in
    let w = for_each v.visit (walk_record v.visit) (values schema.records) w in v.finish w.1

-- `()`, which visits nothing.
abbrev pub empty_visitor : Visitor {0, 0} Unit Unit
empty_visitor = record { visit = λ s c. s; finish = λ s. s }

-- Visitors that walk together; a longer tuple is a pair of pairs.
abbrev pub pair_visitor {ℓ κ μ ν} :
    {S : Type ℓ} {A : Type κ} {T : Type μ} {B : Type ν}
    → Visitor S A
    → Visitor T B
    → Visitor (S × T) (A × B)
pair_visitor v w = record {
  visit = λ s c. (v.visit s.0 c, w.visit s.1 c);
  finish = λ s. (v.finish s.0, w.finish s.1);
}
