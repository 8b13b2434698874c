-- ===== src/Schema/Elements.antt =====
-- crates/schema/src/schema/{annotations,constraint,metadata,data_type,field,event,entity,record,
-- mod}.rs: the elements of a schema. A map that keeps the order of insertion is the list of its
-- entries.
use quent.Base.{
  Bool, true, false, Option, none, some, List, [], ◌∷◌, nat_eq, pair_eq, option_eq, list_eq,
}
use quent.Base.Text.{Text}
use quent.Base.Assoc.{Assoc, lookup}
use quent.Schema.Identifier.{Identifier}
use quent.Schema.TypePath.{TypePath}
use quent.Schema.Keys.{identifier_eq, type_path_eq}

pub record Constraint : Type 0 where
  pub name : Text
  pub payload : Option Text

pub record Metadata : Type 0 where
  pub name : Text
  pub payload : Option Text

pub record Annotations : Type 0 where
  pub docs : Option Text
  pub constraints : Assoc Text Constraint
  pub metadata : Assoc Text Metadata

mutual
  pub data DataType : Type 0 where
    bool : DataType
    uuid : DataType
    string : DataType
    u8 : DataType
    u16 : DataType
    u32 : DataType
    u64 : DataType
    i8 : DataType
    i16 : DataType
    i32 : DataType
    i64 : DataType
    f32 : DataType
    f64 : DataType
    option : DataType → DataType
    list : DataType → DataType
    record_ref : TypePath → DataType
    dynamic_record : DataType
    entity_ref : RefData → Annotations → DataType

  -- The optional payload of a reference.
  pub data RefData : Type 0 where
    no_data : RefData
    with_data : DataType → RefData

pub record Field : Type 0 where
  pub name : Identifier
  pub ty : DataType
  pub annotations : Annotations

pub data Cardinality : Type 0 where
  once : Cardinality
  multi : Cardinality

pub record Event : Type 0 where
  pub name : Identifier
  pub cardinality : Cardinality
  pub payload : Assoc Identifier Field
  pub annotations : Annotations

pub record Entity : Type 0 where
  pub path : TypePath
  pub events : Assoc Identifier Event
  pub annotations : Annotations

pub record Record : Type 0 where
  pub path : TypePath
  pub fields : Assoc Identifier Field
  pub annotations : Annotations

pub record Schema : Type 0 where
  pub name : Identifier
  pub entities : Assoc TypePath Entity
  pub records : Assoc TypePath Record
  pub annotations : Annotations

-- The values of a map, in the order of insertion.
abbrev pub values {ℓ κ} : {K : Type ℓ} {V : Type κ} → Assoc K V → List V
values [] = []
values ((k, v) ∷ m) = v ∷ values m

unfoldable pub constraint : Annotations → Text → Option Constraint
unfolding lookup
constraint a name = lookup name a.constraints

abbrev pub is_some {ℓ} : {A : Type ℓ} → Option A → Bool
is_some none = false
is_some (some a) = true

unfoldable pub has_constraint : Annotations → Text → Bool
unfolding constraint
has_constraint a name = is_some (constraint a name)

unfoldable pub metadata_of : Annotations → Text → Option Metadata
unfolding lookup
metadata_of a name = lookup name a.metadata

unfoldable pub event_field : Event → Identifier → Option Field
unfolding lookup
event_field e name = lookup name e.payload

unfoldable pub entity_event : Entity → Identifier → Option Event
unfolding lookup
entity_event e name = lookup name e.events

unfoldable pub record_field : Record → Identifier → Option Field
unfolding lookup
record_field r name = lookup name r.fields

unfoldable pub schema_entity : Schema → TypePath → Option Entity
unfolding lookup
schema_entity s path = lookup path s.entities

unfoldable pub schema_record : Schema → TypePath → Option Record
unfolding lookup
schema_record s path = lookup path s.records
