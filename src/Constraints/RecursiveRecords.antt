-- ===== src/Constraints/RecursiveRecords.antt =====
-- crates/constraints/src/recursive_record.rs: records that reference themselves, by way of others
-- too. The partition of a graph into strongly connected components is a library's.
pub mod Cycles
use quent.Base.{
  ◌+◌, Bool, true, false, ◌&&◌, ◌||◌, Option, none, some, List, [], ◌∷◌, ◌++◌, map, ltb,
  if◌then◌else◌, ◌==◌, nat_eq, pair_eq, option_eq, list_eq, length, set, or_else,
}
use quent.Base.Text.{Text, text, text_before}
use quent.Base.Assoc.{Assoc, lookup, insert}
use quent.Base.Set.{member, add_all, set_insert}
use quent.Base.Graph.{Graph, in_large}
use quent.Schema.Identifier.{Identifier}
use quent.Schema.TypePath
use quent.Schema.TypePath.{TypePath}
use quent.Schema.Keys.{identifier_eq, type_path_eq}
use quent.Schema.Elements.{
  Constraint, Annotations, DataType, record_ref, Event, Entity, Record, Schema, values, is_some,
  schema_record,
}
use quent.Schema.Visitor
use quent.Schema.Visitor.{
  Element, the_schema, the_annotations, the_entity, the_event, the_field, the_record, the_type,
  Cursor, current, root, Visitor,
}

-- Record path -> the records its fields reference.
abbrev pub Edges : Type 0
Edges = Assoc TypePath (List TypePath)

unfoldable pub push_edge : Edges → TypePath → TypePath → Edges
unfolding lookup insert
push_edge edges source target =
    insert source (or_else (lookup source edges) [] ++ target ∷ []) edges

-- The record that a cursor starts at, below the schema.
abbrev pub source_record : Cursor → Option Record
source_record (x ∷ the_record r ∷ c) = some r
source_record _ = none

abbrev pub visit_element : Edges → Option Element → Option Record → Edges
visit_element edges (some (the_type (record_ref target))) (some source) =
    push_edge edges source.path target
visit_element edges _ _ = edges

unfoldable pub visit : Edges → Cursor → Edges
unfolding current push_edge
visit edges cursor = visit_element edges (current cursor) (source_record cursor)

unfoldable pub edges_from : TypePath → List TypePath → Graph TypePath
edges_from source [] = []
edges_from source (t ∷ ts) = (source, t) ∷ edges_from source ts

unfoldable pub graph : Edges → Graph TypePath
unfolding edges_from
graph [] = []
graph ((source, targets) ∷ edges) = edges_from source targets ++ graph edges

-- The order of paths, by their segments.
abbrev pub segments_before : List Identifier → List Identifier → Bool
segments_before [] [] = false
segments_before [] (j ∷ js) = true
segments_before (i ∷ is) [] = false
segments_before (i ∷ is) (j ∷ js) =
    let rest = segments_before is js in text_before i.text j.text || (i == j && rest)

abbrev pub path_before : TypePath → TypePath → Bool
path_before p q = segments_before (p.namespace ++ p.name ∷ []) (q.namespace ++ q.name ∷ [])

unfoldable pub extend : List TypePath → List TypePath → List TypePath
unfolding set_insert
extend set [] = set
extend set (p ∷ ps) = extend (set_insert path_before p set) ps

unfoldable pub insert_components : List TypePath → List (List TypePath) → List TypePath
unfolding extend
insert_components set [] = set
insert_components set (c ∷ cs) =
    insert_components (if ltb 1 (length c) then extend set c else set) cs

unfoldable pub insert_loops : List TypePath → Edges → List TypePath
unfolding member set_insert
insert_loops set [] = set
insert_loops set ((source, targets) ∷ edges) =
    insert_loops (if member source targets then set_insert path_before source set else set) edges

module _ (tarjan_scc : Graph TypePath → List (List TypePath)) where
  unfoldable pub recursive : Edges → List TypePath
  unfolding graph insert_components insert_loops
  recursive edges = insert_loops (insert_components [] (tarjan_scc (graph edges))) edges

  unfoldable pub finish : Edges → List Text
  unfolding recursive TypePath.display
  finish edges = map TypePath.display (recursive edges)

  abbrev pub recursive_records : Visitor Edges (List Text)
  recursive_records = record { visit = visit; finish = finish }
