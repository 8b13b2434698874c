-- ===== src/Schema/Builder/Accepts.antt =====
-- Which annotations, events, entities, records and schemas the builders accept, and what they make.
use quent.Base.{
  ◌≡◌, refl, ap, ◌↔◌, Bool, true, false, not, ◌&&◌, Option, none, some, List, [], ◌∷◌, map, arith,
  Eq, nat_eq, pair_eq, option_eq, list_eq,
}
use quent.Base.Text.{Text}
use quent.Base.Assoc.{Assoc, lookup}
use quent.Base.Set.{member, distinct}
use quent.Base.Result.{Result, ok, ◌>>=◌, bind_ok}
use quent.Schema.Identifier.{Identifier}
use quent.Schema.TypePath
use quent.Schema.TypePath.{TypePath}
use quent.Schema.Keys.{identifier_eq, type_path_eq}
use quent.Schema.Elements.{
  Constraint, Metadata, Annotations, Event, Entity, Record, Schema, is_some,
}
use quent.Schema.Builder.{BuilderError, collect_unique}
use quent.Schema.Builder.Annotations
use quent.Schema.Builder.Annotations.{AnnotationsBuilder, collect_named}
use quent.Schema.Builder.Entity
use quent.Schema.Builder.Entity.{EntityBuilder, no_items, or_no_events}
use quent.Schema.Builder.Schema
use quent.Schema.Builder.Schema.{SchemaBuilder, shared_key, or_shared}
use quent.Schema.Builder.Unique.{entries, all_named, collect_unique-ok, collect_named-ok}

-- Whether the names of one kind of annotation are all there and differ from each other.
abbrev constraints_named : List Constraint → Bool
constraints_named cs = all_named (λ c. c.name) cs && distinct (map (λ c. c.name) cs)

abbrev metadata_named : List Metadata → Bool
metadata_named ms = all_named (λ m. m.name) ms && distinct (map (λ m. m.name) ms)

abbrev pub well_named : AnnotationsBuilder → Bool
well_named b = constraints_named b.constraints && metadata_named b.metadata

abbrev pub annotated : AnnotationsBuilder → Annotations
annotated b = record {
  docs = b.docs;
  constraints = entries (λ c. c.name) b.constraints;
  metadata = entries (λ m. m.name) b.metadata;
}

pub annotations_build-ok :
    (b : AnnotationsBuilder) (a : Annotations)
    → (Annotations.build b ≡ ok a) ↔ ((well_named b ≡ true) × (annotated b ≡ a))
unfolding Annotations.build
annotations_build-ok b a =
    let cs = collect_named (λ c. c.name) b.constraints in
    let ms = collect_named (λ m. m.name) b.metadata in
    let made : Assoc Text Constraint → Assoc Text Metadata → Result Annotations BuilderError =
      λ c m. ok (record { docs = b.docs; constraints = c; metadata = m }) in
    let tail : Assoc Text Constraint → Result Annotations BuilderError = λ c. ms >>= made c in
    (
      λ h.
          let (c, found, h) = (bind_ok cs tail a).0 h in
          let (m, others, h) = (bind_ok ms (made c) a).0 h in
          let first = (collect_named-ok (λ c. c.name) c b.constraints).0 found in
          let second = (collect_named-ok (λ m. m.name) m b.metadata).0 others in
          let f = first.0 in
          let g = second.0 in
          (
            ground arith,
            let same : record { docs = b.docs; constraints = c; metadata = m } ≡ a = cc in
                rw (first.1, second.1) same,
          ),
      λ (h, e).
          let first =
            (collect_named-ok (λ c. c.name) (entries (λ c. c.name) b.constraints) b.constraints).1
              (ground arith, refl) in
          let second =
            (collect_named-ok (λ m. m.name) (entries (λ m. m.name) b.metadata) b.metadata).1
              (ground arith, refl) in
          rw (first, second) (ap ok e),
    )

-- No path of the one list is in the other.
abbrev pub disjoint : List TypePath → List TypePath → Bool
disjoint [] qs = true
disjoint (p ∷ ps) qs = not (member p qs) && disjoint ps qs

lookup-entries {ℓ κ} :
    {K : Type ℓ} {V : Type κ} ⦃e : Eq K⦄ (key : V → K) (k : K) (vs : List V)
    → is_some (lookup k (entries key vs)) ≡ member k (map key vs)
unfolding lookup member
lookup-entries key k [] = refl
lookup-entries ⦃e⦄ key k (v ∷ vs) = ground (arith, lookup-entries key k vs)

shared_key-disjoint :
    (es : List Entity) (rs : List Record)
    → is_some (shared_key (entries (λ e. e.path) es) (entries (λ r. r.path) rs))
      ≡ not (disjoint (map (λ e. e.path) es) (map (λ r. r.path) rs))
unfolding shared_key
shared_key-disjoint [] rs = refl
shared_key-disjoint (e ∷ es) rs =
    let found = lookup-entries (λ r. r.path) e.path rs in ground (arith, shared_key-disjoint es rs)

or_shared-ok :
    (o : Option TypePath) (rest : Result Schema BuilderError) (s : Schema)
    → (or_shared o rest ≡ ok s) ↔ ((is_some o ≡ false) × (rest ≡ ok s))
unfolding or_shared
or_shared-ok none rest s = (λ h. (refl, h), λ h. h.1)
or_shared-ok (some p) rest s = (λ h. cc, λ h. cc)

abbrev entity_paths : SchemaBuilder → List TypePath
entity_paths b = map (λ e. e.path) b.entities

abbrev record_paths : SchemaBuilder → List TypePath
record_paths b = map (λ r. r.path) b.records

abbrev named_parts :
    SchemaBuilder → Assoc TypePath Entity → Assoc TypePath Record → Annotations → Schema
named_parts b es rs a = record { name = b.name; entities = es; records = rs; annotations = a }

-- The last steps, once the maps are collected.
checked_parts-ok :
    (b : SchemaBuilder) (es : Assoc TypePath Entity) (rs : Assoc TypePath Record) (s : Schema)
    → (or_shared
          (shared_key es rs)
          (Annotations.build b.annotations >>= λ a. ok (named_parts b es rs a))
        ≡ ok s)
      ↔ ((is_some (shared_key es rs) ≡ false)
          × (well_named b.annotations ≡ true)
          × (named_parts b es rs (annotated b.annotations) ≡ s))
checked_parts-ok b es rs s =
    let made : Annotations → Result Schema BuilderError = λ a. ok (named_parts b es rs a) in
    let build = Annotations.build b.annotations in
    let free = or_shared-ok (shared_key es rs) (build >>= made) s in
    let annotations = annotations_build-ok b.annotations in
    (
      λ h.
          let (f, h) = free.0 h in
          let (a, named, h) = (bind_ok build made s).0 h in
          let (k, same) = (annotations a).0 named in (f, k, rw same cc),
      λ (f, k, q).
          let built = (annotations (annotated b.annotations)).1 (k, refl) in
          free.1 (f, (bind_ok build made s).1 (annotated b.annotations, built, ap ok q)),
    )

-- Whether no two of a schema's entities and records share a path, and its annotations are named.
abbrev pub buildable : SchemaBuilder → Bool
buildable b =
    distinct (entity_paths b)
    && distinct (record_paths b)
    && disjoint (entity_paths b) (record_paths b)
    && well_named b.annotations

abbrev pub assembled : SchemaBuilder → Schema
assembled b = record {
  name = b.name;
  entities = entries (λ e. e.path) b.entities;
  records = entries (λ r. r.path) b.records;
  annotations = annotated b.annotations;
}

-- A schema is built exactly where no two of its entities and records share a path and, in its
-- annotations, no name is empty, no two constraints have the same name and no two metadata entries
-- do; a constraint and a metadata entry may share one. It holds the entities and the records in
-- their order.
pub schema_build-ok :
    (b : SchemaBuilder) (s : Schema)
    → (Schema.build b ≡ ok s) ↔ ((buildable b ≡ true) × (assembled b ≡ s))
unfolding Schema.build
schema_build-ok b s =
    let es = collect_unique TypePath.display (λ e. e.path) b.entities in
    let rs = collect_unique TypePath.display (λ r. r.path) b.records in
    let checked : Assoc TypePath Entity → Assoc TypePath Record → Result Schema BuilderError =
      λ e r.
        or_shared (shared_key e r)
          (Annotations.build b.annotations >>= λ a. ok (named_parts b e r a)) in
    let tail : Assoc TypePath Entity → Result Schema BuilderError = λ e. rs >>= checked e in
    let e0 = entries (λ e. e.path) b.entities in
    let r0 = entries (λ r. r.path) b.records in
    let apart = shared_key-disjoint b.entities b.records in
    (
      λ h.
          let (e, found, h) = (bind_ok es tail s).0 h in
          let (r, others, h) = (bind_ok rs (checked e) s).0 h in
          let (f, first) =
            (collect_unique-ok TypePath.display (λ e. e.path) e b.entities).0 found in
          let (g, second) =
            (collect_unique-ok TypePath.display (λ r. r.path) r b.records).0 others in
          let (free, k, same) = (checked_parts-ok b e r s).0 h in
          let unshared : is_some (shared_key e0 r0) ≡ false = rw (first, second) free in
          (ground arith, rw (first, second) same),
      λ (h, q).
          let first =
            (collect_unique-ok TypePath.display (λ e. e.path) e0 b.entities).1
              (ground arith, refl) in
          let second =
            (collect_unique-ok TypePath.display (λ r. r.path) r0 b.records).1
              (ground arith, refl) in
          let last = (checked_parts-ok b e0 r0 s).1 (ground arith, ground arith, q) in
          (bind_ok es tail s).1 (e0, first, (bind_ok rs (checked e0) s).1 (r0, second, last)),
    )

or_no_events-ok :
    (b : Bool) (rest : Result Entity BuilderError) (e : Entity)
    → (or_no_events b rest ≡ ok e) ↔ ((b ≡ false) × (rest ≡ ok e))
or_no_events-ok true rest e = (λ h. cc, λ h. cc)
or_no_events-ok false rest e = (λ h. (refl, h), λ h. h.1)

-- Whether an entity has an event, no two of the same name, and annotations that are named.
abbrev pub entity_buildable : EntityBuilder → Bool
entity_buildable b =
    not (no_items b.events) && distinct (map (λ e. e.name) b.events) && well_named b.annotations

abbrev entity_parts : EntityBuilder → Assoc Identifier Event → Annotations → Entity
entity_parts b es a = record { path = b.path; events = es; annotations = a }

abbrev pub entity_assembled : EntityBuilder → Entity
entity_assembled b = entity_parts b (entries (λ e. e.name) b.events) (annotated b.annotations)

-- An entity is built exactly where it has events, no two of them have the same name and, in its
-- annotations, no name is empty, no two constraints have the same name and no two metadata entries
-- do; a constraint and a metadata entry may share one. It holds the events in their order.
pub entity_build-ok :
    (b : EntityBuilder) (e : Entity)
    → (Entity.build b ≡ ok e) ↔ ((entity_buildable b ≡ true) × (entity_assembled b ≡ e))
unfolding Entity.build
entity_build-ok b e =
    let es = collect_unique (λ i. i.text) (λ e. e.name) b.events in
    let build = Annotations.build b.annotations in
    let made : Assoc Identifier Event → Annotations → Result Entity BuilderError =
      λ es a. ok (entity_parts b es a) in
    let tail : Assoc Identifier Event → Result Entity BuilderError = λ es. build >>= made es in
    let e0 = entries (λ e. e.name) b.events in
    let nonempty = or_no_events-ok (no_items b.events) (es >>= tail) e in
    let annotations = annotations_build-ok b.annotations in
    (
      λ h.
          let (some_events, h) = nonempty.0 h in
          let (m, found, h) = (bind_ok es tail e).0 h in
          let (a, named, h) = (bind_ok build (made m) e).0 h in
          let (f, first) = (collect_unique-ok (λ i. i.text) (λ e. e.name) m b.events).0 found in
          let (k, second) = (annotations a).0 named in (ground arith, rw (first, second) cc),
      λ (h, q).
          let first =
            (collect_unique-ok (λ i. i.text) (λ e. e.name) e0 b.events).1 (ground arith, refl) in
          let named = (annotations (annotated b.annotations)).1 (ground arith, refl) in
          let last = (bind_ok build (made e0) e).1 (annotated b.annotations, named, ap ok q) in
          nonempty.1 (ground arith, (bind_ok es tail e).1 (e0, first, last)),
    )
