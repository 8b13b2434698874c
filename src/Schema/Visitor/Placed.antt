-- ===== src/Schema/Visitor/Placed.antt =====
-- What holds of the elements below the entities of a schema and below its records holds of their
-- positions, which are all below the root.
use quent.Base.{
  ◌≡◌, refl, ap, ◌∙◌, Bool, true, false, Option, none, some, List, [], ◌∷◌, ◌++◌, nat_eq, pair_eq,
  option_eq, list_eq, All, All-append,
}
use quent.Schema.Elements.{
  Annotations, DataType, RefData, Field, Event, Entity, Record, Schema, values, option, list,
  entity_ref, no_data, with_data,
}
use quent.Schema.Visitor.{
  Element, the_schema, the_annotations, the_entity, the_event, the_field, the_record, the_type,
  Cursor, current, root,
}
use quent.Schema.Visitor.Positions.{
  below, no_children, annotation_positions, type_positions, ref_positions, each, field_positions,
  event_positions, record_positions, entity_positions, positions,
}

abbrev pub at_good : (Element → Bool) → Option Element → Bool
at_good good none = false
at_good good (some x) = good x

-- A test that all elements pass but schemas and entities.
pub record Inner (good : Element → Bool) : Type 0 where
  pub annotations : (a : Annotations) → good (the_annotations a) ≡ true
  pub types : (t : DataType) → good (the_type t) ≡ true
  pub fields : (f : Field) → good (the_field f) ≡ true
  pub events : (e : Event) → good (the_event e) ≡ true
  pub records : (r : Record) → good (the_record r) ≡ true

root-append :
    (s : Schema) (c : Cursor) (x : Element) → root c ≡ some s → root (c ++ x ∷ []) ≡ some s
unfolding root
root-append s [] x h = cc
root-append s (the_schema t ∷ c) x h = h
root-append s (y ∷ c) x h = cc

current-append : (c : Cursor) (x : Element) → current (c ++ x ∷ []) ≡ some x
unfolding current
current-append [] x = refl
current-append (y ∷ []) x = refl
current-append (y ∷ z ∷ c) x = current-append (z ∷ c) x

module _ (s : Schema) (good : Element → Bool) (inner : Inner good) where
  -- A position under the root, at an element that passes the test.
  abbrev pub Placed : Cursor → Type 0
  Placed c = (root c ≡ some s) × (at_good good (current c) ≡ true)

  -- Positions that are placed where the cursor is under the root.
  abbrev pub Places : (Cursor → List Cursor) → Type 0
  Places ps = (c : Cursor) → root c ≡ some s → All Placed (ps c)

  below-Places :
      (ps : Cursor → List Cursor) (x : Element) → good x ≡ true → Places ps → Places (below ps x)
  below-Places ps x n h c r =
      let here = root-append s c x r in
      let other = ap (at_good good) (current-append c x) ∙ n in
      ((here, other), h (c ++ x ∷ []) here)

  none-Places : Places no_children
  none-Places c r = tt

  append-Places :
      (ps qs : Cursor → List Cursor) → Places ps → Places qs → Places (λ c. ps c ++ qs c)
  append-Places ps qs h k c r = All-append Placed (ps c) (qs c) (h c r) (k c r)

  each-Places {ℓ} :
      {A : Type ℓ} (ps : A → Cursor → List Cursor)
      → ((x : A) → Places (ps x))
      → (xs : List A) → Places (each ps xs)
  each-Places ps h [] c r = tt
  each-Places ps h (x ∷ xs) c r = append-Places (ps x) (each ps xs) (h x) (each-Places ps h xs) c r

  pub annotations-Places : (a : Annotations) → Places (annotation_positions a)
  annotations-Places a =
      below-Places no_children (the_annotations a) (inner.annotations a) none-Places

  mutual
    type-Places : (t : DataType) → Places (type_positions t)
    type-Places (option t) =
        below-Places (type_positions t) (the_type (option t)) (inner.types (option t))
          (type-Places t)
    type-Places (list t) =
        below-Places (type_positions t) (the_type (list t)) (inner.types (list t)) (type-Places t)
    type-Places (entity_ref d a) =
        below-Places (λ h. annotation_positions a h ++ ref_positions d h)
          (the_type (entity_ref d a)) (inner.types (entity_ref d a))
          (append-Places (annotation_positions a) (ref_positions d) (annotations-Places a)
            (ref-Places d))
    type-Places t = below-Places no_children (the_type t) (inner.types t) none-Places

    ref-Places : (d : RefData) → Places (ref_positions d)
    ref-Places no_data = none-Places
    ref-Places (with_data t) = type-Places t

  parent-Places {ℓ} :
      {A : Type ℓ} (x : Element) (a : Annotations) (ps : A → Cursor → List Cursor) (xs : List A)
      → good x ≡ true
      → ((y : A) → Places (ps y))
      → Places (below (λ h. annotation_positions a h ++ each ps xs h) x)
  parent-Places x a ps xs n h =
      below-Places (λ h. annotation_positions a h ++ each ps xs h) x n
        (append-Places (annotation_positions a) (each ps xs) (annotations-Places a)
          (each-Places ps h xs))

  field-Places : (f : Field) → Places (field_positions f)
  field-Places f =
      below-Places (λ h. annotation_positions f.annotations h ++ type_positions f.ty h)
        (the_field f) (inner.fields f)
        (append-Places (annotation_positions f.annotations) (type_positions f.ty)
          (annotations-Places f.annotations) (type-Places f.ty))

  event-Places : (e : Event) → Places (event_positions e)
  event-Places e =
      parent-Places (the_event e) e.annotations field_positions (values e.payload) (inner.events e)
        field-Places

  record-Places : (r : Record) → Places (record_positions r)
  record-Places r =
      parent-Places (the_record r) r.annotations field_positions (values r.fields) (inner.records r)
        field-Places

  pub entity_children-Places :
      (e : Entity)
      → Places
          (λ h. annotation_positions e.annotations h ++ each event_positions (values e.events) h)
  entity_children-Places e =
      append-Places (annotation_positions e.annotations) (each event_positions (values e.events))
        (annotations-Places e.annotations)
        (each-Places event_positions event-Places (values e.events))

  pub records-Places : Places (each record_positions (values s.records))
  records-Places = each-Places record_positions record-Places (values s.records)

  entities-Places :
      (es : List Entity)
      → All (λ e. good (the_entity e) ≡ true) es
      → Places (each entity_positions es)
  entities-Places [] h c r = tt
  entities-Places (e ∷ es) h c r =
      append-Places (entity_positions e) (each entity_positions es)
        (below-Places
          (λ h. annotation_positions e.annotations h ++ each event_positions (values e.events) h)
          (the_entity e) h.0 (entity_children-Places e))
        (entities-Places es h.1) c r

  -- Where the entities pass the test, the positions of a schema are the root and others that do.
  pub positions-Placed :
      All (λ e. good (the_entity e) ≡ true) (values s.entities)
      → (cs : List Cursor) × (positions s ≡ (the_schema s ∷ []) ∷ cs) × All Placed cs
  unfolding positions root
  positions-Placed h =
      let top = the_schema s ∷ [] in
      let es = each entity_positions (values s.entities) in
      let rs = each record_positions (values s.records) in
      let all : Cursor → List Cursor = λ c. annotation_positions s.annotations c ++ es c ++ rs c in
      (
        all top,
        refl,
        append-Places (λ c. annotation_positions s.annotations c ++ es c) rs
            (append-Places (annotation_positions s.annotations) es
              (annotations-Places s.annotations) (entities-Places (values s.entities) h))
            records-Places top refl,
      )

abbrev pub no_schema : Element → Bool
no_schema (the_schema s) = false
no_schema _ = true

pub no_schema-Inner : Inner no_schema
no_schema-Inner = record {
  annotations = λ a. refl;
  types = λ t. refl;
  fields = λ f. refl;
  events = λ e. refl;
  records = λ r. refl;
}

all_refl : (es : List Entity) → All (λ e. no_schema (the_entity e) ≡ true) es
all_refl [] = tt
all_refl (e ∷ es) = (refl, all_refl es)

-- The positions of a schema are the root, and others below it at which there is no schema.
pub positions-below_root :
    (s : Schema)
    → (cs : List Cursor) × (positions s ≡ (the_schema s ∷ []) ∷ cs)
      × All (Placed s no_schema no_schema-Inner) cs
positions-below_root s = positions-Placed s no_schema no_schema-Inner (all_refl (values s.entities))
