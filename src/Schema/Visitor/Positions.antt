-- ===== src/Schema/Visitor/Positions.antt =====
-- A walk visits the positions of a schema, each once and in the order of its text.
use quent.Base.{◌≡◌, refl, sym, ap, ◌∙◌, List, [], ◌∷◌, ◌++◌, nat_eq, pair_eq, option_eq, list_eq}
use quent.Schema.Elements.{
  Annotations, DataType, RefData, Field, Event, Entity, Record, Schema, values, option, list,
  entity_ref, no_data, with_data,
}
use quent.Schema.Visitor.{
  Element, the_schema, the_annotations, the_entity, the_event, the_field, the_record, the_type,
  Cursor, cursor_new, enter, leave, Visitor, within, for_each, nothing, walk_annotations,
  walk_data_type, walk_ref_data, walk_field, walk_event, walk_record, walk_entity, walk,
  pair_visitor,
}

-- The positions below a cursor, each as the path to it.
abbrev pub below : (Cursor → List Cursor) → Element → Cursor → List Cursor
below children x c = let here = c ++ x ∷ [] in here ∷ children here

abbrev pub no_children : Cursor → List Cursor
no_children c = []

abbrev pub annotation_positions : Annotations → Cursor → List Cursor
annotation_positions a = below no_children (the_annotations a)

-- The types inside a type.
abbrev mutual
  pub type_positions : DataType → Cursor → List Cursor
  type_positions (option t) c = below (type_positions t) (the_type (option t)) c
  type_positions (list t) c = below (type_positions t) (the_type (list t)) c
  type_positions (entity_ref d a) c =
      below (λ h. annotation_positions a h ++ ref_positions d h) (the_type (entity_ref d a)) c
  type_positions t c = below no_children (the_type t) c

  pub ref_positions : RefData → Cursor → List Cursor
  ref_positions no_data c = []
  ref_positions (with_data t) c = type_positions t c

abbrev pub each {ℓ} : {A : Type ℓ} → (A → Cursor → List Cursor) → List A → Cursor → List Cursor
each f [] c = []
each f (x ∷ xs) c = f x c ++ each f xs c

abbrev pub field_positions : Field → Cursor → List Cursor
field_positions f =
    below (λ h. annotation_positions f.annotations h ++ type_positions f.ty h) (the_field f)

abbrev pub event_positions : Event → Cursor → List Cursor
event_positions e =
    below (λ h. annotation_positions e.annotations h ++ each field_positions (values e.payload) h)
      (the_event e)

abbrev pub record_positions : Record → Cursor → List Cursor
record_positions r =
    below (λ h. annotation_positions r.annotations h ++ each field_positions (values r.fields) h)
      (the_record r)

abbrev pub entity_positions : Entity → Cursor → List Cursor
entity_positions e =
    below (λ h. annotation_positions e.annotations h ++ each event_positions (values e.events) h)
      (the_entity e)

-- All positions of a schema, from the root on.
unfoldable pub positions : Schema → List Cursor
positions s =
    let root = the_schema s ∷ [] in
    root ∷ annotation_positions s.annotations root
    ++ each entity_positions (values s.entities) root
    ++ each record_positions (values s.records) root

leave-enter : (c : Cursor) (x : Element) → leave (c ++ x ∷ []) ≡ c
unfolding leave
leave-enter [] x = refl
leave-enter (y ∷ []) x = refl
leave-enter (y ∷ z ∷ c) x = ap (λ r. y ∷ r) (leave-enter (z ∷ c) x)

module _ {ℓ} {S : Type ℓ} (visit : S → Cursor → S) where
  abbrev pub visits : S → List Cursor → S
  visits s [] = s
  visits s (c ∷ cs) = visits (visit s c) cs

  pub visits-append : (s : S) (cs ds : List Cursor) → visits s (cs ++ ds) ≡ visits (visits s cs) ds
  visits-append s [] ds = refl
  visits-append s (c ∷ cs) ds = visits-append (visit s c) cs ds

  -- A walk that visits the positions it should and comes back to where it was.
  abbrev Walks : (Cursor × S → Cursor × S) → (Cursor → List Cursor) → Type ℓ
  Walks f ps = (c : Cursor) (s : S) → f (c, s) ≡ (c, visits s (ps c))

  within-Walks :
      (f : Cursor × S → Cursor × S) (ps : Cursor → List Cursor) (x : Element)
      → Walks f ps
      → Walks (within visit f x) (below ps x)
  unfolding enter within
  within-Walks f ps x h c s =
      let here = c ++ x ∷ [] in
      rw (h here (visit s here)) (ap (λ d. (d, visits (visit s here) (ps here))) (leave-enter c x))

  nothing-Walks : Walks (nothing visit) no_children
  nothing-Walks c s = refl

  then-Walks :
      (f g : Cursor × S → Cursor × S) (ps qs : Cursor → List Cursor)
      → Walks f ps
      → Walks g qs
      → Walks (λ w. g (f w)) (λ c. ps c ++ qs c)
  then-Walks f g ps qs h k c s =
      ap g (h c s) ∙ k c (visits s (ps c)) ∙ ap (λ r. (c, r)) (sym (visits-append s (ps c) (qs c)))

  for_each-Walks {κ} :
      {A : Type κ} (f : A → Cursor × S → Cursor × S) (ps : A → Cursor → List Cursor)
      → ((x : A) → Walks (f x) (ps x))
      → (xs : List A) → Walks (for_each visit f xs) (each ps xs)
  for_each-Walks f ps h [] c s = refl
  for_each-Walks f ps h (x ∷ xs) c s =
      then-Walks (f x) (for_each visit f xs) (ps x) (each ps xs) (h x) (for_each-Walks f ps h xs) c
        s

  annotations-Walks : (a : Annotations) → Walks (walk_annotations visit a) (annotation_positions a)
  unfolding walk_annotations within
  annotations-Walks a = within-Walks (nothing visit) no_children (the_annotations a) nothing-Walks

  mutual
    unfolding walk_data_type within

    type-Walks : (t : DataType) → Walks (walk_data_type visit t) (type_positions t)
    type-Walks (option t) =
        within-Walks (walk_data_type visit t) (type_positions t) (the_type (option t))
          (type-Walks t)
    type-Walks (list t) =
        within-Walks (walk_data_type visit t) (type_positions t) (the_type (list t)) (type-Walks t)
    type-Walks (entity_ref d a) =
        within-Walks (λ v. walk_ref_data visit d (walk_annotations visit a v))
          (λ h. annotation_positions a h ++ ref_positions d h) (the_type (entity_ref d a))
          (then-Walks (walk_annotations visit a) (walk_ref_data visit d) (annotation_positions a)
            (ref_positions d) (annotations-Walks a) (ref-Walks d))
    type-Walks t = within-Walks (nothing visit) no_children (the_type t) nothing-Walks

    ref-Walks : (d : RefData) → Walks (walk_ref_data visit d) (ref_positions d)
    ref-Walks no_data = nothing-Walks
    ref-Walks (with_data t) = type-Walks t

  -- An element that holds annotations and children of one kind.
  parent-Walks {κ} :
      {A : Type κ} (x : Element) (a : Annotations) (f : A → Cursor × S → Cursor × S)
      (ps : A → Cursor → List Cursor) (xs : List A)
      → ((y : A) → Walks (f y) (ps y))
      → Walks
          (within visit (λ w. for_each visit f xs (walk_annotations visit a w)) x)
          (below (λ h. annotation_positions a h ++ each ps xs h) x)
  parent-Walks x a f ps xs h =
      within-Walks (λ w. for_each visit f xs (walk_annotations visit a w))
        (λ h. annotation_positions a h ++ each ps xs h) x
        (then-Walks (walk_annotations visit a) (for_each visit f xs) (annotation_positions a)
          (each ps xs) (annotations-Walks a) (for_each-Walks f ps h xs))

  field-Walks : (f : Field) → Walks (walk_field visit f) (field_positions f)
  unfolding walk_field
  field-Walks f =
      within-Walks (λ w. walk_data_type visit f.ty (walk_annotations visit f.annotations w))
        (λ h. annotation_positions f.annotations h ++ type_positions f.ty h) (the_field f)
        (then-Walks (walk_annotations visit f.annotations) (walk_data_type visit f.ty)
          (annotation_positions f.annotations) (type_positions f.ty)
          (annotations-Walks f.annotations) (type-Walks f.ty))

  event-Walks : (e : Event) → Walks (walk_event visit e) (event_positions e)
  unfolding walk_event
  event-Walks e =
      parent-Walks (the_event e) e.annotations (walk_field visit) field_positions (values e.payload)
        field-Walks

  record-Walks : (r : Record) → Walks (walk_record visit r) (record_positions r)
  unfolding walk_record
  record-Walks r =
      parent-Walks (the_record r) r.annotations (walk_field visit) field_positions (values r.fields)
        field-Walks

  entity-Walks : (e : Entity) → Walks (walk_entity visit e) (entity_positions e)
  unfolding walk_entity
  entity-Walks e =
      parent-Walks (the_entity e) e.annotations (walk_event visit) event_positions (values e.events)
        event-Walks

-- A walk visits the positions of a schema in their order, each with the path to it, and gives what
-- the visitor makes of them.
pub walk-positions {ℓ κ} :
    {S : Type ℓ} {Output : Type κ} (v : Visitor S Output) (visitor : S) (s : Schema)
    → walk v visitor s ≡ v.finish (visits v.visit visitor (positions s))
unfolding walk cursor_new positions
walk-positions v visitor s =
    let root = cursor_new s in
    let annotations = walk_annotations v.visit s.annotations in
    let entities = for_each v.visit (walk_entity v.visit) (values s.entities) in
    let records = for_each v.visit (walk_record v.visit) (values s.records) in
    let es = each entity_positions (values s.entities) in
    let rs = each record_positions (values s.records) in
    let all =
      then-Walks v.visit (λ w. entities (annotations w)) records
        (λ c. annotation_positions s.annotations c ++ es c) rs
        (then-Walks v.visit annotations entities (annotation_positions s.annotations) es
          (annotations-Walks v.visit s.annotations)
          (for_each-Walks v.visit (walk_entity v.visit) entity_positions (entity-Walks v.visit)
            (values s.entities)))
        (for_each-Walks v.visit (walk_record v.visit) record_positions (record-Walks v.visit)
          (values s.records)) in
    ap (λ w. v.finish w.1) (all root (v.visit visitor root))

visits-pair {ℓ κ} :
    {S : Type ℓ} {T : Type κ} (f : S → Cursor → S) (g : T → Cursor → T) (s : S) (t : T)
    (cs : List Cursor)
    → visits {S = S × T} (λ p c. (f p.0 c, g p.1 c)) (s, t) cs ≡ (visits f s cs, visits g t cs)
visits-pair f g s t [] = refl
visits-pair f g s t (c ∷ cs) = visits-pair f g (f s c) (g t c) cs

-- Visitors that walk together give what each of them gives alone.
pub walk-pair_visitor {ℓ κ μ ν} :
    {S : Type ℓ} {A : Type κ} {T : Type μ} {B : Type ν} (v : Visitor S A) (w : Visitor T B) (a : S)
    (b : T) (s : Schema)
    → walk (pair_visitor v w) (a, b) s ≡ (walk v a s, walk w b s)
walk-pair_visitor v w a b s =
    walk-positions (pair_visitor v w) (a, b) s
    ∙ ap (λ p. (v.finish p.0, w.finish p.1)) (visits-pair v.visit w.visit a b (positions s))
    ∙ sym (ap (λ x. (x, w.finish (visits w.visit b (positions s)))) (walk-positions v a s))
    ∙ ap (λ y. (walk v a s, y)) (sym (walk-positions w b s))
