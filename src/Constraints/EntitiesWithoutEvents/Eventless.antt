-- ===== src/Constraints/EntitiesWithoutEvents/Eventless.antt =====
-- What is reported of entities that declare no events.
use quent.Base.{
  ◌≡◌, refl, sym, ap, ◌∙◌, inl, inr, Bool, true, false, Option, some, List, [], ◌∷◌, ◌++◌, arith,
  eqb, if◌then◌else◌, Bool-cases, nat_eq, pair_eq, option_eq, list_eq, length, All,
}
use mathlib.Core.List.{append-nil, append_assoc}
use quent.Base.Text.{Text}
use quent.Schema.TypePath
use quent.Schema.TypePath.{TypePath}
use quent.Schema.Elements.{Entity, Schema, values}
use quent.Schema.Visitor.{Element, the_schema, the_entity, Cursor, current, root, walk}
use quent.Schema.Visitor.Positions.{positions, visits, walk-positions}
use quent.Schema.Visitor.Positions.{
  annotation_positions, entity_positions, record_positions, event_positions, each, visits-append,
}
use quent.Schema.Visitor.Placed.{
  at_good, Inner, Placed, annotations-Places, entity_children-Places, records-Places,
}
use quent.Constraints.EntitiesWithoutEvents
use quent.Constraints.EntitiesWithoutEvents.{entities_without_events}

-- The paths of the entities that declare no events.
abbrev pub eventless : List Entity → List Text
eventless [] = []
eventless (e ∷ es) =
    (if eqb (length e.events) 0 then TypePath.display e.path ∷ [] else []) ++ eventless es

abbrev no_entity : Element → Bool
no_entity (the_entity e) = false
no_entity _ = true

no_entity-Inner : Inner no_entity
no_entity-Inner = record {
  annotations = λ a. refl;
  types = λ t. refl;
  fields = λ f. refl;
  events = λ e. refl;
  records = λ r. refl;
}

eventless-inner :
    (found : List Text) (o : Option Element)
    → at_good no_entity o ≡ true
    → EntitiesWithoutEvents.visit_element found o ≡ found
eventless-inner found (some (the_entity e)) h = absurd (ground arith)
eventless-inner found o h = refl

visits-inner :
    (s : Schema) (found : List Text) (cs : List Cursor)
    → All (Placed s no_entity no_entity-Inner) cs
    → visits EntitiesWithoutEvents.visit found cs ≡ found
unfolding EntitiesWithoutEvents.visit
visits-inner s found [] h = refl
visits-inner s found (c ∷ cs) h =
    ap (λ f. visits EntitiesWithoutEvents.visit f cs) (eventless-inner found (current c) h.0.1)
    ∙ visits-inner s found cs h.1

visits-eventless :
    (s : Schema) (found : List Text) (es : List Entity)
    → visits EntitiesWithoutEvents.visit found (each entity_positions es (the_schema s ∷ []))
      ≡ found ++ eventless es
unfolding EntitiesWithoutEvents.visit current root
visits-eventless s found [] = sym (append-nil found)
visits-eventless s found (e ∷ es) =
    let top = the_schema s ∷ [] in
    let here = the_schema s ∷ the_entity e ∷ [] in
    let visit = EntitiesWithoutEvents.visit in
    let children =
      annotation_positions e.annotations here ++ each event_positions (values e.events) here in
    let own = if eqb (length e.events) 0 then TypePath.display e.path ∷ [] else [] in
    let placed = entity_children-Places s no_entity no_entity-Inner e here refl in
    let first : visit found here ≡ found ++ own = elim (Bool-cases (eqb (length e.events) 0)) [
      | inl t ↦ rw t refl
      | inr f ↦ rw f (sym (append-nil found))
    ] in
    visits-append visit found (here ∷ children) (each entity_positions es top)
    ∙ ap (λ f. visits visit (visits visit f children) (each entity_positions es top)) first
    ∙ ap (λ f. visits visit f (each entity_positions es top))
        (visits-inner s (found ++ own) children placed)
    ∙ visits-eventless s (found ++ own) es
    ∙ append_assoc found own (eventless es)

-- What is reported as being without events are the entities that declare none, in their order.
pub walk-eventless :
    (s : Schema) → walk entities_without_events [] s ≡ eventless (values s.entities)
unfolding EntitiesWithoutEvents.visit current positions root
walk-eventless s =
    let top = the_schema s ∷ [] in
    let visit = EntitiesWithoutEvents.visit in
    let own = annotation_positions s.annotations top in
    let es = each entity_positions (values s.entities) top in
    let rs = each record_positions (values s.records) top in
    let placed = annotations-Places s no_entity no_entity-Inner s.annotations top refl in
    let others = records-Places s no_entity no_entity-Inner top refl in
    walk-positions entities_without_events [] s
    ∙ visits-append visit [] (own ++ es) rs
    ∙ ap (λ f. visits visit f rs)
        (visits-append visit [] own es
          ∙ ap (λ f. visits visit f es) (visits-inner s [] own placed)
          ∙ visits-eventless s [] (values s.entities))
    ∙ visits-inner s (eventless (values s.entities)) rs others
