-- ===== src/Nvtx/Tables/Lifespans.antt =====
-- When a domain is first seen.
use quent.Base.{
  or_else, ℕ, min, ◌≡◌, refl, ap, ◌∙◌, Bool, true, false, Option, none, some, List, [], ◌∷◌, eqb,
  if◌then◌else◌, nat_eq, pair_eq, option_eq, list_eq,
}
use quent.Base.Assoc.{lookup, lookup-insert_changed}
use quent.Events.{Event}
use quent.Base.Text.{Text}
use quent.Nvtx.Event.{
  NvtxEvent, range_push, range_pop, range_start, range_end, mark, domain_create, domain_destroy,
  register_string, name_category, resource_create,
}
use quent.Nvtx.Span.{category_id}
use quent.Nvtx.Tables.{
  ResolutionTables, no_tables, observe, observe_all, build, see_category, see_domain, see_thread,
  lifespan, DomainLifespan, name_category_as, at_creation, at_destruction,
}

-- The domain that an event refers to. An event that destroys a resource names no domain.
abbrev refers_to_domain : ℕ → NvtxEvent → Bool
refers_to_domain d (range_push e i a) = eqb e d
refers_to_domain d (range_pop e i) = eqb e d
refers_to_domain d (range_start e i a) = eqb e d
refers_to_domain d (range_end e i) = eqb e d
refers_to_domain d (mark e a) = eqb e d
refers_to_domain d (domain_create e n) = eqb e d
refers_to_domain d (domain_destroy e) = eqb e d
refers_to_domain d (register_string e h v) = eqb e d
refers_to_domain d (name_category e k n) = eqb e d
refers_to_domain d (resource_create e h t i m) = eqb e d
refers_to_domain d _ = false

abbrev pub first_seen_of : Option DomainLifespan → Option ℕ
first_seen_of none = none
first_seen_of (some l) = some l.first_seen

abbrev pub seen_at : ResolutionTables → ℕ → Option ℕ
seen_at t d = first_seen_of (lookup d t.domain_lifespans)

-- The smaller of a timestamp and one from before.
abbrev earlier : Option ℕ → ℕ → Option ℕ
earlier old timestamp = some (min (or_else old timestamp) timestamp)

-- The least timestamp of the events that refer to the domain, or of one from before.
abbrev earliest : ℕ → Option ℕ → List (Event NvtxEvent) → Option ℕ
earliest d old [] = old
earliest d old (event ∷ events) =
    earliest d (if refers_to_domain d event.payload then earlier old event.timestamp else old)
      events

-- The entry that `lifespan` makes of what it finds.
abbrev entry_at : ℕ → (DomainLifespan → DomainLifespan) → Option DomainLifespan → DomainLifespan
entry_at ts change old =
    let entry = or_else old (record { first_seen = ts; created = none; destroyed = none }) in
    change (record entry { first_seen = min entry.first_seen ts })

entry_at-first_seen :
    (ts : ℕ) (change : DomainLifespan → DomainLifespan) (old : Option DomainLifespan)
    → ((l : DomainLifespan) → (change l).first_seen ≡ l.first_seen)
    → some (entry_at ts change old).first_seen ≡ earlier (first_seen_of old) ts
entry_at-first_seen ts change none kept =
    ap some (kept (record { first_seen = min ts ts; created = none; destroyed = none }))
entry_at-first_seen ts change (some l) kept =
    ap some (kept (record l { first_seen = min l.first_seen ts }))

first_seen_of-if :
    (b : Bool) (l : DomainLifespan) (old : Option DomainLifespan)
    → first_seen_of (if b then some l else old)
      ≡ (if b then some l.first_seen else first_seen_of old)
first_seen_of-if true l old = refl
first_seen_of-if false l old = refl

module _ (t : ResolutionTables) (d ts : ℕ) where
  lifespan-seen_at :
      (e : ℕ) (change : DomainLifespan → DomainLifespan)
      → ((l : DomainLifespan) → (change l).first_seen ≡ l.first_seen)
      → seen_at (lifespan t e ts change) d
        ≡ (if eqb e d then earlier (seen_at t d) ts else seen_at t d)
  unfolding lifespan
  lifespan-seen_at e change kept =
      ap first_seen_of (lookup-insert_changed (entry_at ts change) d e t.domain_lifespans)
      ∙ first_seen_of-if (eqb e d) (entry_at ts change (lookup d t.domain_lifespans))
          (lookup d t.domain_lifespans)
      ∙ ap (λ o. if eqb e d then o else seen_at t d)
          (entry_at-first_seen ts change (lookup d t.domain_lifespans) kept)

  see_domain-seen_at :
      (e : ℕ)
      → seen_at (see_domain t e ts) d ≡ (if eqb e d then earlier (seen_at t d) ts else seen_at t d)
  unfolding see_domain
  see_domain-seen_at e = lifespan-seen_at e (λ l. l) (λ l. refl)

  see_category-seen_at :
      (s : ResolutionTables) (e : ℕ) (o : Option ℕ) → seen_at (see_category s e o) d ≡ seen_at s d
  see_category-seen_at s e none = refl
  see_category-seen_at s e (some c) = refl

  name_category_as-seen_at :
      (s : ResolutionTables) (e : ℕ) (o : Option ℕ) (n : Text)
      → seen_at (name_category_as s e o n) d ≡ seen_at s d
  name_category_as-seen_at s e none n = refl
  name_category_as-seen_at s e (some c) n = refl

  observe-seen_at :
      (e : NvtxEvent)
      → seen_at (observe t ts e) d
        ≡ (if refers_to_domain d e then earlier (seen_at t d) ts else seen_at t d)
  unfolding observe
  observe-seen_at (range_push e i a) =
      see_category-seen_at (see_thread (see_domain t e ts) i) e (category_id a.category)
      ∙ see_domain-seen_at e
  observe-seen_at (range_pop e i) = see_domain-seen_at e
  observe-seen_at (range_start e i a) =
      see_category-seen_at (see_domain t e ts) e (category_id a.category) ∙ see_domain-seen_at e
  observe-seen_at (range_end e i) = see_domain-seen_at e
  observe-seen_at (mark e a) =
      see_category-seen_at (see_domain t e ts) e (category_id a.category) ∙ see_domain-seen_at e
  observe-seen_at (domain_create e n) = lifespan-seen_at e (at_creation ts) (λ l. refl)
  observe-seen_at (domain_destroy e) = lifespan-seen_at e (at_destruction ts) (λ l. refl)
  observe-seen_at (register_string e h v) = see_domain-seen_at e
  observe-seen_at (name_category e k n) =
      name_category_as-seen_at (see_domain t e ts) e (category_id k) n ∙ see_domain-seen_at e
  observe-seen_at (resource_create e h i j m) = see_domain-seen_at e
  observe-seen_at _ = refl

observe_all-earliest :
    (d : ℕ) (t : ResolutionTables) (events : List (Event NvtxEvent))
    → seen_at (observe_all t events) d ≡ earliest d (seen_at t d) events
unfolding observe_all
observe_all-earliest d t [] = refl
observe_all-earliest d t (event ∷ events) =
    observe_all-earliest d (observe t event.timestamp event.payload) events
    ∙ ap (λ old. earliest d old events) (observe-seen_at t d event.timestamp event.payload)

-- The tables hold a domain just where an event refers to it, creation or not, and its first-seen
-- timestamp is the least one of these events, in whatever order they stand.
pub first_seen-eq-earliest :
    (events : List (Event NvtxEvent)) (d : ℕ) → seen_at (build events) d ≡ earliest d none events
unfolding build lookup
first_seen-eq-earliest events d = observe_all-earliest d no_tables events
