-- ===== src/Nvtx/Tables.antt =====
-- integrations/nvtx/analyzer/src/tables.rs: what the first pass learns from the stream.
pub mod Names
pub mod Seen
pub mod Lifespans
use quent.Base.{
  or_else, ℕ, ◌+◌, ◌<◌, min, max, Bool, ◌&&◌, ◌||◌, Option, none, some, List, [], ◌∷◌, ◌++◌, map,
  ltb, eqb, if◌then◌else◌, nat_eq, pair_eq, option_eq, list_eq,
}
use quent.Base.Assoc.{Assoc, lookup, insert}
use quent.Base.Set.{set_insert}
use quent.Base.Sort.{sort_by}
use quent.Events.{Event}
use quent.Base.Text.{Text, text, decimal, hex}
use quent.Nvtx.Event.{
  NvtxMessage, string, registered_handle, NvtxEventAttributes, NvtxEvent, range_push, range_pop,
  range_start, range_end, mark, domain_create, domain_destroy, register_string, name_category,
  name_thread, resource_create, resource_destroy,
}
use quent.Nvtx.Span.{category_id, NvtxDomain, NvtxThread, NvtxCategory}

abbrev pub default_domain_name : Text
default_domain_name = text "default domain"

abbrev pub unnamed_message : Text
unnamed_message = text "<unnamed>"

unfoldable pub unresolved_domain_name : ℕ → Text
unresolved_domain_name domain = text "<domain 0x" ++ hex domain ++ text ">"

unfoldable pub unregistered_string_name : ℕ → Text
unregistered_string_name handle = text "<unregistered string 0x" ++ hex handle ++ text ">"

unfoldable pub unnamed_category_name : ℕ → ℕ → Text
unnamed_category_name domain category =
    text "<category " ++ decimal category ++ text " @ domain 0x" ++ hex domain ++ text ">"

unfoldable pub unnamed_thread_name : ℕ → Text
unnamed_thread_name thread_id = text "thread " ++ decimal thread_id

pub record DomainLifespan : Type 0 where
  pub first_seen : ℕ
  pub created : Option ℕ
  pub destroyed : Option ℕ

pub record ResolutionTables : Type 0 where
  pub domain_names : Assoc ℕ Text
  pub domain_lifespans : Assoc ℕ DomainLifespan
  pub registered_strings : Assoc (ℕ × ℕ) Text
  pub category_names : Assoc (ℕ × ℕ) Text
  pub thread_names : Assoc ℕ Text
  pub categories_seen : List (ℕ × ℕ)
  pub threads_seen : List ℕ

abbrev pub no_tables : ResolutionTables
no_tables = record {
  domain_names = [];
  domain_lifespans = [];
  registered_strings = [];
  category_names = [];
  thread_names = [];
  categories_seen = [];
  threads_seen = [];
}

-- The order of pairs, by their first components and then by their second.
abbrev pub pair_before : ℕ × ℕ → ℕ × ℕ → Bool
pair_before p q = ltb p.0 q.0 || eqb p.0 q.0 && ltb p.1 q.1

-- `lifespan`: the entry of a domain with its first-seen bound widened. What a caller then does to it
-- is the argument.
unfoldable pub lifespan :
    ResolutionTables → ℕ → ℕ → (DomainLifespan → DomainLifespan) → ResolutionTables
lifespan t domain timestamp change =
    let entry =
      or_else (lookup domain t.domain_lifespans)
        (record { first_seen = timestamp; created = none; destroyed = none }) in
    let widened = record entry { first_seen = min entry.first_seen timestamp } in
    record t { domain_lifespans = insert domain (change widened) t.domain_lifespans }

unfoldable pub see_domain : ResolutionTables → ℕ → ℕ → ResolutionTables
unfolding lifespan
see_domain t domain timestamp = lifespan t domain timestamp (λ l. l)

abbrev pub see_thread : ResolutionTables → ℕ → ResolutionTables
see_thread t thread_id = record t { threads_seen = set_insert ltb thread_id t.threads_seen }

abbrev pub see_category : ResolutionTables → ℕ → Option ℕ → ResolutionTables
see_category t domain none = t
see_category t domain (some category) = record t {
  categories_seen = set_insert pair_before (domain, category) t.categories_seen;
}

unfoldable pub see_attributes : ResolutionTables → ℕ → NvtxEventAttributes → ResolutionTables
unfolding category_id
see_attributes t domain attributes = see_category t domain (category_id attributes.category)

abbrev pub name_category_as : ResolutionTables → ℕ → Option ℕ → Text → ResolutionTables
name_category_as t domain none name = t
name_category_as t domain (some category) name = record t {
  categories_seen = set_insert pair_before (domain, category) t.categories_seen;
  category_names = insert (domain, category) name t.category_names;
}

abbrev pub at_creation : ℕ → DomainLifespan → DomainLifespan
at_creation timestamp l = record l { created = some (min (or_else l.created timestamp) timestamp) }

abbrev pub at_destruction : ℕ → DomainLifespan → DomainLifespan
at_destruction timestamp l = record l {
  destroyed = some (max (or_else l.destroyed timestamp) timestamp);
}

unfoldable pub observe : ResolutionTables → ℕ → NvtxEvent → ResolutionTables
unfolding lifespan see_domain see_attributes category_id
observe t timestamp (range_push domain thread_id attributes) =
    see_attributes (see_thread (see_domain t domain timestamp) thread_id) domain attributes
observe t timestamp (range_pop domain thread_id) =
    see_thread (see_domain t domain timestamp) thread_id
observe t timestamp (range_start domain range_id attributes) =
    see_attributes (see_domain t domain timestamp) domain attributes
observe t timestamp (mark domain attributes) =
    see_attributes (see_domain t domain timestamp) domain attributes
observe t timestamp (range_end domain range_id) = see_domain t domain timestamp
observe t timestamp (domain_create domain name) =
    let seen = lifespan t domain timestamp (at_creation timestamp) in
    record seen { domain_names = insert domain name seen.domain_names }
observe t timestamp (domain_destroy domain) = lifespan t domain timestamp (at_destruction timestamp)
observe t timestamp (register_string domain handle value) =
    let seen = see_domain t domain timestamp in
    record seen { registered_strings = insert (domain, handle) value seen.registered_strings }
observe t timestamp (name_category domain category name) =
    name_category_as (see_domain t domain timestamp) domain (category_id category) name
observe t timestamp (name_thread thread_id name) =
    let seen = see_thread t thread_id in
    record seen { thread_names = insert thread_id name seen.thread_names }
observe t timestamp (resource_create domain handle identifier_type identifier message) =
    see_domain t domain timestamp
observe t timestamp (resource_destroy handle) = t

unfoldable pub observe_all : ResolutionTables → List (Event NvtxEvent) → ResolutionTables
observe_all t [] = t
observe_all t (event ∷ events) = observe_all (observe t event.timestamp event.payload) events

unfoldable pub build : List (Event NvtxEvent) → ResolutionTables
build events = observe_all no_tables events

unfoldable pub resolve_message : ResolutionTables → ℕ → Option NvtxMessage → Text
resolve_message t domain (some (string name)) = name
resolve_message t domain (some (registered_handle handle)) =
    or_else (lookup (domain, handle) t.registered_strings) (unregistered_string_name handle)
resolve_message t domain none = unnamed_message

unfoldable pub resolve_domain : ResolutionTables → ℕ → Text
resolve_domain t domain =
    or_else (lookup domain t.domain_names)
      (if eqb domain 0 then default_domain_name else unresolved_domain_name domain)

unfoldable pub category_name : ResolutionTables → ℕ → ℕ → Text
category_name t domain category =
    or_else (lookup (domain, category) t.category_names) (unnamed_category_name domain category)

abbrev named_category : ResolutionTables → ℕ → Option ℕ → Option Text
named_category t domain none = none
named_category t domain (some category) = some (category_name t domain category)

unfoldable pub resolve_category : ResolutionTables → ℕ → ℕ → Option Text
unfolding category_id category_name
resolve_category t domain category = named_category t domain (category_id category)

unfoldable pub resolve_thread : ResolutionTables → ℕ → Text
resolve_thread t thread_id =
    or_else (lookup thread_id t.thread_names) (unnamed_thread_name thread_id)

abbrev domain_record : ResolutionTables → ℕ × DomainLifespan → NvtxDomain
domain_record t (domain, l) = record {
  domain = domain;
  name = resolve_domain t domain;
  created = l.created;
  first_seen = l.first_seen;
  destroyed = l.destroyed;
}

abbrev later_domain : NvtxDomain → NvtxDomain → Bool
later_domain a b = ltb b.domain a.domain

unfoldable pub domain_records : ResolutionTables → List NvtxDomain
domain_records t = sort_by later_domain (map (domain_record t) t.domain_lifespans)

unfoldable pub thread_records : ResolutionTables → List NvtxThread
thread_records t = map (λ id. record { thread_id = id; name = resolve_thread t id }) t.threads_seen

unfoldable pub category_records : ResolutionTables → List NvtxCategory
category_records t =
    map (λ c. record { domain = c.0; category = c.1; name = category_name t c.0 c.1 })
      t.categories_seen
