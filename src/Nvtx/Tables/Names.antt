-- ===== src/Nvtx/Tables/Names.antt =====
-- What the names of the tables resolve to: the last registration of the stream, wherever in the stream
-- it stands, under the key of its own domain.
use quent.Base.{
  or_else, ℕ, ◌≡◌, refl, ap, ◌∙◌, ◌≢◌, inl, inr, Bool, true, false, ◌&&◌, Option, none, some, List,
  [], ◌∷◌, arith, eqb, eqb_iff, if◌then◌else◌, Bool-cases, ◌==◌, nat_eq, pair_eq, option_eq,
  list_eq,
}
use quent.Base.Assoc.{lookup, lookup-insert}
use quent.Events.{Event}
use quent.Base.Text.{Text}
use quent.Nvtx.Event.{
  registered_handle, NvtxEvent, range_push, range_start, mark, domain_create, register_string,
  name_category, name_thread,
}
use quent.Nvtx.Span.{category_id}
use quent.Nvtx.Tables.{
  ResolutionTables, no_tables, observe, observe_all, build, resolve_message, resolve_category,
  resolve_thread, resolve_domain, category_name, unregistered_string_name, unnamed_category_name,
  unnamed_thread_name, see_category, see_domain, see_thread, name_category_as, default_domain_name,
  unresolved_domain_name,
}

-- The name that an event gives to a registered string, to a category, to a thread and to a domain.
abbrev pub string_name : ℕ × ℕ → NvtxEvent → Option Text
string_name key (register_string domain handle value) =
    if (domain, handle) == key then some value else none
string_name key _ = none

abbrev pub category_given : ℕ × ℕ → NvtxEvent → Option Text
category_given key (name_category domain category name) =
    if (domain, category) == key then some name else none
category_given key _ = none

abbrev pub thread_given : ℕ → NvtxEvent → Option Text
thread_given id (name_thread thread_id name) = if thread_id == id then some name else none
thread_given id _ = none

abbrev pub domain_given : ℕ → NvtxEvent → Option Text
domain_given id (domain_create domain name) = if domain == id then some name else none
domain_given id _ = none

abbrev pub newer {ℓ} : {A : Type ℓ} → Option A → Option A → Option A
newer none old = old
newer (some a) old = some a

-- The last name that the events give, or else the one from before.
abbrev pub last_given :
    (NvtxEvent → Option Text) → Option Text → List (Event NvtxEvent) → Option Text
last_given given old [] = old
last_given given old (event ∷ events) = last_given given (newer (given event.payload) old) events

newer-if {ℓ} :
    {A : Type ℓ} (b : Bool) (a : A) (old : Option A)
    → (if b then some a else old) ≡ newer (if b then some a else none) old
newer-if true a old = refl
newer-if false a old = refl

-- Seeing a category gives no name.
record SameNames (t s : ResolutionTables) : Type 0 where
  strings : s.registered_strings ≡ t.registered_strings
  categories : s.category_names ≡ t.category_names
  threads : s.thread_names ≡ t.thread_names
  domains : s.domain_names ≡ t.domain_names

see_category-SameNames :
    (t : ResolutionTables) (d : ℕ) (o : Option ℕ) → SameNames t (see_category t d o)
see_category-SameNames t d none = record {
  strings = refl;
  categories = refl;
  threads = refl;
  domains = refl;
}
see_category-SameNames t d (some c) = record {
  strings = refl;
  categories = refl;
  threads = refl;
  domains = refl;
}

abbrev with_thread : ResolutionTables → ℕ → ℕ → ℕ → ResolutionTables
with_thread t d ts i = see_thread (see_domain t d ts) i

name_category_as-SameNames :
    (t : ResolutionTables) (d : ℕ) (o : Option ℕ) (name : Text)
    → ((name_category_as t d o name).registered_strings ≡ t.registered_strings)
      × ((name_category_as t d o name).thread_names ≡ t.thread_names)
      × ((name_category_as t d o name).domain_names ≡ t.domain_names)
name_category_as-SameNames t d none name = (refl, refl, refl)
name_category_as-SameNames t d (some c) name = (refl, refl, refl)

module _ (t : ResolutionTables) (ts : ℕ) where
  observe-string :
      (key : ℕ × ℕ) (e : NvtxEvent)
      → lookup key (observe t ts e).registered_strings
        ≡ newer (string_name key e) (lookup key t.registered_strings)
  unfolding observe
  observe-string key (range_push d i a) =
      ap (lookup key)
        (see_category-SameNames (with_thread t d ts i) d (category_id a.category)).strings
  observe-string key (range_start d i a) =
      ap (lookup key)
        (see_category-SameNames (see_domain t d ts) d (category_id a.category)).strings
  observe-string key (mark d a) =
      ap (lookup key)
        (see_category-SameNames (see_domain t d ts) d (category_id a.category)).strings
  observe-string key (name_category d c n) =
      ap (lookup key) (name_category_as-SameNames (see_domain t d ts) d (category_id c) n).0
  observe-string key (register_string d h v) =
      lookup-insert key (d, h) v t.registered_strings
      ∙ newer-if ((d, h) == key) v (lookup key t.registered_strings)
  observe-string key _ = refl

  observe-thread :
      (key : ℕ) (e : NvtxEvent)
      → lookup key (observe t ts e).thread_names
        ≡ newer (thread_given key e) (lookup key t.thread_names)
  unfolding observe
  observe-thread key (range_push d i a) =
      ap (lookup key)
        (see_category-SameNames (with_thread t d ts i) d (category_id a.category)).threads
  observe-thread key (range_start d i a) =
      ap (lookup key)
        (see_category-SameNames (see_domain t d ts) d (category_id a.category)).threads
  observe-thread key (mark d a) =
      ap (lookup key)
        (see_category-SameNames (see_domain t d ts) d (category_id a.category)).threads
  observe-thread key (name_category d c n) =
      ap (lookup key) (name_category_as-SameNames (see_domain t d ts) d (category_id c) n).1
  observe-thread key (name_thread i n) =
      lookup-insert key i n t.thread_names ∙ newer-if (i == key) n (lookup key t.thread_names)
  observe-thread key _ = refl

  observe-domain :
      (key : ℕ) (e : NvtxEvent)
      → lookup key (observe t ts e).domain_names
        ≡ newer (domain_given key e) (lookup key t.domain_names)
  unfolding observe
  observe-domain key (range_push d i a) =
      ap (lookup key)
        (see_category-SameNames (with_thread t d ts i) d (category_id a.category)).domains
  observe-domain key (range_start d i a) =
      ap (lookup key)
        (see_category-SameNames (see_domain t d ts) d (category_id a.category)).domains
  observe-domain key (mark d a) =
      ap (lookup key)
        (see_category-SameNames (see_domain t d ts) d (category_id a.category)).domains
  observe-domain key (name_category d c n) =
      ap (lookup key) (name_category_as-SameNames (see_domain t d ts) d (category_id c) n).2
  observe-domain key (domain_create d n) =
      lookup-insert key d n t.domain_names ∙ newer-if (d == key) n (lookup key t.domain_names)
  observe-domain key _ = refl

  -- A category that is not 0 takes the name that is given to it; the sentinel takes none.
  observe-category :
      (d c : ℕ) (e : NvtxEvent)
      → c ≢ 0
      → lookup (d, c) (observe t ts e).category_names
        ≡ newer (category_given (d, c) e) (lookup (d, c) t.category_names)
  unfolding observe category_id
  observe-category d c (range_push e i a) nz =
      ap (lookup (d, c))
        (see_category-SameNames (with_thread t e ts i) e (category_id a.category)).categories
  observe-category d c (range_start e i a) nz =
      ap (lookup (d, c))
        (see_category-SameNames (see_domain t e ts) e (category_id a.category)).categories
  observe-category d c (mark e a) nz =
      ap (lookup (d, c))
        (see_category-SameNames (see_domain t e ts) e (category_id a.category)).categories
  observe-category d c (name_category e k n) nz = elim (Bool-cases (eqb k 0)) [
    | inl t ↦
        let other : (eqb e d && eqb k c) ≡ false = ground (arith, (eqb_iff k 0).0 t) in
        rw (t, other) refl
    | inr f ↦ rw f (
        lookup-insert (d, c) (e, k) n t.category_names
        ∙ newer-if (eqb e d && eqb k c) n (lookup (d, c) t.category_names))
  ]
  observe-category d c _ nz = refl

module _ (given : NvtxEvent → Option Text) (held : ResolutionTables → Option Text)
    (step : (t : ResolutionTables) (ts : ℕ) (e : NvtxEvent)
      → held (observe t ts e) ≡ newer (given e) (held t)) where
  observe_all-last_given :
      (t : ResolutionTables) (events : List (Event NvtxEvent))
      → held (observe_all t events) ≡ last_given given (held t) events
  unfolding observe_all
  observe_all-last_given t [] = refl
  observe_all-last_given t (event ∷ events) =
      observe_all-last_given (observe t event.timestamp event.payload) events
      ∙ ap (λ old. last_given given old events) (step t event.timestamp event.payload)

module _ (events : List (Event NvtxEvent)) where
  -- A registered handle resolves to the last string that the stream registers under it in the domain of
  -- the message, before or after the message; where there is none, to a placeholder. A string of another
  -- domain is never taken.
  pub resolve_message-registered :
      (domain handle : ℕ)
      → resolve_message (build events) domain (some (registered_handle handle))
        ≡ or_else
            (last_given (string_name (domain, handle)) none events)
            (unregistered_string_name handle)
  unfolding build resolve_message lookup
  resolve_message-registered domain handle =
      ap (λ o. or_else o (unregistered_string_name handle))
        (observe_all-last_given (string_name (domain, handle))
          (λ t. lookup (domain, handle) t.registered_strings)
          (λ t ts e. observe-string t ts (domain, handle) e) no_tables events)

  -- A thread resolves to the last name that the stream gives it, or to a label of its id.
  pub resolve_thread-last :
      (thread_id : ℕ)
      → resolve_thread (build events) thread_id
        ≡ or_else (last_given (thread_given thread_id) none events) (unnamed_thread_name thread_id)
  unfolding build resolve_thread lookup
  resolve_thread-last thread_id =
      ap (λ o. or_else o (unnamed_thread_name thread_id))
        (observe_all-last_given (thread_given thread_id) (λ t. lookup thread_id t.thread_names)
          (λ t ts e. observe-thread t ts thread_id e) no_tables events)

  -- A domain resolves to the last name of a creation, and where there is none the default domain has its
  -- label and any other a placeholder.
  pub resolve_domain-last :
      (domain : ℕ)
      → resolve_domain (build events) domain
        ≡ or_else
            (last_given (domain_given domain) none events)
            (if eqb domain 0 then default_domain_name else unresolved_domain_name domain)
  unfolding build resolve_domain lookup
  resolve_domain-last domain =
      ap
        (λ o.
          or_else o (if eqb domain 0 then default_domain_name else unresolved_domain_name domain))
        (observe_all-last_given (domain_given domain) (λ t. lookup domain t.domain_names)
          (λ t ts e. observe-domain t ts domain e) no_tables events)

  -- A category resolves to the last name that the stream gives it in its domain, or to a placeholder of
  -- both; category 0 resolves to nothing, even if the stream names it.
  resolve_category-last :
      (domain category : ℕ)
      → resolve_category (build events) domain category ≡ (
          if eqb category 0
          then none
          else some (
              or_else
                (last_given (category_given (domain, category)) none events)
                (unnamed_category_name domain category)))
  unfolding build resolve_category category_name category_id lookup
  resolve_category-last domain category = elim (Bool-cases (eqb category 0)) [
    | inl t ↦ rw t refl
    | inr f ↦ rw f (
        ap (λ o. some (or_else o (unnamed_category_name domain category)))
          (observe_all-last_given (category_given (domain, category))
            (λ t. lookup (domain, category) t.category_names)
            (λ t ts e. observe-category t ts domain category e (ground (arith, f))) no_tables
            events))
  ]
