-- ===== src/Nvtx/Tables/Seen.antt =====
-- What the tables list: the categories and the threads that the stream refers to.
use quent.Base.{
  ℕ, ◌≡◌, refl, ap, ◌∙◌, inl, inr, Bool, true, false, not, ◌&&◌, ◌||◌, Option, none, some, List, [],
  ◌∷◌, arith, ltb, eqb, eqb_iff, Bool-cases, nat_eq, pair_eq, option_eq, list_eq,
}
use quent.Base.Set.{member, member-set_insert}
use quent.Events.{Event}
use quent.Nvtx.Event.{
  NvtxEvent, range_push, range_pop, range_start, mark, name_category, name_thread,
}
use quent.Base.Text.{Text}
use quent.Nvtx.Span.{category_id}
use quent.Nvtx.Tables.{
  ResolutionTables, no_tables, observe, observe_all, build, see_category, see_domain, see_thread,
  pair_before, name_category_as,
}

-- The thread and the category that an event refers to. An event names the category 0 when it
-- has none.
abbrev refers_to_thread : ℕ → NvtxEvent → Bool
refers_to_thread id (range_push d i a) = eqb i id
refers_to_thread id (range_pop d i) = eqb i id
refers_to_thread id (name_thread i n) = eqb i id
refers_to_thread id _ = false

abbrev refers_to_category : ℕ × ℕ → NvtxEvent → Bool
refers_to_category (d, c) (range_push e i a) = not (eqb c 0) && (eqb e d && eqb a.category c)
refers_to_category (d, c) (range_start e i a) = not (eqb c 0) && (eqb e d && eqb a.category c)
refers_to_category (d, c) (mark e a) = not (eqb c 0) && (eqb e d && eqb a.category c)
refers_to_category (d, c) (name_category e k n) = not (eqb c 0) && (eqb e d && eqb k c)
refers_to_category key _ = false

abbrev any_refers : (NvtxEvent → Bool) → List (Event NvtxEvent) → Bool
any_refers refers [] = false
any_refers refers (event ∷ events) = refers event.payload || any_refers refers events

abbrev with_thread : ResolutionTables → ℕ → ℕ → ℕ → ResolutionTables
with_thread t d ts i = see_thread (see_domain t d ts) i

see_category-threads_seen :
    (t : ResolutionTables) (d : ℕ) (o : Option ℕ)
    → (see_category t d o).threads_seen ≡ t.threads_seen
see_category-threads_seen t d none = refl
see_category-threads_seen t d (some c) = refl

name_category_as-threads_seen :
    (t : ResolutionTables) (d : ℕ) (o : Option ℕ) (n : Text)
    → (name_category_as t d o n).threads_seen ≡ t.threads_seen
name_category_as-threads_seen t d none n = refl
name_category_as-threads_seen t d (some c) n = refl

uses-zero : (d c e k : ℕ) → eqb k 0 ≡ true → (not (eqb c 0) && (eqb e d && eqb k c)) ≡ false
uses-zero d c e k t = ground (arith, (eqb_iff k 0).0 t)

uses-nonzero :
    (d c e k : ℕ) → eqb k 0 ≡ false → (eqb e d && eqb k c) ≡ (not (eqb c 0) && (eqb e d && eqb k c))
uses-nonzero d c e k f = ground (arith, f)

see_category-member :
    (t : ResolutionTables) (d c e k : ℕ)
    → member (d, c) (see_category t e (category_id k)).categories_seen
      ≡ ((not (eqb c 0) && (eqb e d && eqb k c)) || member (d, c) t.categories_seen)
unfolding category_id
see_category-member t d c e k = elim (Bool-cases (eqb k 0)) [
  | inl z ↦ rw (uses-zero d c e k z, z) refl
  | inr f ↦
      rw (← uses-nonzero d c e k f, f)
        (member-set_insert pair_before (d, c) (e, k) t.categories_seen)
]

name_category_as-categories_seen :
    (t : ResolutionTables) (d : ℕ) (o : Option ℕ) (n : Text)
    → (name_category_as t d o n).categories_seen ≡ (see_category t d o).categories_seen
name_category_as-categories_seen t d none n = refl
name_category_as-categories_seen t d (some c) n = refl

module _ (t : ResolutionTables) (ts : ℕ) where
  observe-thread_member :
      (id : ℕ) (e : NvtxEvent)
      → member id (observe t ts e).threads_seen
        ≡ (refers_to_thread id e || member id t.threads_seen)
  unfolding observe
  observe-thread_member id (range_push d i a) =
      ap (member id) (see_category-threads_seen (with_thread t d ts i) d (category_id a.category))
      ∙ member-set_insert ltb id i t.threads_seen
  observe-thread_member id (range_pop d i) = member-set_insert ltb id i t.threads_seen
  observe-thread_member id (name_thread i n) = member-set_insert ltb id i t.threads_seen
  observe-thread_member id (range_start d i a) =
      ap (member id) (see_category-threads_seen (see_domain t d ts) d (category_id a.category))
  observe-thread_member id (mark d a) =
      ap (member id) (see_category-threads_seen (see_domain t d ts) d (category_id a.category))
  observe-thread_member id (name_category d c n) =
      ap (member id) (name_category_as-threads_seen (see_domain t d ts) d (category_id c) n)
  observe-thread_member id _ = refl

  observe-category_member :
      (d c : ℕ) (e : NvtxEvent)
      → member (d, c) (observe t ts e).categories_seen
        ≡ (refers_to_category (d, c) e || member (d, c) t.categories_seen)
  unfolding observe
  observe-category_member d c (range_push e i a) =
      see_category-member (with_thread t e ts i) d c e a.category
  observe-category_member d c (range_start e i a) =
      see_category-member (see_domain t e ts) d c e a.category
  observe-category_member d c (mark e a) = see_category-member (see_domain t e ts) d c e a.category
  observe-category_member d c (name_category e k n) =
      ap (member (d, c)) (name_category_as-categories_seen (see_domain t e ts) e (category_id k) n)
      ∙ see_category-member (see_domain t e ts) d c e k
  observe-category_member d c _ = refl

module _ (refers : NvtxEvent → Bool) (listed : ResolutionTables → Bool)
    (step : (t : ResolutionTables) (ts : ℕ) (e : NvtxEvent)
      → listed (observe t ts e) ≡ (refers e || listed t)) where
  observe_all-any_refers :
      (t : ResolutionTables) (events : List (Event NvtxEvent))
      → listed (observe_all t events) ≡ (any_refers refers events || listed t)
  unfolding observe_all
  observe_all-any_refers t [] = refl
  observe_all-any_refers t (event ∷ events) = ground (
    arith,
    observe_all-any_refers (observe t event.timestamp event.payload) events,
    step t event.timestamp event.payload,
  )

or_false : (b : Bool) → (b || false) ≡ b
or_false true = refl
or_false false = refl

module _ (events : List (Event NvtxEvent)) where
  -- The tables list a thread just where an event pushes or pops a range on it, or names it.
  pub threads_seen-eq-any_refers :
      (id : ℕ) → member id (build events).threads_seen ≡ any_refers (refers_to_thread id) events
  unfolding build member
  threads_seen-eq-any_refers id =
      observe_all-any_refers (refers_to_thread id) (λ t. member id t.threads_seen)
        (λ t ts e. observe-thread_member t ts id e) no_tables events
      ∙ or_false (any_refers (refers_to_thread id) events)

  -- The tables list a category of a domain just where an event of this domain has or names it and it is
  -- not 0.
  categories_seen-eq-any_refers :
      (d c : ℕ)
      → member (d, c) (build events).categories_seen ≡ any_refers (refers_to_category (d, c)) events
  unfolding build member
  categories_seen-eq-any_refers d c =
      observe_all-any_refers (refers_to_category (d, c)) (λ t. member (d, c) t.categories_seen)
        (λ t ts e. observe-category_member t ts d c e) no_tables events
      ∙ or_false (any_refers (refers_to_category (d, c)) events)
