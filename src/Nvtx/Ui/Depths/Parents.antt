-- ===== src/Nvtx/Ui/Depths/Parents.antt =====
-- A span is one deeper than its parent.
use quent.Base.{
  ℕ, zero, suc, ◌+◌, ◌≤◌, ◌<◌, ◌≡◌, refl, sym, ap, ◌∙◌, ◌≢◌, inl, inr, Option, none, some, List, [],
  ◌∷◌, map, arith, eqb, eqb_iff, Bool-cases, nat_eq, pair_eq, option_eq, list_eq, length, get_elem?,
  set, count, length-set, get_elem?-set_self, get_elem?-set_ne, lt-length_of_get_elem?, length-map,
  or_else,
}
use mathlib.Core.Path.{subst}
use quent.Nvtx.Span.{NvtxSpan, parent}
use quent.Nvtx.Ui.Depths.Fuel.{length-unknowns}
use quent.Nvtx.Ui.Depths.{
  deeper, flat, visit, follow, assign, from_start, all_chains, unknowns, between, span_depths_for,
}

abbrev depth_below : Option ℕ → ℕ
depth_below none = 0
depth_below (some d) = deeper d

-- The depth by that of the parent.
abbrev from_parent : List (Option ℕ) → Option ℕ → ℕ
from_parent ds none = 0
from_parent ds (some p) = depth_below (flat (get_elem? ds p))

-- Each parent stands before its child.
abbrev pub ParentsBefore : List NvtxSpan → Type 0
ParentsBefore spans =
    (i p : ℕ) (s : NvtxSpan) → get_elem? spans i ≡ some s → parent s.kind ≡ some p → p < i

record Filled (spans : List NvtxSpan) (k : ℕ) (ds ps : List (Option ℕ)) : Type 0 where
  size : length ds ≡ length spans
  off_chain : (i : ℕ) → flat (get_elem? ps i) ≡ none
  done :
      (i : ℕ) (s : NvtxSpan)
      → i < k
      → get_elem? spans i ≡ some s
      → get_elem? ds i ≡ some (some (from_parent ds (parent s.kind)))
  rest : (i : ℕ) → k ≤ i → flat (get_elem? ds i) ≡ none

set-set : (xs : List (Option ℕ)) (k : ℕ) (a b : Option ℕ) → set (set xs k a) k b ≡ set xs k b
set-set [] k a b = refl
set-set (x ∷ xs) zero a b = refl
set-set (x ∷ xs) (suc k) a b = ap (λ r. x ∷ r) (set-set xs k a b)

flat-set :
    (xs : List (Option ℕ)) (k i : ℕ)
    → flat (get_elem? xs i) ≡ none
    → flat (get_elem? (set xs k none) i) ≡ none
flat-set [] k i h = refl
flat-set (x ∷ xs) zero zero h = refl
flat-set (x ∷ xs) zero (suc i) h = h
flat-set (x ∷ xs) (suc k) zero h = h
flat-set (x ∷ xs) (suc k) (suc i) h = flat-set xs k i h

flat-unknowns : (n i : ℕ) → flat (get_elem? (unknowns n) i) ≡ none
flat-unknowns zero i = refl
flat-unknowns (suc n) zero = refl
flat-unknowns (suc n) (suc i) = flat-unknowns n i

span_at :
    (spans : List NvtxSpan) (i : ℕ)
    → i < length spans
    → (s : NvtxSpan) × (get_elem? spans i ≡ some s)
span_at [] i h = absurd (omega arith)
span_at (s ∷ spans) zero h = (s, refl)
span_at (s ∷ spans) (suc i) h = span_at spans i (omega arith)

-- A chain from a span whose parents are done is the span alone.
follow_parent :
    (fuel : ℕ) (spans : List NvtxSpan) (k : ℕ) (ds ps : List (Option ℕ)) (o : Option ℕ)
    → Filled spans k ds ps
    → k < length spans
    → ((p : ℕ) → o ≡ some p → p < k)
    → follow (suc fuel) spans (visit k (between ds ps)) o
      ≡ some (record (visit k (between ds ps)) { next_depth = from_parent ds o })
unfolding follow
follow_parent fuel spans k ds ps none filled room h = refl
follow_parent fuel spans k ds ps (some p) filled room h =
    let lt = h p refl in
    let (q, found) = span_at spans p (omega arith) in
    let known = filled.done p q lt found in rw (found, known) refl

one_chain :
    (fuel : ℕ) (spans : List NvtxSpan) (k : ℕ) (ds ps : List (Option ℕ)) (s : NvtxSpan)
    → Filled spans k ds ps
    → ParentsBefore spans
    → get_elem? spans k ≡ some s
    → from_start
        (flat (get_elem? ds k))
        (between ds ps)
        (follow (suc (suc fuel)) spans (between ds ps) (some k))
      ≡ some (between (set ds k (some (from_parent ds (parent s.kind)))) (set ps k none))
unfolding follow assign
one_chain fuel spans k ds ps s filled before found =
    let unknown = filled.rest k (omega arith) in
    let off = filled.off_chain k in
    let room = lt-length_of_get_elem? spans k s found in
    let walked =
      follow_parent fuel spans k ds ps (parent s.kind) filled room (λ p e. before k p s found e) in
    rw (unknown, found, off, walked, set-set ps k (some 0) none) refl

from_parent-set :
    (ds : List (Option ℕ)) (k : ℕ) (v : Option ℕ) (o : Option ℕ)
    → ((p : ℕ) → o ≡ some p → p < k)
    → from_parent (set ds k v) o ≡ from_parent ds o
from_parent-set ds k v none h = refl
from_parent-set ds k v (some p) h =
    let lt = h p refl in
    let apart : k ≢ p = λ e. absurd (omega arith) in
    ap (λ o. depth_below (flat o)) (get_elem?-set_ne ds k p v apart)

Filled-step :
    (spans : List NvtxSpan) (k : ℕ) (ds ps : List (Option ℕ)) (s : NvtxSpan)
    → Filled spans k ds ps
    → ParentsBefore spans
    → get_elem? spans k ≡ some s
    → Filled spans (k + 1) (set ds k (some (from_parent ds (parent s.kind)))) (set ps k none)
Filled-step spans k ds ps s filled before found =
    let v = some (from_parent ds (parent s.kind)) in
    let room = lt-length_of_get_elem? spans k s found in
    let size = filled.size in
    record {
      size = length-set ds k v ∙ filled.size;
      off_chain = λ i. flat-set ps k i (filled.off_chain i);
      done = λ i t lt at.
          let same =
            from_parent-set ds k v (parent t.kind)
              (λ p e. let below = before i p t at e in omega arith) in
          elim (Bool-cases (eqb i k)) [
            | inl q ↦
                let here : i ≡ k = ground arith in
                let both : some s ≡ some t = sym found ∙ sym (ap (get_elem? spans) here) ∙ at in
                let one : s ≡ t = cc in
                ap (get_elem? (set ds k v)) here
                ∙ get_elem?-set_self ds k v (omega arith)
                ∙ ap (λ d. some (some d)) (ap (λ u. from_parent ds (parent u.kind)) one ∙ sym same)
            | inr q ↦
                let apart : k ≢ i = λ e. absurd (let r = (eqb_iff i k).1 (sym e) in ground arith) in
                let lower : i < k = ground arith in
                get_elem?-set_ne ds k i v apart
                ∙ filled.done i t lower at
                ∙ ap (λ d. some (some d)) (sym same)
          ];
      rest = λ i le.
          let apart : k ≢ i = λ e. absurd (omega arith) in
          ap flat (get_elem?-set_ne ds k i v apart) ∙ filled.rest i (omega arith);
    }

all_chains-Filled :
    (fuel : ℕ) (spans : List NvtxSpan) (k count : ℕ) (ds ps : List (Option ℕ))
    → ParentsBefore spans
    → Filled spans k ds ps
    → k + count ≡ length spans
    → (es : List (Option ℕ)) × (qs : List (Option ℕ)) × (all_chains
          (suc (suc fuel))
          spans
          k
          count
          (between ds ps)
        ≡ some (between es qs))
      × Filled spans (length spans) es qs
unfolding all_chains
all_chains-Filled fuel spans k zero ds ps before filled total =
    let z : k + 0 ≡ k = omega arith in
    (ds, ps, refl, subst (λ n. Filled spans n ds ps) (sym z ∙ total) filled)
all_chains-Filled fuel spans k (suc count) ds ps before filled total =
    let (s, found) = span_at spans k (omega arith) in
    let step = Filled-step spans k ds ps s filled before found in
    let chain = one_chain fuel spans k ds ps s filled before found in
    let v = some (from_parent ds (parent s.kind)) in
    let (es, qs, e, done) =
      all_chains-Filled fuel spans (k + 1) count (set ds k v) (set ps k none) before step
        (omega arith) in
    (es, qs, rw chain e, done)

-- The depth of a span by those of the spans.
abbrev pub depth_by_parent : List ℕ → Option ℕ → ℕ
depth_by_parent depths none = 0
depth_by_parent depths (some p) = depth_below (get_elem? depths p)

abbrev known : List (Option ℕ) → List ℕ
known ds = map (λ o. or_else o 0) ds

known-at :
    (ds : List (Option ℕ)) (i d : ℕ)
    → get_elem? ds i ≡ some (some d)
    → get_elem? (known ds) i ≡ some d
known-at [] i d h = cc
known-at (x ∷ ds) zero d h = let e : x ≡ some d = cc in rw e refl
known-at (x ∷ ds) (suc i) d h = known-at ds i d h

-- A done parent's depth is read off the list.
from_parent-known :
    (spans : List NvtxSpan) (es qs : List (Option ℕ)) (o : Option ℕ)
    → Filled spans (length spans) es qs
    → ((p : ℕ) → o ≡ some p → p < length spans)
    → from_parent es o ≡ depth_by_parent (known es) o
from_parent-known spans es qs none filled h = refl
from_parent-known spans es qs (some p) filled h =
    let (q, found) = span_at spans p (h p refl) in
    let here = filled.done p q (h p refl) found in
    let there = known-at es p (from_parent es (parent q.kind)) here in
    ap (λ o. depth_below (flat o)) here ∙ sym (ap depth_below there)

-- Where each parent stands before its child, the depths are found, one for each span: a span
-- without parent has depth 0, and any other is one deeper than its parent, held at the largest
-- number of 32 bits.
pub span_depths_for-parents :
    (spans : List NvtxSpan)
    → ParentsBefore spans
    → (depths : List ℕ) × (span_depths_for spans ≡ some depths)
      × (length depths ≡ length spans)
      × ((i : ℕ) (s : NvtxSpan)
          → get_elem? spans i ≡ some s
          → get_elem? depths i ≡ some (depth_by_parent depths (parent s.kind)))
unfolding span_depths_for
span_depths_for-parents spans before =
    let count = length spans in
    let start : Filled spans 0 (unknowns count) (unknowns count) = record {
      size = length-unknowns count;
      off_chain = λ i. flat-unknowns count i;
      done = λ i s lt at. absurd (omega arith);
      rest = λ i le. flat-unknowns count i;
    } in
    let (es, qs, e, filled) =
      all_chains-Filled count spans 0 count (unknowns count) (unknowns count) before start
        (omega arith) in
    let two : count + 2 ≡ suc (suc count) = omega arith in
    (
      known es,
      rw (two, e) refl,
      length-map (λ o. or_else o 0) es ∙ filled.size,
      λ i s at.
          let lt = lt-length_of_get_elem? spans i s at in
          known-at es i (from_parent es (parent s.kind)) (filled.done i s lt at)
          ∙ ap some (
              from_parent-known spans es qs (parent s.kind) filled
                (λ p e. let below = before i p s at e in omega arith)),
    )
