-- ===== src/Nvtx/Ui/Depths.antt =====
-- integrations/nvtx/ui/src/lib.rs: how deep each span of a model is nested, by the chain of its
-- parents. A chain visits a span once, so two steps more than there are spans are fuel enough.
pub mod Parents
pub mod Fuel
use quent.Base.{
  ℕ, zero, suc, ◌+◌, ◌-◌, ◌*◌, ◌/◌, ◌%◌, ◌≤◌, ◌<◌, min, max, ◌≡◌, refl, sym, ap, ◌∙◌, ◌≢◌, ◌↔◌, ◌⊎◌,
  inl, inr, Bool, true, false, not, ◌&&◌, ◌||◌, Option, none, some, List, [], ◌∷◌, ◌++◌, map, arith,
  ltb, leb, eqb, eqb_iff, if◌then◌else◌, Bool-cases, Option-cases, Eq, ◌==◌, nat_eq, pair_eq,
  option_eq, list_eq, length, get_elem?, set, keep, count, last?, length-append, length-set,
  keep-append, count-append, All, All-append, All-append_left, All-append_right, All-set, All-map,
  get_elem?-set_self, get_elem?-set_ne, lt-length_of_get_elem?, length-map, Any, Any-append_left,
  Any-append_right, or_else, u64_max, saturating_add, saturating_mul, saturating_sub, checked_sub,
  checked_add, div_ceil, Outcome, returns, panics, ◌>>=◌, add_or_panic, sub_or_panic, mul_or_panic,
}
use quent.Nvtx.Span.{SpanKind, NvtxSpan, parent}

-- `u32::saturating_add(1)`
abbrev pub deeper : ℕ → ℕ
deeper depth = min (depth + 1) 4294967295

-- The depths found so far, and where in the chain a span stands.
pub record Walk : Type 0 where
  pub depths : List (Option ℕ)
  pub chain_positions : List (Option ℕ)
  pub chain : List ℕ
  pub next_depth : ℕ

abbrev pub flat {ℓ} : {A : Type ℓ} → Option (Option A) → Option A
flat none = none
flat (some o) = o

-- The spans of a cycle are of depth 0.
abbrev pub drain : List ℕ → Walk → Walk
drain [] w = w
drain (i ∷ is) w =
    drain is (record w {
      depths = set w.depths i (some 0);
      chain_positions = set w.chain_positions i none;
    })

abbrev pub take : ℕ → List ℕ → List ℕ
take zero is = []
take (suc n) [] = []
take (suc n) (i ∷ is) = i ∷ take n is

abbrev pub drop : ℕ → List ℕ → List ℕ
drop zero is = is
drop (suc n) [] = []
drop (suc n) (i ∷ is) = drop n is

unfoldable pub drain_cycle : ℕ → Walk → Walk
drain_cycle cycle_start w = record (drain (drop cycle_start w.chain) w) {
  chain = take cycle_start w.chain;
  next_depth = 1;
}

abbrev pub visit : ℕ → Walk → Walk
visit i w = record w {
  chain_positions = set w.chain_positions i (some (length w.chain));
  chain = w.chain ++ i ∷ [];
}

-- One span of a chain, with the chain from its parent on: past the last span, at one whose depth is
-- known, at one of the chain, or at a new one.
abbrev pub follow_at :
    ℕ → Walk → Option NvtxSpan → Option ℕ → Option ℕ → (Walk → Option ℕ → Option Walk) → Option Walk
follow_at i w none depth position rest = some w
follow_at i w (some s) (some depth) position rest = some (record w { next_depth = deeper depth })
follow_at i w (some s) none (some cycle_start) rest = some (drain_cycle cycle_start w)
follow_at i w (some s) none none rest = rest (visit i w) (parent s.kind)

unfoldable pub follow : ℕ → List NvtxSpan → Walk → Option ℕ → Option Walk
unfolding drain_cycle parent
follow zero spans w cursor = none
follow (suc fuel) spans w none = some w
follow (suc fuel) spans w (some i) =
    follow_at i w (get_elem? spans i) (flat (get_elem? w.depths i))
      (flat (get_elem? w.chain_positions i)) (follow fuel spans)

-- The spans of a chain from its last on, each one deeper.
unfoldable pub assign : List ℕ → Walk → Walk
assign [] w = w
assign (i ∷ is) w =
    let v = assign is w in
    record v {
      depths = set v.depths i (some v.next_depth);
      chain_positions = set v.chain_positions i none;
      next_depth = deeper v.next_depth;
    }

abbrev pub finish_chain : Option Walk → Option Walk
finish_chain none = none
finish_chain (some w) = some (record (assign w.chain w) { chain = []; next_depth = 0 })

abbrev pub from_start : Option ℕ → Walk → Option Walk → Option Walk
from_start (some depth) w walked = some w
from_start none w walked = finish_chain walked

abbrev pub next_chain : Option Walk → (Walk → Option Walk) → Option Walk
next_chain none rest = none
next_chain (some w) rest = rest w

-- The loop over the spans, `count` of them from `start` on.
unfoldable pub all_chains : ℕ → List NvtxSpan → ℕ → ℕ → Walk → Option Walk
unfolding follow assign
all_chains fuel spans start zero w = some w
all_chains fuel spans start (suc count) w =
    next_chain (from_start (flat (get_elem? w.depths start)) w (follow fuel spans w (some start)))
      (λ v. all_chains fuel spans (start + 1) count v)

abbrev pub unknowns : ℕ → List (Option ℕ)
unknowns zero = []
unknowns (suc n) = none ∷ unknowns n

-- Between the chains no span is on one.
abbrev pub between : List (Option ℕ) → List (Option ℕ) → Walk
between depths chain_positions = record {
  depths = depths;
  chain_positions = chain_positions;
  chain = [];
  next_depth = 0;
}

abbrev pub known_depths : Option Walk → Option (List ℕ)
known_depths none = none
known_depths (some w) = some (map (λ o. or_else o 0) w.depths)

unfoldable pub span_depths_for : List NvtxSpan → Option (List ℕ)
unfolding all_chains
span_depths_for spans =
    let count = length spans in
    known_depths (all_chains (count + 2) spans 0 count (between (unknowns count) (unknowns count)))
