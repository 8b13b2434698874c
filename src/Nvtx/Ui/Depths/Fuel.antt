-- ===== src/Nvtx/Ui/Depths/Fuel.antt =====
-- Any chain of parents comes to an end.
use quent.Base.{
  ℕ, zero, suc, ◌+◌, ◌≤◌, ◌<◌, ◌≡◌, refl, ap, ◌∙◌, inl, inr, Option, none, some, List, [], ◌∷◌, map,
  arith, Option-cases, length, get_elem?, set, length-set, lt-length_of_get_elem?, or_else,
}
use quent.Nvtx.Span.{NvtxSpan, parent}
use quent.Nvtx.Ui.Depths.{
  deeper, Walk, flat, drain, drain_cycle, drop, visit, follow, assign, all_chains, unknowns,
  between, span_depths_for,
}

-- How many spans are not on the chain.
abbrev off_chain : List (Option ℕ) → ℕ
off_chain [] = 0
off_chain (none ∷ ps) = suc (off_chain ps)
off_chain (some p ∷ ps) = off_chain ps

off_chain_le : (ps : List (Option ℕ)) → off_chain ps ≤ length ps
off_chain_le [] = omega arith
off_chain_le (none ∷ ps) = let r = off_chain_le ps in omega arith
off_chain_le (some p ∷ ps) = let r = off_chain_le ps in omega arith

off_chain-set :
    (ps : List (Option ℕ)) (i n : ℕ)
    → i < length ps
    → flat (get_elem? ps i) ≡ none
    → suc (off_chain (set ps i (some n))) ≡ off_chain ps
off_chain-set [] i n lt h = absurd (omega arith)
off_chain-set (none ∷ ps) zero n lt h = refl
off_chain-set (some p ∷ ps) zero n lt h = cc
off_chain-set (none ∷ ps) (suc i) n lt h = ap suc (off_chain-set ps i n (omega arith) h)
off_chain-set (some p ∷ ps) (suc i) n lt h = off_chain-set ps i n (omega arith) h

length-drain :
    (is : List ℕ) (w : Walk) → length (drain is w).chain_positions ≡ length w.chain_positions
length-drain [] w = refl
length-drain (i ∷ is) w =
    length-drain is (record w {
      depths = set w.depths i (some 0);
      chain_positions = set w.chain_positions i none;
    })
    ∙ length-set w.chain_positions i none

length-assign :
    (is : List ℕ) (w : Walk) → length (assign is w).chain_positions ≡ length w.chain_positions
unfolding assign
length-assign [] w = refl
length-assign (i ∷ is) w = length-set (assign is w).chain_positions i none ∙ length-assign is w

-- With more fuel than spans off the chain, the chain ends.
follow_ends :
    (fuel : ℕ) (spans : List NvtxSpan) (w : Walk) (cursor : Option ℕ)
    → length w.chain_positions ≡ length spans
    → off_chain w.chain_positions < fuel
    → (v : Walk) × (follow fuel spans w cursor ≡ some v) × (length v.chain_positions ≡ length spans)
unfolding follow drain_cycle
follow_ends zero spans w cursor size h = absurd (omega arith)
follow_ends (suc fuel) spans w none size h = (w, refl, size)
follow_ends (suc fuel) spans w (some i) size h = elim (Option-cases (get_elem? spans i)) [
  | inl e ↦ (w, rw e refl, size)
  | inr (s, e) ↦ elim (Option-cases (flat (get_elem? w.depths i))) [
    | inr (d, known) ↦ (record w { next_depth = deeper d }, rw (e, known) refl, size)
    | inl unknown ↦ elim (Option-cases (flat (get_elem? w.chain_positions i))) [
      | inr (c, on) ↦
          (drain_cycle c w, rw (e, unknown, on) refl, length-drain (drop c w.chain) w ∙ size)
      | inl off ↦
          let lt = lt-length_of_get_elem? spans i s e in
          let less = off_chain-set w.chain_positions i (length w.chain) (omega arith) off in
          let (v, ends, same) =
            follow_ends fuel spans (visit i w) (parent s.kind)
              (length-set w.chain_positions i (some (length w.chain)) ∙ size) (omega arith) in
          (v, rw (e, unknown, off) ends, same)
    ]
  ]
]

all_chains_end :
    (fuel : ℕ) (spans : List NvtxSpan) (start count : ℕ) (w : Walk)
    → length w.chain_positions ≡ length spans
    → length spans < fuel
    → (v : Walk) × (all_chains fuel spans start count w ≡ some v)
unfolding all_chains
all_chains_end fuel spans start zero w size h = (w, refl)
all_chains_end fuel spans start (suc count) w size h =
    elim (Option-cases (flat (get_elem? w.depths start))) [
      | inr (d, known) ↦
          let (v, e) = all_chains_end fuel spans (start + 1) count w size h in (v, rw known e)
      | inl unknown ↦
          let bound = off_chain_le w.chain_positions in
          let (u, ends, same) = follow_ends fuel spans w (some start) size (omega arith) in
          let next = record (assign u.chain u) { chain = []; next_depth = 0 } in
          let (v, e) =
            all_chains_end fuel spans (start + 1) count next (length-assign u.chain u ∙ same) h in
          (v, rw (unknown, ends) e)
    ]

pub length-unknowns : (n : ℕ) → length (unknowns n) ≡ n
length-unknowns zero = refl
length-unknowns (suc n) = ap suc (length-unknowns n)

-- The depths are found for any spans, parents that are missing or on a cycle included.
pub span_depths_for-total :
    (spans : List NvtxSpan) → (depths : List ℕ) × (span_depths_for spans ≡ some depths)
unfolding span_depths_for
span_depths_for-total spans =
    let n = length spans in
    let (v, e) =
      all_chains_end (n + 2) spans 0 n (between (unknowns n) (unknowns n)) (length-unknowns n)
        (omega arith) in
    (map (λ o. or_else o 0) v.depths, rw e refl)
