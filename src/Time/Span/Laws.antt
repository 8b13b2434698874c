-- ===== src/Time/Span/Laws.antt =====
-- What the operations of a span say about the timestamps that lie in it.
use quent.Base.{
  ℕ, ◌<◌, ◌≡◌, Bool, true, false, ◌&&◌, Option, none, some, arith, nat_eq, pair_eq, option_eq,
  list_eq,
}
use quent.Time.Span.{SpanNanoSec, intersects, intersection, contains_timestamp}

abbrev pub lies_in : Option SpanNanoSec → ℕ → Bool
lies_in none t = false
lies_in (some s) t = contains_timestamp s t

-- A timestamp lies in the intersection of two spans exactly when it lies in both. Where there is no
-- intersection, no timestamp lies in both.
pub lies_in-intersection :
    (s o : SpanNanoSec) (t : ℕ)
    → lies_in (intersection s o) t ≡ (contains_timestamp s t && contains_timestamp o t)
unfolding intersection contains_timestamp
lies_in-intersection s o t = ground arith

abbrev pub is_some {ℓ} : {A : Type ℓ} → Option A → Bool
is_some none = false
is_some (some a) = true

-- On spans of some duration, `intersects` says whether there is an intersection.
pub intersects-intersection :
    (s o : SpanNanoSec)
    → s.start < s.end
    → o.start < o.end
    → intersects s o ≡ is_some (intersection s o)
unfolding intersects intersection
intersects-intersection s o p q = ground arith

-- A span of no duration strictly inside another one is said to intersect it, and there is no
-- intersection.
pub empty_span_intersects :
    (s o : SpanNanoSec)
    → s.start ≡ s.end
    → o.start < s.start
    → s.start < o.end
    → (intersects s o ≡ true) × (intersection s o ≡ none)
unfolding intersects intersection
empty_span_intersects s o p q r = (ground arith, ground arith)
