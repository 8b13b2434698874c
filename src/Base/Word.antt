-- ===== src/Base/Word.antt =====
-- Unsigned 64-bit arithmetic, as `u64` has it: the saturating and the checked operations. A panic of
-- the overflow checks, of `assert!` or of `unwrap` is a value of `Outcome`.
use Prim.Native.Nat.{ℕ, ◌+◌, ◌-◌, ◌*◌, ◌/◌, ◌^◌}
use mathlib.Core.Option.{Option, none, some}
use quent.Base.Tests.{leb, if◌then◌else◌}

abbrev pub u64_max : ℕ
u64_max = 2 ^ 64 - 1

abbrev pub saturating_add : ℕ → ℕ → ℕ
saturating_add a b = if leb (a + b) u64_max then a + b else u64_max

abbrev pub saturating_mul : ℕ → ℕ → ℕ
saturating_mul a b = if leb (a * b) u64_max then a * b else u64_max

abbrev pub saturating_sub : ℕ → ℕ → ℕ
saturating_sub a b = a - b

abbrev pub checked_sub : ℕ → ℕ → Option ℕ
checked_sub a b = if leb b a then some (a - b) else none

abbrev pub checked_add : ℕ → ℕ → Option ℕ
checked_add a b = if leb (a + b) u64_max then some (a + b) else none

-- `a.div_ceil(b)`: the quotient, rounded up.
unfoldable pub div_ceil : ℕ → ℕ → ℕ
div_ceil a b = (a + b - 1) / b

-- A value, or a panic.
pub data Outcome {ℓ} (A : Type ℓ) : Type ℓ where
  returns : A → Outcome A
  panics : Outcome A

infixl 5 ◌>>=◌
abbrev pub ◌>>=◌ {ℓ κ} : {A : Type ℓ} {B : Type κ} → Outcome A → (A → Outcome B) → Outcome B
returns a >>= f = f a
panics >>= f = panics

-- `+`, `-` and `*` under overflow checks.
abbrev pub add_or_panic : ℕ → ℕ → Outcome ℕ
add_or_panic a b = if leb (a + b) u64_max then returns (a + b) else panics

abbrev pub sub_or_panic : ℕ → ℕ → Outcome ℕ
sub_or_panic a b = if leb b a then returns (a - b) else panics

abbrev pub mul_or_panic : ℕ → ℕ → Outcome ℕ
mul_or_panic a b = if leb (a * b) u64_max then returns (a * b) else panics
