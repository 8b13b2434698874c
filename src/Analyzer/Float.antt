-- ===== src/Analyzer/Float.antt =====
-- `f64`, which the timelines are computed in: its operations are an interface, and what the
-- assertions of the timelines rely on is a law.
use quent.Base.{
  ℕ, ◌+◌, ◌*◌, ◌/◌, ◌≤◌, ◌<◌, ◌≡◌, Bool, true, arith, leb, nat_eq, pair_eq, option_eq, list_eq,
}

pub record Float {ℓ} (F : Type ℓ) : Type ℓ where
  pub nought : F
  pub one : F
  pub from_u64 : ℕ → F
  pub plus : F → F → F
  pub times : F → F → F
  pub over : F → F → F
  pub at_most : F → F → Bool

-- The quotient of a number by one that is no less and not 0 is rounded to something from 0 to 1.
pub record HasFractions {ℓ} {F : Type ℓ} (f : Float F) : Type ℓ where
  pub from_nought :
      (a b : ℕ) → a ≤ b → 0 < b → f.at_most f.nought (f.over (f.from_u64 a) (f.from_u64 b)) ≡ true
  pub to_one :
      (a b : ℕ) → a ≤ b → 0 < b → f.at_most (f.over (f.from_u64 a) (f.from_u64 b)) f.one ≡ true

-- Thousandths, rounded down.
abbrev pub thousandths : Float ℕ
thousandths = record {
  nought = 0;
  one = 1000;
  from_u64 = λ n. n * 1000;
  plus = λ a b. a + b;
  times = λ a b. a * b / 1000;
  over = λ a b. a * 1000 / b;
  at_most = leb;
}

quotient-le : (t k hi : ℕ) → 0 < k → t ≤ hi * k → t / k ≤ hi
quotient-le t k hi pos below = grind arith

pub thousandths-HasFractions : HasFractions thousandths
thousandths-HasFractions = record {
  from_nought = λ a b le pos. ground arith;
  to_one = λ a b le pos. ground (arith, quotient-le (a * 1000 * 1000) (b * 1000) 1000);
}
