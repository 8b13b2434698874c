-- ===== src/Time/Result.antt =====
-- crates/time/src/lib.rs: the error type. A message is kept as the values that it is formatted from.
use quent.Base.{ℕ}

pub data Message : Type 0 where
  end_precedes_start : ℕ → ℕ → Message
  zero_duration_span : ℕ → ℕ → Message
  epoch_later_than : ℕ → ℕ → Message

pub data TimeError : Type 0 where
  invalid_argument : Message → TimeError

pub data Result {ℓ} (A : Type ℓ) : Type ℓ where
  ok : A → Result A
  err : TimeError → Result A
