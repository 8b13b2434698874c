-- ===== src/Events.antt =====
-- crates/events/src/lib.rs: the envelope of an event.
use quent.Base.{ℕ}

-- `id` is the 128-bit number of a UUID.
pub record Event {ℓ} (T : Type ℓ) : Type ℓ where
  pub id : ℕ
  pub timestamp : ℕ
  pub payload : T

-- `Event::new`.
unfoldable pub new {ℓ} : {T : Type ℓ} → ℕ → ℕ → T → Event T
new id timestamp payload = record { id = id; timestamp = timestamp; payload = payload }
