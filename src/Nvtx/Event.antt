-- ===== src/Nvtx/Event.antt =====
-- integrations/nvtx/events: the vocabulary of captured events. Numbers are `u32` or `u64` unless a
-- comment says otherwise; a `f64` or `f32` is carried as its bits, since nothing computes with it.
use quent.Base.{ℕ, Option}
use quent.Base.Text.{Text}

-- `negsuc n` is -(n + 1).
pub data ℤ : Type 0 where
  pos : ℕ → ℤ
  negsuc : ℕ → ℤ

pub data NvtxMessage : Type 0 where
  string : Text → NvtxMessage
  registered_handle : ℕ → NvtxMessage

pub record NvtxColor : Type 0 where
  pub color_type : ℤ
  pub value : ℕ

pub data NvtxPayloadValue : Type 0 where
  unsigned_int64 : ℕ → NvtxPayloadValue
  int64 : ℤ → NvtxPayloadValue
  double : ℕ → NvtxPayloadValue
  unsigned_int32 : ℕ → NvtxPayloadValue
  int32 : ℤ → NvtxPayloadValue
  float : ℕ → NvtxPayloadValue
  pointer : ℕ → NvtxPayloadValue

pub record NvtxPayload : Type 0 where
  pub payload_type : ℤ
  pub value : NvtxPayloadValue

pub record NvtxEventAttributes : Type 0 where
  pub category : ℕ
  pub color : Option NvtxColor
  pub message : Option NvtxMessage
  pub payload : Option NvtxPayload

-- The fields in the order of the source.
pub data NvtxEvent : Type 0 where
  range_push : ℕ → ℕ → NvtxEventAttributes → NvtxEvent
  range_pop : ℕ → ℕ → NvtxEvent
  range_start : ℕ → ℕ → NvtxEventAttributes → NvtxEvent
  range_end : ℕ → ℕ → NvtxEvent
  mark : ℕ → NvtxEventAttributes → NvtxEvent
  domain_create : ℕ → Text → NvtxEvent
  domain_destroy : ℕ → NvtxEvent
  register_string : ℕ → ℕ → Text → NvtxEvent
  name_category : ℕ → ℕ → Text → NvtxEvent
  name_thread : ℕ → Text → NvtxEvent
  resource_create : ℕ → ℕ → ℤ → ℕ → Option NvtxMessage → NvtxEvent
  resource_destroy : ℕ → NvtxEvent
