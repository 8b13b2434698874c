-- ===== src/Nvtx/Anomalies.antt =====
-- integrations/nvtx/analyzer/src/anomalies.rs. The counters count events of one stream; they are
-- plain numbers here, since no stream in memory has 2 ^ 64 events.
use quent.Base.{
  ℕ, ◌≡◌, ◌↔◌, Bool, true, arith, eqb, nat_eq, pair_eq, option_eq, list_eq, saturating_add,
}

pub record ReconstructionAnomalies : Type 0 where
  pub orphan_range_ends : ℕ
  pub orphan_range_pops : ℕ
  pub orphan_resource_destroys : ℕ
  pub reused_range_ids : ℕ
  pub reused_resource_handles : ℕ

abbrev pub no_anomalies : ReconstructionAnomalies
no_anomalies = record {
  orphan_range_ends = 0;
  orphan_range_pops = 0;
  orphan_resource_destroys = 0;
  reused_range_ids = 0;
  reused_resource_handles = 0;
}

unfoldable pub total : ReconstructionAnomalies → ℕ
total a =
    saturating_add
      (saturating_add
        (saturating_add (saturating_add a.orphan_range_ends a.orphan_range_pops)
          a.orphan_resource_destroys)
        a.reused_range_ids)
      a.reused_resource_handles

unfoldable pub is_faithful : ReconstructionAnomalies → Bool
unfolding total
is_faithful a = eqb (total a) 0

-- A reconstruction is faithful exactly when it counted nothing: the saturating sum hides no count.
pub is_faithful_iff : (a : ReconstructionAnomalies) → (is_faithful a ≡ true) ↔ (a ≡ no_anomalies)
unfolding is_faithful
is_faithful_iff a = (λ h. ground arith, λ h. ground arith)
