-- ===== src/Storage/Maintenance/Tests.antt =====
-- Three expired points, deleted two at a time.
use metrics_pipeline_go.Prelude.{◌≡◌, refl, false, true, Option, some, [], ◌∷◌, pos, arith}
use metrics_pipeline_go.Storage.Maintenance.{MaintenanceError, Tables, retention_loop}
use metrics_pipeline_go.Storage.Maintenance.Retained.{IsRetention, retention_loop_lem}

abbrev tables : Tables
tables = record {
  point_days = pos 0 ∷ pos 9 ∷ [];
  event_days = pos 9 ∷ [];
  points = pos 777600001 ∷ pos 777600002 ∷ pos 777600003 ∷ pos 777600009 ∷ [];
  events = pos 777600004 ∷ [];
  outbox =
      record { created_at = pos 777600001; is_published = false }
      ∷ record { created_at = pos 777600001; is_published = true }
      ∷ [];
}

retention_loop_lem_example :
    (end : Tables) × (failure : Option MaintenanceError) × (retention_loop 8
        (λ n. false)
        0
        (pos 777600005)
        (pos 2)
        tables
      ≡ some (end, failure))
    × IsRetention (pos 777600005) tables end failure
retention_loop_lem_example =
    retention_loop_lem (λ n. false) (pos 777600005) 2 8 0 tables refl refl (omega arith)
