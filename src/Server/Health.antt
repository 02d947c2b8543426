-- ===== src/Server/Health.antt =====
-- sigimora-server/src/routes/health.rs. The uptime and the fixed texts of the answer are left out.
use sigimora_api_backend.Base.{ℕ}
use sigimora_api_backend.Base.Stateful.{◌>>=◌, pure}
use sigimora_api_backend.Server.Store.{
  Query, count_networks, count_all_nodes, count_all_ledger_entries, count_api_keys,
}

pub record HealthResponse : Type 0 where
  pub networks : ℕ
  pub nodes : ℕ
  pub ledger_entries : ℕ
  pub api_keys : ℕ

unfoldable pub health_check : Query HealthResponse
health_check = do
  networks ← count_networks
  nodes ← count_all_nodes
  ledger ← count_all_ledger_entries
  api_keys ← count_api_keys
  pure (record { networks = networks; nodes = nodes; ledger_entries = ledger; api_keys = api_keys })
