-- ===== src/Ledger/Events.antt =====
-- internal/ledger/ledger.go: one recorded event.
use costwise_mcp.Prelude.{ℕ, List, Bytes}

pub record Event : Type 0 where
  pub ts : ℕ
  pub kind : Bytes
  pub action : Bytes
  pub summary : Bytes
  pub handle : Bytes
  pub tokens : ℕ
  pub query : Bytes
  pub source : Bytes
  pub files : ℕ
  pub trigger : Bytes
  pub changed_files : List Bytes
