-- ===== src/Config.antt =====
-- backend/src/common/config/env.schema.ts: the settings that the services read.
use flow_pay.Prelude.{ℕ}
use flow_pay.Numbers.{Numbers}

pub record EnvConfig (n : Numbers) : Type 0 where
  pub deposit_max_amount : n.Numeral
  pub transfer_fee_flat : n.Numeral
  pub idempotency_stale_ms : ℕ
  pub fx_spread_bps : ℕ
  pub rate_cache_ttl_ms : ℕ
