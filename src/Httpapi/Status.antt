-- ===== src/Httpapi/Status.antt =====
-- server/internal/httpapi/status.go: GET /api/status. `whole_seconds` is the whole number of seconds
-- in a duration, which the code takes by way of a floating-point number.
use remote_app_start_my_linu.Prelude.{ℕ, ◌-◌, Bytes, length}
use remote_app_start_my_linu.Catalog.{Catalog}

pub record StatusResponse : Type 0 where
  pub version : Bytes
  pub started_at : ℕ
  pub uptime_sec : ℕ
  pub apps_count : ℕ
  pub cert_fingerprint : Bytes

-- `NewStatusHandler`; the time since the start is monotonic, so that it is not negative.
unfoldable pub status_of : (ℕ → ℕ) → Bytes → ℕ → Catalog → Bytes → ℕ → StatusResponse
status_of whole_seconds version started_at c fingerprint now = record {
  version = version;
  started_at = started_at;
  uptime_sec = whole_seconds (now - started_at);
  apps_count = length c.list;
  cert_fingerprint = fingerprint;
}
