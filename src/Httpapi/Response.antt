-- ===== src/Httpapi/Response.antt =====
-- server/internal/httpapi/json.go: what a handler answers. An error has a status, a code and a message.
use remote_app_start_my_linu.Prelude.{ℕ, Bytes, Bool, true, false}

pub data Response (A : Type 0) : Type 0 where
  failure : ℕ → Bytes → Bytes → Response A
  success : A → Response A

abbrev pub is_success : {A : Type 0} → Response A → Bool
is_success (failure _ _ _) = false
is_success (success a) = true
