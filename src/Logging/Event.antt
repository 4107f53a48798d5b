-- ===== src/Logging/Event.antt =====
-- src/logging/LogManager.hpp: what is logged.
use model_lib.Base.Bytes.{Bytes}
use model_lib.Base.{ℕ, Bool, true, false}

pub data ErrorSeverity : Type 0 where
  info warning error critical : ErrorSeverity

-- `duration` is in microseconds.
pub record AccessLogEntry : Type 0 where
  pub request_id : Bytes
  pub client_ip : Bytes
  pub scheme : Bytes
  pub listener_port : ℕ
  pub host : Bytes
  pub method : Bytes
  pub path : Bytes
  pub status : ℕ
  pub response_bytes : ℕ
  pub duration : ℕ
  pub config_revision : ℕ

pub record ErrorLogEntry : Type 0 where
  pub severity : ErrorSeverity
  pub component : Bytes
  pub message : Bytes
  pub request_id : Bytes

pub data Payload : Type 0 where
  access_payload : AccessLogEntry → Payload
  error_payload : ErrorLogEntry → Payload

pub record Event : Type 0 where
  pub timestamp : ℕ
  pub payload : Payload

unfoldable pub holds_access : Payload → Bool
holds_access (access_payload e) = true
holds_access (error_payload e) = false
