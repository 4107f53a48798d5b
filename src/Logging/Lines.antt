-- ===== src/Logging/Lines.antt =====
-- src/logging/LogManager.cpp: the lines of the two files, which are JSON.
pub mod Reading
pub mod Printed
use model_lib.Base.Bytes.{Bytes, codes, decimal_text, contains, is_empty}
use model_lib.Base.{
  ℕ, ◌+◌, ◌-◌, ◌/◌, ◌%◌, Bool, List, [], ◌∷◌, ◌++◌, ltb, ◌==◌, if◌then◌else◌, take,
}
use model_lib.Logging.Event.{
  ErrorSeverity, info, warning, error, critical, AccessLogEntry, ErrorLogEntry, Event, Payload,
  access_payload, error_payload,
}

-- `timestamp_text`, which is made by `std::put_time`, and the duration in milliseconds with three
-- digits behind the point, made by a stream.
pub record Formats : Type 0 where
  pub timestamp_text : ℕ → Bytes
  pub milliseconds_text : ℕ → Bytes

unfoldable pub hexadecimal : ℕ → ℕ
hexadecimal n = if ltb n 10 then b'0' + n else b'a' + (n - 10)

-- The default case of `json_escape`.
unfoldable pub escape_other : ℕ → Bytes
escape_other c =
    if ltb c 0x20
    then b'\\' ∷ b'u' ∷ b'0' ∷ b'0' ∷ hexadecimal (c / 16 % 16) ∷ hexadecimal (c % 16) ∷ []
    else c ∷ []

unfoldable pub escape_byte : ℕ → Bytes
escape_byte c =
    if c == b'"'
    then b'\\' ∷ b'"' ∷ []
    else (if c == b'\\'
        then b'\\' ∷ b'\\' ∷ []
        else (if c == 8
            then b'\\' ∷ b'b' ∷ []
            else (if c == 12
                then b'\\' ∷ b'f' ∷ []
                else (if c == 10
                    then b'\\' ∷ b'n' ∷ []
                    else (if c == 13
                        then b'\\' ∷ b'r' ∷ []
                        else (if c == 9 then b'\\' ∷ b't' ∷ [] else escape_other c))))))

unfoldable pub json_escape : Bytes → Bytes
json_escape [] = []
json_escape (c ∷ s) = escape_byte c ++ json_escape s

unfoldable pub severity_text : ErrorSeverity → Bytes
severity_text info = codes "info"
severity_text warning = codes "warning"
severity_text error = codes "error"
severity_text critical = codes "critical"

-- What a string stream holds after these insertions.
unfoldable pub inserted : List Bytes → Bytes
inserted [] = []
inserted (part ∷ parts) = part ++ inserted parts

unfoldable pub access_line : Formats → ℕ → AccessLogEntry → Bytes
access_line formats timestamp entry = inserted (
    codes "{\"timestamp\":\""
    ∷ formats.timestamp_text timestamp
    ∷ codes "\",\"request_id\":\""
    ∷ json_escape entry.request_id
    ∷ codes "\",\"client_ip\":\""
    ∷ json_escape entry.client_ip
    ∷ codes "\",\"scheme\":\""
    ∷ json_escape entry.scheme
    ∷ codes "\",\"listener_port\":"
    ∷ decimal_text 5 entry.listener_port
    ∷ codes ",\"host\":\""
    ∷ json_escape entry.host
    ∷ codes "\",\"method\":\""
    ∷ json_escape entry.method
    ∷ codes "\",\"path\":\""
    ∷ json_escape entry.path
    ∷ codes "\",\"status\":"
    ∷ decimal_text 10 entry.status
    ∷ codes ",\"response_bytes\":"
    ∷ decimal_text 20 entry.response_bytes
    ∷ codes ",\"duration_ms\":"
    ∷ formats.milliseconds_text entry.duration
    ∷ codes ",\"config_revision\":"
    ∷ decimal_text 20 entry.config_revision
    ∷ codes "}"
    ∷ [])

unfoldable pub request_id_field : Bytes → Bytes
request_id_field id =
    if is_empty id
    then []
    else inserted (codes ",\"request_id\":\"" ∷ json_escape id ∷ codes "\"" ∷ [])

unfoldable pub error_line : Formats → ℕ → ErrorLogEntry → Bytes
error_line formats timestamp entry = inserted (
    codes "{\"timestamp\":\""
    ∷ formats.timestamp_text timestamp
    ∷ codes "\",\"level\":\""
    ∷ severity_text entry.severity
    ∷ codes "\",\"component\":\""
    ∷ json_escape entry.component
    ∷ codes "\",\"message\":\""
    ∷ json_escape entry.message
    ∷ codes "\""
    ∷ request_id_field entry.request_id
    ∷ codes "}"
    ∷ [])

-- The line that `write_event` hands to `write_line`.
unfoldable pub payload_line : Formats → ℕ → Payload → Bytes
payload_line formats timestamp (access_payload entry) = access_line formats timestamp entry
payload_line formats timestamp (error_payload entry) = error_line formats timestamp entry

unfoldable pub event_line : Formats → Event → Bytes
event_line formats event = payload_line formats event.timestamp event.payload

unfoldable pub until_mark : Bytes → Bytes
until_mark [] = []
until_mark (c ∷ s) = if contains c (codes "?#") then [] else c ∷ until_mark s

unfoldable pub sanitize_request_target : Bytes → Bytes
sanitize_request_target target =
    let path = until_mark target in if is_empty path then codes "/" else take 4096 path
