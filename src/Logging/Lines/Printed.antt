-- ===== src/Logging/Lines/Printed.antt =====
-- src/logging/LogManager.cpp: a line of the log has no line break in it, whatever is logged.
use model_lib.Base.Bytes.{Bytes, codes, decimal_text}
use model_lib.Base.{
  ℕ, zero, suc, ◌/◌, ◌≡◌, refl, inl, inr, true, List, [], ◌∷◌, arith, ltb, leb, All, all,
  Bool-cases,
}
use model_lib.Logging.Event.{
  ErrorSeverity, info, warning, error, critical, AccessLogEntry, ErrorLogEntry, Event, Payload,
  access_payload, error_payload,
}
use model_lib.Logging.Lines.{
  Formats, severity_text, inserted, access_line, request_id_field, error_line, payload_line,
  event_line,
}
use model_lib.Logging.Lines.Reading.{Plain, append-Plain, json_escape-Plain}

pub literal-Plain : (s : Bytes) → all (leb 0x20) s ≡ true → All Plain s
literal-Plain [] h = tt
literal-Plain (c ∷ s) h = (ground (arith, h), literal-Plain s (ground (arith, h)))

decimal_text-Plain : (digits n : ℕ) → All Plain (decimal_text digits n)
unfolding decimal_text
decimal_text-Plain zero n = tt
decimal_text-Plain (suc digits) n = elim (Bool-cases (ltb n 10)) [
  | inl e ↦ rw e (omega arith, tt)
  | inr e ↦ rw e (
      append-Plain (decimal_text digits (n / 10)) _ (decimal_text-Plain digits (n / 10))
        (omega arith, tt))
]

inserted-Plain : (parts : List Bytes) → All (All Plain) parts → All Plain (inserted parts)
unfolding inserted
inserted-Plain [] h = tt
inserted-Plain (part ∷ parts) (h, hs) =
    append-Plain part (inserted parts) h (inserted-Plain parts hs)

severity_text-Plain : (severity : ErrorSeverity) → All Plain (severity_text severity)
unfolding severity_text
severity_text-Plain info = literal-Plain (codes "info") refl
severity_text-Plain warning = literal-Plain (codes "warning") refl
severity_text-Plain error = literal-Plain (codes "error") refl
severity_text-Plain critical = literal-Plain (codes "critical") refl

request_id_field-Plain : (id : Bytes) → All Plain (request_id_field id)
unfolding request_id_field
request_id_field-Plain [] = tt
request_id_field-Plain (c ∷ id) = inserted-Plain _ (
  literal-Plain (codes ",\"request_id\":\"") refl,
  (json_escape-Plain (c ∷ id), (literal-Plain (codes "\"") refl, tt)),
)

-- Times are printed without control characters.
abbrev pub PlainFormats : Formats → Type 0
PlainFormats formats =
    ((t : ℕ) → All Plain (formats.timestamp_text t))
    × ((t : ℕ) → All Plain (formats.milliseconds_text t))

module _ (formats : Formats) (times : PlainFormats formats) where
  access_line-Plain :
      (timestamp : ℕ) (entry : AccessLogEntry) → All Plain (access_line formats timestamp entry)
  unfolding access_line
  access_line-Plain timestamp entry = inserted-Plain _ (
    literal-Plain (codes "{\"timestamp\":\"") refl,
    (
      times.0 timestamp,
      (
        literal-Plain (codes "\",\"request_id\":\"") refl,
        (
          json_escape-Plain entry.request_id,
          (
            literal-Plain (codes "\",\"client_ip\":\"") refl,
            (
              json_escape-Plain entry.client_ip,
              (
                literal-Plain (codes "\",\"scheme\":\"") refl,
                (
                  json_escape-Plain entry.scheme,
                  (
                    literal-Plain (codes "\",\"listener_port\":") refl,
                    (
                      decimal_text-Plain 5 entry.listener_port,
                      (
                        literal-Plain (codes ",\"host\":\"") refl,
                        (
                          json_escape-Plain entry.host,
                          (
                            literal-Plain (codes "\",\"method\":\"") refl,
                            (
                              json_escape-Plain entry.method,
                              (
                                literal-Plain (codes "\",\"path\":\"") refl,
                                (
                                  json_escape-Plain entry.path,
                                  (
                                    literal-Plain (codes "\",\"status\":") refl,
                                    (
                                      decimal_text-Plain 10 entry.status,
                                      (
                                        literal-Plain (codes ",\"response_bytes\":") refl,
                                        (
                                          decimal_text-Plain 20 entry.response_bytes,
                                          (
                                            literal-Plain (codes ",\"duration_ms\":") refl,
                                            (
                                              times.1 entry.duration,
                                              (
                                                literal-Plain (codes ",\"config_revision\":") refl,
                                                (
                                                  decimal_text-Plain 20 entry.config_revision,
                                                  (literal-Plain (codes "}") refl, tt),
                                                ),
                                              ),
                                            ),
                                          ),
                                        ),
                                      ),
                                    ),
                                  ),
                                ),
                              ),
                            ),
                          ),
                        ),
                      ),
                    ),
                  ),
                ),
              ),
            ),
          ),
        ),
      ),
    ),
  )

  error_line-Plain :
      (timestamp : ℕ) (entry : ErrorLogEntry) → All Plain (error_line formats timestamp entry)
  unfolding error_line
  error_line-Plain timestamp entry = inserted-Plain _ (
    literal-Plain (codes "{\"timestamp\":\"") refl,
    (
      times.0 timestamp,
      (
        literal-Plain (codes "\",\"level\":\"") refl,
        (
          severity_text-Plain entry.severity,
          (
            literal-Plain (codes "\",\"component\":\"") refl,
            (
              json_escape-Plain entry.component,
              (
                literal-Plain (codes "\",\"message\":\"") refl,
                (
                  json_escape-Plain entry.message,
                  (
                    literal-Plain (codes "\"") refl,
                    (request_id_field-Plain entry.request_id, (literal-Plain (codes "}") refl, tt)),
                  ),
                ),
              ),
            ),
          ),
        ),
      ),
    ),
  )

  payload_line-Plain :
      (timestamp : ℕ) (payload : Payload) → All Plain (payload_line formats timestamp payload)
  unfolding payload_line
  payload_line-Plain timestamp (access_payload entry) = access_line-Plain timestamp entry
  payload_line-Plain timestamp (error_payload entry) = error_line-Plain timestamp entry

  pub event_line-Plain : (e : Event) → All Plain (event_line formats e)
  unfolding event_line
  event_line-Plain e = payload_line-Plain e.timestamp e.payload
