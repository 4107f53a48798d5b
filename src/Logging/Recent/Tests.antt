-- ===== src/Logging/Recent/Tests.antt =====
-- Runs of `recent_lines` and of the escapes, and its theorem on two files.
use model_lib.Base.Bytes.{codes}
use model_lib.Base.{◌≡◌, refl, [], ◌∷◌, some, arith, map}
use model_lib.Logging.Event.{Event, warning, error_payload}
use model_lib.Logging.Lines.{
  Formats, hexadecimal, escape_other, escape_byte, json_escape, severity_text, inserted,
  request_id_field, error_line, payload_line, event_line, until_mark, sanitize_request_target,
}
use model_lib.Logging.Lines.Printed.{PlainFormats, literal-Plain}
use model_lib.Logging.Recent.{recent_lines}
use model_lib.Logging.Recent.Written.{last_n, lines_before, file_text, recent_lines-file_text}

abbrev digits_only : Formats
digits_only = record {
  timestamp_text = λ t. codes "2024-01-01T00:00:00.000Z";
  milliseconds_text = λ t. codes "1.500";
}

digits_only-PlainFormats : PlainFormats digits_only
digits_only-PlainFormats = (
  λ t. literal-Plain (codes "2024-01-01T00:00:00.000Z") refl,
  λ t. literal-Plain (codes "1.500") refl,
)

abbrev forged : Event
forged = record {
  timestamp = 1;
  payload = error_payload (record {
    severity = warning;
    component = codes "http";
    message = b'a' ∷ b'\n' ∷ b'"' ∷ 1 ∷ [];
    request_id = codes "7";
  });
}

forged_line :
    event_line digits_only forged
    ≡ codes
        "{\"timestamp\":\"2024-01-01T00:00:00.000Z\",\"level\":\"warning\",\"component\":\"http\",\"message\":\"a\\n\\\"\\u0001\",\"request_id\":\"7\"}"
unfolding event_line payload_line error_line inserted severity_text json_escape escape_byte
    escape_other hexadecimal request_id_field
forged_line = refl

cut_target : sanitize_request_target (codes "/a?key=secret") ≡ codes "/a"
unfolding sanitize_request_target until_mark
cut_target = refl

recent_lines-file_text_example :
    recent_lines 2
      (file_text digits_only (forged ∷ []))
      (map (λ es. file_text digits_only es) ((forged ∷ forged ∷ []) ∷ []))
    ≡ some (last_n 2 (lines_before digits_only ((forged ∷ []) ∷ (forged ∷ forged ∷ []) ∷ []) []))
recent_lines-file_text_example =
    recent_lines-file_text digits_only 2 (forged ∷ []) ((forged ∷ forged ∷ []) ∷ [])
      digits_only-PlainFormats (omega arith) (omega arith)
