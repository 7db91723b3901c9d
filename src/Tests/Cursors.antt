-- ===== src/Tests/Cursors.antt =====
-- Concrete cursors and redacted responses of the server.
use work_trace.Prelude.{String, true, Option, none, some, ◌≡◌, refl}
use work_trace.Prelude.Texts.{elem}
use work_trace.Errors.{ok}
use work_trace.Json.{Json, str, obj, Fields, end, field, get, has_key, size, as_object}
use work_trace.Server.Values.{text_length}
use work_trace.Server.Patterns.{
  is_stable_identifier, after_prefix, starts_with, is_fingerprint, is_encoded, is_ordinal,
  is_view_token, has_nul,
}
use work_trace.Server.Redaction.{
  is_structured_identifier, is_internal_identifier, redact_output, redact_fields, redact_items,
  redact_string, output_redactions,
}
use work_trace.Server.Redaction.Hidden.{IsHidden, redact_output-IsHidden}
use work_trace.Server.Cursors.{
  check_expected, has_keys, text_at, null_or_fingerprint, position_texts, valid_context,
  valid_position, valid_generation, valid_payload, Request, fingerprint_json, same_json,
  check_request, cursor_payload, parse_cursor, decode_cursor, encode_cursor,
}
use work_trace.Server.Cursors.Binding.{SameListing, decode_cursor-encode, decode_cursor-SameListing}

abbrev request : Request
request = record {
  collection = "candidates";
  app_id = "shop";
  view = "view:1:0123456789abcdef0123456789abcdef0123456789abcdef0123456789abcdef";
  filters = "0123456789abcdef0123456789abcdef0123456789abcdef0123456789abcdef";
  object_fingerprint = none;
}

abbrev candidate_at : String → Fields
candidate_at id = field "candidate_id" (str id) end

-- A codec that writes the candidate of a position, which is all that differs in these cursors.
abbrev write_candidate : Fields → String
write_candidate fs = elim (get "candidate_id" (as_object (get "position" fs))) [
  | str s ↦ s
  | _ ↦ ""
]

abbrev read_candidate : String → Option Json
read_candidate s = some (obj (cursor_payload request (candidate_at s) none))

program : Unit {0}
unfolding get has_key size as_object text_length is_stable_identifier after_prefix starts_with
    is_fingerprint is_encoded is_ordinal is_view_token has_nul has_keys text_at null_or_fingerprint
    position_texts valid_context valid_position valid_generation valid_payload fingerprint_json
    same_json check_request cursor_payload parse_cursor decode_cursor encode_cursor check_expected
    elem
program = tt

decode_cursor-encode_example :
    decode_cursor (λ s. true) read_candidate request (some "wtc1:candidate_a")
    ≡ ok (some (cursor_payload request (candidate_at "candidate_a") none))
unfolding program
decode_cursor-encode_example =
    decode_cursor-encode write_candidate read_candidate (λ s. true) request
      (candidate_at "candidate_a") none (refl, refl, refl, refl, refl) (refl, refl) refl

decode_cursor-SameListing_example : SameListing request request
unfolding program
decode_cursor-SameListing_example =
    decode_cursor-SameListing write_candidate read_candidate (λ s. true) request request
      (candidate_at "candidate_a") none "wtc1:candidate_a" (refl, refl, refl, refl, refl)
      (refl, refl) refl refl

redact_output-IsHidden_example :
    IsHidden
      (λ s. s)
      (λ pattern_of replacement s. replacement)
      none
      (obj (field "password" (str "[REDACTED]") (field "title" (str "[REDACTED_PHONE]") end)))
unfolding redact_output redact_fields redact_items redact_string elem is_structured_identifier
    is_internal_identifier is_stable_identifier output_redactions
redact_output-IsHidden_example =
    redact_output-IsHidden (λ s. s) (λ pattern_of replacement s. replacement) none
      (obj (field "password" (str "hunter2") (field "title" (str "a b") end)))
