-- ===== src/Tests/Listing.antt =====
-- A listing of candidates that goes on at the cursor of its first row.
use work_trace.Prelude.{String, none, some, Option, [], ◌∷◌}
use work_trace.Json.{Json, str, obj, Fields, end, field, get, has_key, size, as_object}
use work_trace.Prelude.Texts.{elem}
use work_trace.Server.Values.{text_length}
use work_trace.Server.Patterns.{
  is_stable_identifier, after_prefix, starts_with, is_fingerprint, is_encoded, is_ordinal,
  is_view_token, has_nul,
}
use work_trace.Server.Envelopes.{TextRules}
use work_trace.Server.Scan.{CandidateRow}
use work_trace.Server.Cursors.{
  has_keys, text_at, null_or_fingerprint, position_texts, valid_context, valid_position,
  valid_generation, valid_payload, fingerprint_json, same_json, cursor_payload, encode_cursor,
}
use work_trace.Server.Listing.{ActiveRows, position_fields, candidate_request}

abbrev view : String
view = "view:1:0123456789abcdef0123456789abcdef0123456789abcdef0123456789abcdef"

abbrev filters : String
filters = "0123456789abcdef0123456789abcdef0123456789abcdef0123456789abcdef"

abbrev plain_rules : TextRules
plain_rules = record { casefold = λ s. s; sub = λ pattern_of replacement s. s; str_of = λ j. "" }

abbrev row : String → CandidateRow
row id = record { id = id; app_id = "shop"; generated_at = "now" }

abbrev active : ActiveRows
active = record {
  generated_at = "now";
  generation = none;
  table = row "candidate_a" ∷ row "candidate_b" ∷ [];
}

-- A codec that writes the candidate of a position, which is all that differs in these cursors.
abbrev write_candidate : Fields → String
write_candidate fs = text_at "candidate_id" (as_object (get "position" fs))

abbrev read_candidate : String → Option Json
read_candidate s = some (
    obj (
      cursor_payload (candidate_request "shop" view filters)
        (position_fields (("candidate_id", s) ∷ [])) none))

abbrev item : String → Option Fields
item id = some (field "candidate_id" (str id) end)

program : Unit {0}
unfolding get has_key size as_object text_length is_stable_identifier after_prefix starts_with
    is_fingerprint is_encoded is_ordinal is_view_token has_nul has_keys text_at null_or_fingerprint
    position_texts valid_context valid_position valid_generation valid_payload fingerprint_json
    same_json cursor_payload encode_cursor elem position_fields
program = tt
