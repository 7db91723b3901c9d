-- ===== src/Tests/Server.antt =====
-- Concrete inputs of the server's pages.
use work_trace.Prelude.{
  ltb, String, none, some, List, [], ◌∷◌, ◌++◌, map, ◌≡◌, refl, arith, true, false, keep_if,
  if◌then◌else◌,
}
use work_trace.Prelude.Texts.{◌==◌, elem}
use work_trace.Errors.{ok, Result, err, protocol_error}
use work_trace.Json.{str, arr, Fields, end, field, get, has_key, as_object}
use work_trace.Server.Values.{
  set, keep_fields, list_of, count_items, get_or, truthy, take_text, text_length, serialized_size,
}
use work_trace.Server.Patterns.{
  is_stable_identifier, after_prefix, is_encoded, is_cursor, is_fingerprint, is_view_token,
  before_colon,
}
use work_trace.Server.Redaction.{
  redact_fields, redact_string, is_structured_identifier, is_internal_identifier, output_redactions,
}
use work_trace.Server.Envelopes.{
  TextRules, fits_budget, error_of, small_envelope, clean, copy_keys, compact_sources,
}
use work_trace.Server.Pages.{
  ScannedRow, minimal_item, shorten, items_of, cursor_at, cursor_after, trial, fitted, blocked,
  admit_rows, settle_page, has_room, empty_page, start_page, admit_page,
}
use work_trace.Server.Pages.Delivery.{Delivers}
use work_trace.Server.Pages.Cuts.{IsPage, admit_page-IsPage}
use work_trace.Server.Scan.{
  CandidateRow, is_empty, candidates_after, raw_candidate_batch, has_raw_candidate_after, last_id,
  within, matches_date_filter, candidate_position, project, lazy_rows, or_first, scan_candidates,
  candidate_page,
}
use work_trace.Server.Scan.Advance.{Listing, shown_by, remaining}
use work_trace.Server.Scan.Reading.{Reads, last_page, next_page, Reads-Delivers}

abbrev plain_rules : TextRules
plain_rules = record { casefold = λ s. s; sub = λ pattern_of replacement s. s; str_of = λ j. "" }

abbrev candidate_row : String → CandidateRow
candidate_row id = record { id = id; app_id = "shop"; generated_at = "now" }

-- Three candidates, of which the second one cannot be projected, in pages of one item.
abbrev listing : Listing
listing = record {
  rules = plain_rules;
  limit = 1;
  make_cursor = λ p. elim p [ [] ↦ ok "" | (k, id) ∷ _ ↦ ok id ];
  envelope = field "app_id" (str "shop") end;
  app_id = "shop";
  generated_at = "now";
  table =
      candidate_row "candidate:a" ∷ candidate_row "candidate:b" ∷ candidate_row "candidate:c" ∷ [];
  calendar_date = λ moment. none;
  candidate_list_item =
      λ id. if id == "candidate:b" then none else some (field "candidate_id" (str id) end);
  date_from = none;
  date_to = none;
}

abbrev shown_a : List Fields
shown_a = field "candidate_id" (str "candidate:a") end ∷ []

abbrev shown_c : List Fields
shown_c = field "candidate_id" (str "candidate:c") end ∷ []

program : Unit {0}
unfolding candidate_page admit_page start_page empty_page has_room serialized_size set clean
    redact_fields elem is_structured_identifier is_internal_identifier is_stable_identifier
    redact_string output_redactions admit_rows scan_candidates lazy_rows raw_candidate_batch
    candidates_after keep_if as_object get has_key compact_sources copy_keys error_of fits_budget
    small_envelope blocked cursor_after cursor_at fitted items_of minimal_item settle_page shorten
    trial after_prefix before_colon is_cursor is_encoded is_fingerprint is_view_token
    candidate_position has_raw_candidate_after is_empty last_id matches_date_filter or_first project
    within count_items get_or keep_fields list_of take_text text_length truthy
program = tt

two_pages : Reads listing (λ cursor. some cursor) none (shown_a ++ shown_c)
unfolding program
two_pages =
    next_page none _ shown_a "candidate:a" "candidate:a" refl refl refl refl
      (last_page (some "candidate:a") _ shown_c refl refl refl)

Reads-Delivers_example :
    Delivers plain_rules (map (shown_by listing) (remaining listing none)) (shown_a ++ shown_c)
Reads-Delivers_example =
    Reads-Delivers listing (λ cursor. some cursor) ((refl, (refl, tt)), ((refl, tt), (tt, tt)))
      (omega arith) (λ id cursor made. cc) two_pages

-- The same listing, where no cursor of more than 2,048 characters is made.
abbrev short_cursor : String → Result String
short_cursor id =
    if ltb 2048 (text_length id) then err (protocol_error "response_too_large" none) else ok id

abbrev short_listing : Listing
short_listing = record listing {
  make_cursor = λ p. elim p [ [] ↦ ok "" | (k, id) ∷ _ ↦ short_cursor id ];
}

-- A page of which the second row finds no place, since the limit is one item.
abbrev two_rows : List ScannedRow
two_rows =
    record {
      position = ("candidate_id", "candidate:a") ∷ [];
      item = some (field "candidate_id" (str "candidate:a") end);
      has_more = true;
    }
    ∷ record { position = ("candidate_id", "candidate:b") ∷ []; item = none; has_more = false }
    ∷ []

abbrev page : Fields
page =
    field "app_id" (str "shop")
      (field "candidates" (arr (items_of shown_a)) (field "next_cursor" (str "candidate:a") end))

page_run :
    admit_page plain_rules "candidates" 1 listing.make_cursor listing.envelope two_rows none
    ≡ ok page
unfolding program
page_run = refl

admit_page-IsPage_example : IsPage plain_rules "candidates" 1 listing.make_cursor two_rows page
admit_page-IsPage_example =
    admit_page-IsPage plain_rules "candidates" 1 listing.make_cursor (refl, refl) listing.envelope
      two_rows none (refl, refl, refl, refl, refl) (refl, tt) (λ e. cc, (λ e. cc, tt)) (omega arith)
      page page_run
