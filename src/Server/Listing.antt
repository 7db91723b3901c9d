-- ===== src/Server/Listing.antt =====
-- mcp_server/tools.py: the tool that lists candidates, from a valid app, limit and dates on. The
-- envelope is `_page_envelope`, and the view is the token of its metadata.
pub mod Follows
use work_trace.Prelude.{ℕ, String, Bool, false, not, Option, none, some, List, [], ◌∷◌}
use work_trace.Errors.{Result, ◌>>=◌, ◌>>◌, raise_if, protocol_error}
use work_trace.Json.{Json, str, Fields, end, field, get, as_object}
use work_trace.Server.Envelopes.{Position, TextRules}
use work_trace.Server.Cursors.{Request, text_at, same_json, decode_cursor, encode_cursor}
use work_trace.Server.Scan.{CandidateRow, candidate_page}

-- The candidate rows, with the active generation: its time and its digest.
pub record ActiveRows : Type 0 where
  pub generated_at : String
  pub generation : Option String
  pub table : List CandidateRow

unfoldable pub position_fields : Position → Fields
position_fields [] = end
position_fields ((k, s) ∷ more) = field k (str s) (position_fields more)

-- `decoded and decoded["generation"] != generation`
unfoldable pub is_stale : Option String → Option Fields → Bool
is_stale generation none = false
is_stale generation (some decoded) = not (same_json (get "generation" decoded) generation)

-- `position["candidate_id"] if position else None`
unfoldable pub after_of : Option Fields → Option String
after_of none = none
after_of (some decoded) = some (text_at "candidate_id" (as_object (get "position" decoded)))

abbrev pub candidate_request : String → String → String → Request
candidate_request app_id view filters = record {
  collection = "candidates";
  app_id = app_id;
  view = view;
  filters = filters;
  object_fingerprint = none;
}

module _ (has_timezone : String → Bool) (pack : Fields → String) (unpack : String → Option Json)
    (rules : TextRules) (calendar_date : String → Option String)
    (candidate_list_item : String → Option Fields) (date_from date_to : Option String) (limit : ℕ)
    (envelope : Fields) (app_id view filters : String) (active : ActiveRows) where
  -- `admit_page` over the rows after a position, with cursors of this listing.
  abbrev pub page_from : Option String → Result Fields
  page_from after =
      candidate_page calendar_date candidate_list_item date_from date_to rules limit
        (λ (p : Position).
          encode_cursor pack (candidate_request app_id view filters) (position_fields p)
            active.generation)
        envelope app_id active.generated_at active.table after

  unfoldable pub list_contribution_candidates : Option String → Result Fields
  list_contribution_candidates cursor =
      decode_cursor has_timezone unpack (candidate_request app_id view filters) cursor
      >>= λ decoded.
          raise_if (is_stale active.generation decoded)
            (protocol_error "evidence_changed" (some view))
          >> page_from (after_of decoded)
