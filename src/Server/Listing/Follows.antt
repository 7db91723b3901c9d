-- ===== src/Server/Listing/Follows.antt =====
-- How `list_contribution_candidates` (mcp_server/tools.py) goes on at a cursor that it made.
use work_trace.Prelude.{ℕ, String, Bool, Option, [], ◌∷◌}
use work_trace.Errors.{Result}
use work_trace.Json.{Json, Fields}
use work_trace.Server.Envelopes.{TextRules}
use work_trace.Server.Cursors.{cursor_payload}
use work_trace.Server.Listing.{
  ActiveRows, position_fields, candidate_request, page_from, list_contribution_candidates,
}

module _ (app_id view filters id : String) (generation : Option String) where
  abbrev at_candidate : Fields
  at_candidate =
      cursor_payload (candidate_request app_id view filters)
        (position_fields (("candidate_id", id) ∷ [])) generation

module _ (has_timezone : String → Bool) (pack : Fields → String) (unpack : String → Option Json)
    (rules : TextRules) (calendar_date : String → Option String)
    (candidate_list_item : String → Option Fields) (date_from date_to : Option String) (limit : ℕ)
    (envelope : Fields) (app_id view filters : String) (active : ActiveRows) where
  abbrev list : Option String → Result Fields
  list =
      list_contribution_candidates has_timezone pack unpack rules calendar_date candidate_list_item
        date_from date_to limit envelope app_id view filters active

  abbrev page : Option String → Result Fields
  page =
      page_from has_timezone pack unpack rules calendar_date candidate_list_item date_from date_to
        limit envelope app_id view filters active
