-- ===== src/Server/Scan.antt =====
-- read_models/agent_pages.py and read_models/candidates.py: the candidate rows that a page is made
-- from, and the page of mcp_server/tools.py over them. A projection that raises NotFound is `none`; the
-- rows are of one generation, which Server.Listing compares with a cursor's.
pub mod Order
pub mod Batches
pub mod Advance
pub mod Reading
use work_trace.Prelude.{
  ℕ, zero, suc, ◌+◌, leb, ◌=?◌, String, Bool, true, false, not, ◌||◌, ◌&&◌, Option, none, some,
  List, [], ◌∷◌, ◌++◌, if◌then◌else◌, length, take, keep_if, is_some,
}
use work_trace.Prelude.Texts.{◌==◌}
use work_trace.Prelude.Order.{text_lt}
use work_trace.Errors.{Result}
use work_trace.Json.{Json, str, Fields, get}
use work_trace.Server.Envelopes.{Position, TextRules}
use work_trace.Server.Pages.{ScannedRow, admit_page}

pub record CandidateRow : Type 0 where
  pub id : String
  pub app_id : String
  pub generated_at : String

abbrev pub max_scan_budget : ℕ
max_scan_budget = 200

unfoldable pub is_empty : List CandidateRow → Bool
is_empty [] = true
is_empty (row ∷ rows) = false

-- `_RAW_CANDIDATE_SQL` without its limit: the table is in the order of the ids.
unfoldable pub candidates_after : String → String → String → List CandidateRow → List CandidateRow
candidates_after app_id generated_at after table =
    keep_if
      (λ (row : CandidateRow).
        text_lt after row.id && (row.app_id == app_id) && (row.generated_at == generated_at))
      table

-- `_raw_candidate_batch`
unfoldable pub raw_candidate_batch :
    String → String → String → ℕ → List CandidateRow → List CandidateRow
raw_candidate_batch app_id generated_at after limit table =
    take limit (candidates_after app_id generated_at after table)

-- `_has_raw_candidate_after`
unfoldable pub has_raw_candidate_after : String → String → String → List CandidateRow → Bool
has_raw_candidate_after app_id generated_at after table =
    not (is_empty (raw_candidate_batch app_id generated_at after 1 table))

-- `rows[-1]["id"]`
unfoldable pub last_id : String → List CandidateRow → String
last_id before [] = before
last_id before (row ∷ rows) = last_id row.id rows

-- `_matches_date_filter`; the parameter is `_calendar_date` in the zone, and a date is not empty.
date_of : (String → Option String) → Json → Option String
date_of calendar_date (str moment) = calendar_date moment
date_of calendar_date _ = none

unfoldable pub within : Option String → Option String → String → String → Bool
within date_from date_to period_from period_to = not (
    elim date_from [ some first ↦ text_lt period_to first | none ↦ false ]
    || elim date_to [ some last ↦ text_lt last period_from | none ↦ false ])

unfoldable pub matches_date_filter :
    (String → Option String) → Option String → Option String → Fields → Bool
unfolding date_of
matches_date_filter calendar_date date_from date_to item =
    if not (is_some date_from || is_some date_to)
    then true
    else elim (date_of calendar_date (get "period_from" item)) [
      | none ↦ false
      | some period_from ↦ elim (date_of calendar_date (get "period_to" item)) [
        | none ↦ false
        | some period_to ↦ within date_from date_to period_from period_to
      ]
    ]

unfoldable pub candidate_position : CandidateRow → Position
candidate_position row = ("candidate_id", row.id) ∷ []

-- `after or ""`
unfoldable pub or_first : Option String → String
or_first none = ""
or_first (some after) = after

module _ (calendar_date : String → Option String) (candidate_list_item : String → Option Fields)
    (date_from date_to : Option String) where
  -- `project`
  unfoldable pub project : CandidateRow → Option Fields
  project row = elim (candidate_list_item row.id) [
    | none ↦ none
    | some item ↦
        if matches_date_filter calendar_date date_from date_to item then some item else none
  ]

  -- `_LazyScannedRows.__next__`, and all that it gives until it stops.
  abbrev pub scanned : CandidateRow → Bool → ScannedRow
  scanned row has_more = record {
    position = candidate_position row;
    item = project row;
    has_more = has_more;
  }

  unfoldable pub lazy_rows : List CandidateRow → Bool → List ScannedRow
  lazy_rows [] has_more_after_last = []
  lazy_rows (row ∷ rows) has_more_after_last =
      scanned row (not (is_empty rows) || has_more_after_last) ∷ lazy_rows rows has_more_after_last

  -- `scan_candidates` in the active generation.
  unfoldable pub scan_candidates :
      String → String → Option String → List CandidateRow → List ScannedRow
  scan_candidates app_id generated_at after table =
      let rows = raw_candidate_batch app_id generated_at (or_first after) max_scan_budget table in
      lazy_rows rows (
        not (is_empty rows)
        && (length rows =? max_scan_budget)
        && has_raw_candidate_after app_id generated_at (last_id "" rows) table)

  -- What `list_contribution_candidates` returns behind its test of the generation: the page that goes
  -- on after a decoded position.
  unfoldable pub candidate_page :
      TextRules
      → ℕ
      → (Position → Result String)
      → Fields
      → String
      → String
      → List CandidateRow
      → Option String
      → Result Fields
  candidate_page rules limit make_cursor envelope app_id generated_at table after =
      admit_page rules "candidates" limit make_cursor envelope
        (scan_candidates app_id generated_at after table)
        (elim after [ none ↦ none | some id ↦ some (("candidate_id", id) ∷ []) ])
