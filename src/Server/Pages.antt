-- ===== src/Server/Pages.antt =====
-- mcp_server/responses.py: how scanned rows become one page within the budget.
pub mod Delivery
pub mod Admitted
pub mod Cuts
pub mod Returns
use Prim.Native.String.{◌++◌ as ◌<>◌}
use work_trace.Prelude.{
  ℕ, zero, suc, ◌+◌, ltb, leb, ◌=?◌, String, Bool, true, false, not, ◌||◌, ◌&&◌, Option, none, some,
  List, [], ◌∷◌, ◌++◌, if◌then◌else◌, length,
}
use work_trace.Prelude.Texts.{◌==◌, elem}
use work_trace.Errors.{Result, ok, err, ◌>>=◌}
use work_trace.Json.{
  Json, null, bool, str, arr, obj, Items, nil, cons, Fields, end, field, get, has_key,
}
use work_trace.Server.Values.{
  set, keep_fields, append_item, truthy, take_text, text_length, serialized_size,
}
use work_trace.Server.Envelopes.{
  Position, TextRules, max_response_chars, fits_budget, error_of, small_envelope, clean,
}

pub record ScannedRow : Type 0 where
  pub position : Position
  pub item : Option Fields
  pub has_more : Bool

abbrev pub retained_keys : List String
retained_keys =
    "candidate_id" ∷ "confirmed_contribution_id" ∷ "contribution_id" ∷ "object_id" ∷ "evidence_id"
    ∷ "source" ∷ "kind" ∷ "status" ∷ "period_status" ∷ "period_from" ∷ "period_to" ∷ "date_from"
    ∷ "date_to" ∷ "title_authority" ∷ "title_status" ∷ "title_content_type"
    ∷ "source_text_is_untrusted" ∷ "participation_indicators" ∷ "source_coverage" ∷ "suggested_type"
    ∷ "content_type" ∷ "completeness" ∷ "question_id" ∷ "detail_kind" ∷ "ordinal" ∷ "text" ∷ "scope"
    ∷ "chunk_index" ∷ "chunk_count" ∷ []

abbrev pub unshortened_keys : List String
unshortened_keys =
    "reference_id" ∷ "from_object_id" ∷ "to_object_id" ∷ "object_id" ∷ "candidate_id"
    ∷ "contribution_id" ∷ []

-- `f"{key}_truncated"` where the text was longer.
mark_if : Bool → String → Fields → Fields
mark_if longer key result = if longer then set (key <> "_truncated") (bool true) result else result

-- The loop over `tuple(result.items())`.
unfoldable pub shorten : Fields → Fields → Fields
unfolding mark_if
shorten end result = result
shorten (field key (str value) fs) result = shorten fs (
    if elem key unshortened_keys
    then result
    else mark_if (ltb 192 (text_length value)) key (set key (str (take_text 192 value)) result))
shorten (field key _ fs) result = shorten fs result

-- One round of `for key in ("title", "text")`.
lossless : Fields → String → Fields → Fields
unfolding mark_if
lossless item key result = elim (get key item) [
  | str value ↦
      let shown = if has_key "detail_kind" item then value else take_text 192 value in
      mark_if (ltb (text_length shown) (text_length value)) key (set key (str shown) result)
  | _ ↦ result
]

-- `_minimal_item`
unfoldable pub minimal_item : Fields → Fields
unfolding lossless
minimal_item item =
    let kept = keep_fields (λ k. elem k retained_keys) item in
    let result = lossless item "text" (lossless item "title" (shorten kept kept)) in
    set "item_compacted" (bool true) (
      set "has_limitations"
        (bool (
          truthy (get "limitations" item)
          || truthy (get "warnings" item)
          || truthy (get "title_limitations" item)))
        (set "has_contradictions"
          (bool (truthy (get "has_contradictions" item) || truthy (get "contradictions" item)))
          result))

unfoldable pub items_of : List Fields → Items
items_of [] = nil
items_of (fs ∷ more) = cons (obj fs) (items_of more)

-- The end of the loop: `return _error(result)`, or the page with its items and its position.
pub data Admission : Type 0 where
  refused : Fields → Admission
  admitted : Fields → List Fields → Option Position → Admission

module _ (rules : TextRules) (item_key : String) (limit : ℕ)
    (make_cursor : Position → Result String) where
  -- `make_cursor(position) if position else None`
  unfoldable pub cursor_at : Option Position → Result Json
  cursor_at none = ok null
  cursor_at (some []) = ok null
  cursor_at (some (p ∷ ps)) = make_cursor (p ∷ ps) >>= λ cursor. ok (str cursor)

  -- `make_cursor(position) if has_more else None`
  unfoldable pub cursor_after : ScannedRow → Result Json
  cursor_after row =
      if row.has_more then (make_cursor row.position >>= λ cursor. ok (str cursor)) else ok null

  -- `{**result, item_key: [*items, item], "next_cursor": next_cursor}`
  unfoldable pub trial : Fields → List Fields → Json → Fields
  trial result items next_cursor =
      set "next_cursor" next_cursor (set item_key (arr (items_of items)) result)

  -- The item of one row as it would be shown, and the page with it.
  unfoldable pub fitted : Fields → List Fields → Fields → Json → Fields × Fields
  fitted result items item next_cursor =
      let whole = trial result (items ++ item ∷ []) next_cursor in
      let small = minimal_item item in
      if fits_budget whole then (item, whole) else (
        small,
        set "response_truncated" (bool true) (trial result (items ++ small ∷ []) next_cursor),
      )

  -- A row that does not fit: the page ends before it.
  unfoldable pub blocked : Fields → List Fields → Option Position → Result Admission
  blocked result [] accepted = ok (refused result)
  blocked result (item ∷ items) accepted = cursor_at accepted >>= λ cursor. ok (
      admitted (set "response_truncated" (bool true) (set "next_cursor" cursor result))
        (item ∷ items) accepted)

  -- `for position, raw_item, has_more in rows`
  unfoldable pub admit_rows :
      List ScannedRow → Fields → List Fields → Option Position → Result Admission
  admit_rows [] result items accepted = ok (admitted result items accepted)
  admit_rows (row ∷ rows) result items accepted = cursor_after row >>= λ next_cursor.
      elim row.item [
        | none ↦ admit_rows rows (set "next_cursor" next_cursor result) items (some row.position)
        | some raw ↦
            let (item, page) = fitted result items (clean rules raw) next_cursor in
            elim (fits_budget page) [
              | false ↦ blocked result items accepted
              | true ↦ elim (suc (length items) =? limit) [
                | true ↦ ok (admitted page (items ++ item ∷ []) (some row.position))
                | false ↦ admit_rows rows page (items ++ item ∷ []) (some row.position)
              ]
            ]
      ]

  -- That return, or `return result if serialized_size(result) <= MAX_RESPONSE_CHARS else _error(result)`
  unfoldable pub settle_page : Admission → Fields
  settle_page (refused result) = error_of result
  settle_page (admitted result items accepted) =
      if fits_budget result then result else error_of result

  unfoldable pub has_room : Fields → Bool
  has_room result = leb (serialized_size (obj result) + 2100) max_response_chars

  -- The page before its rows, reduced where the envelope leaves too little room.
  unfoldable pub empty_page : Fields → Fields
  empty_page envelope = set "next_cursor" null (set item_key (arr nil) (clean rules envelope))

  unfoldable pub start_page : Fields → Fields
  start_page envelope =
      let empty = empty_page envelope in
      if has_room empty then empty else small_envelope rules empty

  unfoldable pub admit_page : Fields → List ScannedRow → Option Position → Result Fields
  admit_page envelope rows initial_position =
      let start = start_page envelope in
      if has_room start
      then (admit_rows rows start [] initial_position >>= λ admission. ok (settle_page admission))
      else ok (error_of start)
