-- ===== src/Server/Scan/Advance.antt =====
-- One page of `list_contribution_candidates` (mcp_server/tools.py) against the rows of the table.
use mathlib.Core.List.{append_assoc}
use mathlib.Core.Path.{subst}
use work_trace.Prelude.{
  ℕ, ◌<◌, String, Bool, not, ◌||◌, Option, none, some, List, [], ◌∷◌, ◌++◌, map, length,
  length-append, take, drop, All, ◌≡◌, ◌⊎◌, inl, inr, refl, sym, ap, ◌∙◌, arith,
}
use work_trace.Errors.{Result, ok, >>=-eq-ok}
use work_trace.Json.{null, str, arr, Fields, get}
use work_trace.Server.Envelopes.{Position, TextRules, error_of}
use work_trace.Server.Pages.{ScannedRow, items_of, cursor_after}
use work_trace.Server.Pages.Delivery.{IsAhead, HasPosition, Delivers, Cut, Continues}
use work_trace.Server.Pages.Cuts.{admit_page-IsPage}
use work_trace.Server.Scan.{
  CandidateRow, is_empty, candidate_position, project, scanned, lazy_rows, max_scan_budget,
  candidates_after, raw_candidate_batch, or_first, scan_candidates, candidate_page,
}
use work_trace.Server.Scan.Order.{IsOrdered, candidates_after-behind}
use work_trace.Server.Scan.Batches.{
  lazy_rows-IsAhead, lazy_rows-HasPosition, IsLast, lazy_rows-cut, lazy_rows-none, no_take,
  take-drop, has_more-drop,
}

-- What a listing fixes: the tool's arguments, the envelope, and the rows with their projection.
pub record Listing : Type 0 where
  pub rules : TextRules
  pub limit : ℕ
  pub make_cursor : Position → Result String
  pub envelope : Fields
  pub app_id : String
  pub generated_at : String
  pub table : List CandidateRow
  pub calendar_date : String → Option String
  pub candidate_list_item : String → Option Fields
  pub date_from : Option String
  pub date_to : Option String

abbrev pub shown_by : Listing → CandidateRow → Option Fields
shown_by l = project l.calendar_date l.candidate_list_item l.date_from l.date_to

abbrev pub remaining : Listing → Option String → List CandidateRow
remaining l after = candidates_after l.app_id l.generated_at (or_first after) l.table

abbrev pub page_after : Listing → Option String → Result Fields
page_after l after =
    candidate_page l.calendar_date l.candidate_list_item l.date_from l.date_to l.rules l.limit
      l.make_cursor l.envelope l.app_id l.generated_at l.table after

abbrev pub cursor_for : Listing → String → Result String
cursor_for l id = l.make_cursor (("candidate_id", id) ∷ [])

abbrev pub GoesOn : Listing → Option String → Fields → List CandidateRow → Type 0
GoesOn l after page left =
    ((get "next_cursor" page ≡ null) × (left ≡ []))
    ⊎ ((id : String) × (cursor : String) × (cursor_for l id ≡ ok cursor)
        × (get "next_cursor" page ≡ str cursor)
        × (remaining l (some id) ≡ left)
        × (length left < length (remaining l after)))

-- A page delivers the next part of the remaining rows, and says where the rest begins.
pub record Advance (l : Listing) (after : Option String) (page : Fields) : Type 0 where
  pub taken : List CandidateRow
  pub left : List CandidateRow
  pub delivered : List Fields
  pub splits : remaining l after ≡ taken ++ left
  pub delivers : Delivers l.rules (map (shown_by l) taken) delivered
  pub lists : get "candidates" page ≡ arr (items_of delivered)
  pub goes_on : GoesOn l after page left

module _ (l : Listing) (ordered : IsOrdered l.table) where
  abbrev scans : Option String → List ScannedRow
  scans after =
      scan_candidates l.calendar_date l.candidate_list_item l.date_from l.date_to l.app_id
        l.generated_at after l.table

  scans-lazy :
      (after : Option String)
      → scans after
        ≡ lazy_rows l.calendar_date l.candidate_list_item l.date_from l.date_to
            (take max_scan_budget (remaining l after))
            (not (is_empty (drop max_scan_budget (remaining l after))))
  unfolding scan_candidates raw_candidate_batch
  scans-lazy after =
      ap
        (λ (b : Bool).
          lazy_rows l.calendar_date l.candidate_list_item l.date_from l.date_to
            (take max_scan_budget (remaining l after)) b)
        (has_more-drop l.app_id l.generated_at (or_first after) l.table ordered 199)

  abbrev CutAt : Option String → Fields → Type 0
  CutAt after page = Cut l.rules "candidates" l.limit l.make_cursor none (scans after) [] page

  next_of :
      (row : CandidateRow) (behind beyond : List CandidateRow) (page : Fields)
      → cursor_after l.rules "candidates" l.limit l.make_cursor (
          scanned l.calendar_date l.candidate_list_item l.date_from l.date_to row
            (not (is_empty behind) || not (is_empty beyond)))
        ≡ ok (get "next_cursor" page)
      → ((get "next_cursor" page ≡ null) × (behind ++ beyond ≡ []))
        ⊎ ((cursor : String) × (cursor_for l row.id ≡ ok cursor)
            × (get "next_cursor" page ≡ str cursor))
  unfolding cursor_after is_empty candidate_position
  next_of row [] [] page found = inl (cc, refl)
  next_of row [] (other ∷ beyond) page found =
      let (cursor, made, same) = >>=-eq-ok (cursor_for l row.id) _ found in inr (cursor, made, cc)
  next_of row (other ∷ behind) beyond page found =
      let (cursor, made, same) = >>=-eq-ok (cursor_for l row.id) _ found in inr (cursor, made, cc)

  shorter :
      (front behind : List CandidateRow) (row : CandidateRow) (all left : List CandidateRow)
      → all ≡ (front ++ row ∷ []) ++ left
      → length left < length all
  shorter front behind row all left split =
      let one = length-append (front ++ row ∷ []) left in
      let two = length-append front (row ∷ []) in
      let three = ap (λ (rs : List CandidateRow). length rs) split in omega (arith, one, two, three)

  front_none : (front behind : List CandidateRow) → front ++ behind ≡ [] → behind ≡ []
  front_none [] behind e = e
  front_none (row ∷ front) behind e = absurd (cc)

  Cut-GoesOn :
      (after : Option String) (page : Fields) (cut : CutAt after page)
      (front behind : List CandidateRow)
      → take max_scan_budget (remaining l after) ≡ front ++ behind
      → remaining l after ≡ front ++ (behind ++ drop max_scan_budget (remaining l after))
      → IsLast l.calendar_date l.candidate_list_item l.date_from l.date_to none cut.taken front
          behind
          (not (is_empty (drop max_scan_budget (remaining l after))))
      → GoesOn l after page (behind ++ drop max_scan_budget (remaining l after))
  unfolding or_first
  Cut-GoesOn after page cut front behind joined whole (inl (no_front, same)) =
      let no_batch =
        lazy_rows-none l.calendar_date l.candidate_list_item l.date_from l.date_to
          (take max_scan_budget (remaining l after)) _
          (sym (scans-lazy after) ∙ cut.advances same) in
      let beyond = drop max_scan_budget (remaining l after) in
      inl (
        subst
            (λ (o : Option ScannedRow). Continues l.rules "candidates" l.limit l.make_cursor o page)
            same cut.continues,
        ap (λ (rs : List CandidateRow). rs ++ beyond)
              (front_none front behind (sym joined ∙ no_batch))
            ∙ no_take 199 (remaining l after) no_batch,
      )
  Cut-GoesOn after page cut front behind joined whole (inr (start, row, ends, same)) =
      let beyond = drop max_scan_budget (remaining l after) in
      let split = whole ∙ ap (λ (rs : List CandidateRow). rs ++ (behind ++ beyond)) ends in
      let found =
        subst
          (λ (o : Option ScannedRow). Continues l.rules "candidates" l.limit l.make_cursor o page)
          same cut.continues in
      elim (next_of row behind beyond page found) [
        | inl (last_page, rest) ↦ inl (last_page, rest)
        | inr (cursor, made, next) ↦ inr (
          row.id,
          cursor,
          made,
          next,
          candidates_after-behind l.app_id l.generated_at (or_first after) l.table start row
              (behind ++ beyond) ordered (split ∙ append_assoc start (row ∷ []) (behind ++ beyond)),
          shorter start behind row (remaining l after) (behind ++ beyond) split,
        )
      ]

  Cut-Advance : (after : Option String) (page : Fields) → CutAt after page → Advance l after page
  Cut-Advance after page cut =
      let batch = take max_scan_budget (remaining l after) in
      let beyond = drop max_scan_budget (remaining l after) in
      let (front, behind, joined, items, last) =
        lazy_rows-cut l.calendar_date l.candidate_list_item l.date_from l.date_to batch
          (not (is_empty beyond)) none cut.taken cut.left (sym (scans-lazy after) ∙ cut.splits) in
      let whole : remaining l after ≡ front ++ (behind ++ beyond) =
        take-drop max_scan_budget (remaining l after)
        ∙ ap (λ (rs : List CandidateRow). rs ++ beyond) joined
        ∙ append_assoc front behind beyond in
      record {
        taken = front;
        left = behind ++ beyond;
        delivered = cut.delivered;
        splits = whole;
        delivers =
            subst (λ (os : List (Option Fields)). Delivers l.rules os cut.delivered) items
              cut.delivers;
        lists = cut.lists;
        goes_on = Cut-GoesOn after page cut front behind joined whole last;
      }

  -- A page that is no error response advances over the rows of the table.
  pub page_after-Advance :
      0 < l.limit
      → (after : Option String) (page : Fields) → page_after l after ≡ ok page
      → ((fs : Fields) × (page ≡ error_of fs)) ⊎ Advance l after page
  unfolding candidate_page
  page_after-Advance some_room after page done =
      let batch = take max_scan_budget (remaining l after) in
      let more = not (is_empty (drop max_scan_budget (remaining l after))) in
      let found =
        admit_page-IsPage l.rules "candidates" l.limit l.make_cursor (refl, refl) l.envelope
          (scans after) (elim after [ none ↦ none | some id ↦ some (("candidate_id", id) ∷ []) ])
          (refl, refl, refl, refl, refl)
          (subst (IsAhead none) (sym (scans-lazy after)) (
            lazy_rows-IsAhead l.calendar_date l.candidate_list_item l.date_from l.date_to batch
              more))
          (subst (All HasPosition) (sym (scans-lazy after)) (
            lazy_rows-HasPosition l.calendar_date l.candidate_list_item l.date_from l.date_to batch
              more))
          some_room page done in
      elim found [
        | inl refusal ↦ inl refusal
        | inr (within_budget, cut) ↦ inr (Cut-Advance after page cut)
      ]
