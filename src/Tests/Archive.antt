-- ===== src/Tests/Archive.antt =====
-- Concrete changelogs of a Jira issue.
use work_trace.Prelude.{
  ℕ, String, true, Option, none, some, List, [], ◌∷◌, ◌≡◌, ◌↔◌, refl, arith, if◌then◌else◌,
}
use work_trace.Prelude.Texts.{◌==◌}
use work_trace.Json.{
  Json, str, arr, obj, nil, cons, Fields, end, field, get, as_object, as_text, non_empty,
}
use work_trace.Archive.Assignments.{
  Event, first_text, is_text, insert_event, sort_events, verdict, change_events, collect_histories,
  collect_pages, assignment_overlap,
}
use work_trace.Archive.Assignments.Timeline.{assigned_at, Held, assignment_overlap_iff}
use work_trace.Archive.Assignments.Boundary.{verdict-first_holder, verdict-unassigned}

abbrev read_time : Json → Option ℕ
read_time (str s) = if s == "monday" then some 1 else some 5
read_time _ = none

abbrev change : String → String → String → Json
change created from to = obj (
    field "created" (str created) (
      field "items"
        (arr (
          cons
            (obj
              (field "field" (str "assignee") (field "from" (str from) (field "to" (str to) end))))
            nil))
        end))

-- An issue goes from ann to bob, and later from bob to cid; the page holds the later change first.
abbrev pages : List Fields
pages =
    field "values"
      (arr (cons (change "friday" "bob" "cid") (cons (change "monday" "ann" "bob") nil))) end
    ∷ []

abbrev changes : List Event
changes =
    record { at = 1; before = some "ann"; after = some "bob" }
    ∷ record { at = 5; before = some "bob"; after = some "cid" }
    ∷ []

assignment_overlap_iff_example :
    (assignment_overlap read_time pages "bob" 3 9 ≡ "verified_overlap") ↔ Held "bob" 3 9 changes
unfolding collect_pages collect_histories change_events sort_events insert_event get as_object
    as_text non_empty is_text first_text
assignment_overlap_iff_example =
    assignment_overlap_iff read_time pages "bob" 3 9 refl (refl, omega arith, (refl, tt, tt))
      (omega arith)

verdict-first_holder_example :
    (assigned_at (some "ann") changes 0 ≡ some "ann")
    × (verdict "ann" 0 9 changes true ≡ "excluded")
verdict-first_holder_example =
    verdict-first_holder "ann" 0 9 (record { at = 1; before = some "ann"; after = some "bob" })
      (record { at = 5; before = some "bob"; after = some "cid" } ∷ []) refl (omega arith)
      (("bob", refl, refl), (("cid", refl, refl), tt))

abbrev dropped : Event
dropped = record { at = 2; before = some "ann"; after = none }

abbrev taken : Event
taken = record { at = 1; before = none; after = some "ann" }

verdict-unassigned_example :
    (assigned_at none (taken ∷ dropped ∷ []) 4 ≡ none)
    × (verdict "ann" 2 9 (taken ∷ dropped ∷ []) true ≡ "verified_overlap")
verdict-unassigned_example =
    verdict-unassigned "ann" 2 9 4 none (taken ∷ []) dropped (omega arith, tt) refl refl
      (omega arith) (omega arith) (omega arith)
