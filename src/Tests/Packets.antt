-- ===== src/Tests/Packets.antt =====
-- A concrete release ladder, and the dated activity of a commented issue.
use work_trace.Prelude.{
  ◌⊎◌, ℕ, ◌+◌, String, Bool, true, false, Option, none, some, is_some, List, [], ◌∷◌, All, ◌≡◌, ◌↔◌,
  refl, arith, if◌then◌else◌,
}
use work_trace.Prelude.Texts.{◌==◌}
use work_trace.Json.{Json, str, end, field}
use work_trace.Errors.{Result, ok, err, pattern_error}
use work_trace.Packets.Release.{EvidenceRecord, HumanAttestation, Ladder, build_release_ladder}
use work_trace.Packets.Release.Evidence.{IsGrounded, RaisesPattern, build_release_ladder-IsGrounded}
use work_trace.Packets.Periods.{ActivityPeriod, matches}
use work_trace.Packets.Activity.{activity_period}
use work_trace.Packets.Activity.Bounds.{IsWithin, activity_period-IsWithin}
use work_trace.Packets.Activity.Origins.{IsOrigin, activity_period-IsOrigin}

abbrev same_text : String → String
same_text s = s

abbrev no_text : Json → String
no_text j = ""

abbrev merge_request : Bool → EvidenceRecord
merge_request context = record {
  observation_id = "obs:1";
  object_id = "obj:1";
  source = "gitlab";
  kind = "gitlab_mr";
  external_id = "1";
  content = field "state" (str "merged") end;
  context_only = context;
}

abbrev statement : HumanAttestation
statement = record { decision_id = "decision:1"; claim = "current_use"; statement = "In use." }

-- A pattern is matched as it stands, and "*" is no regular expression.
abbrev equal_tags : String → String → Option Bool
equal_tags value pattern_of =
    if value == pattern_of then some true else if pattern_of == "*" then none else some false

abbrev ladder : Result Ladder
ladder =
    build_release_ladder same_text no_text equal_tags
      (merge_request true ∷ merge_request false ∷ []) end (statement ∷ []) ("production" ∷ [])
      ("v*" ∷ [])

build_release_ladder-IsGrounded_example :
    ((ladder ≡ err pattern_error) × RaisesPattern same_text no_text equal_tags ("v*" ∷ []))
    ⊎ ((l : Ladder) × (ladder ≡ ok l)
        × IsGrounded same_text no_text equal_tags
            (merge_request true ∷ merge_request false ∷ [])
            (statement ∷ [])
            l)
build_release_ladder-IsGrounded_example =
    build_release_ladder-IsGrounded same_text no_text equal_tags
      (merge_request true ∷ merge_request false ∷ []) end (statement ∷ []) ("production" ∷ [])
      ("v*" ∷ [])

-- An issue that was created before the first day, and commented on that day.
abbrev day_start : String → ℕ
day_start s = if s == "monday" then 10 else 20

abbrev day_end : String → ℕ
day_end s = day_start s + 10

abbrev time_of : String → Option ℕ
time_of s = if s == "early" then some 5 else some 12

abbrev issue : EvidenceRecord
issue = record {
  observation_id = "obs:issue";
  object_id = "obj:issue";
  source = "jira";
  kind = "jira_issue";
  external_id = "7";
  content = field "created_at" (str "early") end;
  context_only = false;
}

abbrev comment : EvidenceRecord
comment = record {
  observation_id = "obs:comment";
  object_id = "obj:comment";
  source = "jira";
  kind = "jira_issue_comment";
  external_id = "8";
  content = field "created_at" (str "noon") end;
  context_only = false;
}

abbrev comments : EvidenceRecord → List EvidenceRecord
comments r = if r.kind == "jira_issue" then comment ∷ [] else []

abbrev issue_activity : ActivityPeriod
issue_activity = activity_period day_start day_end time_of comments "monday" "tuesday" (issue ∷ [])

activity_period-IsWithin_example :
    IsWithin 10 30 issue_activity.start issue_activity.end
    × ((issue_activity.status ≡ "unknown") ↔ (issue_activity.start ≡ none))
    × (matches day_start day_end (some "monday") (some "tuesday") issue_activity
        ≡ is_some issue_activity.start)
activity_period-IsWithin_example =
    activity_period-IsWithin day_start day_end time_of comments "monday" "tuesday" (issue ∷ []) refl
      refl (omega arith)

activity_period-IsOrigin_example : All (IsOrigin comments (issue ∷ [])) issue_activity.evidence_ids
activity_period-IsOrigin_example =
    activity_period-IsOrigin day_start day_end time_of comments "monday" "tuesday" (issue ∷ [])
