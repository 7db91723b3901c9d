-- ===== src/Packets/Activity.antt =====
-- packets/activity.py: the dated activity of records. A time is a number of microseconds since some
-- start. The parameters read a time, with its zone, from a text (`read_time`), and give the midnight
-- in the work zone that begins a date (`midnight`) and the one that ends it (`midnight_after`); no
-- time leaves the range of datetime.
pub mod Rounds
pub mod Bounds
pub mod Origins
use work_trace.Prelude.{
  ℕ, ◌+◌, min, max, ltb, leb, String, Bool, true, false, not, ◌||◌, ◌&&◌, Option, none, some,
  is_some, List, [], ◌∷◌, map, if◌then◌else◌, keep_if,
}
use work_trace.Prelude.Texts.{◌==◌, elem, add, sorted}
use work_trace.Json.{Json, null, bool, str, arr, obj, Items, nil, cons, Fields, get, non_empty}
use work_trace.Server.Values.{truthy}
use work_trace.Packets.Periods.{ActivityPeriod}
use work_trace.Packets.Release.{EvidenceRecord}

-- The variables `earliest`, `latest` and `evidence`.
pub record Seen : Type 0 where
  pub earliest : Option ℕ
  pub latest : Option ℕ
  pub evidence : List String

-- What `include` returns, with the variables after it.
pub record Included : Type 0 where
  pub included : Bool
  pub seen : Seen

-- The variables of `points`; `found` is the value that the caller joins it to.
pub record Points : Type 0 where
  pub found : Bool
  pub seen : Seen
  pub boundary_support : Option (List String)

-- The variables of the loop over the records.
pub record Reviewed : Type 0 where
  pub seen : Seen
  pub unknown : Bool

-- `min(earliest, start) if earliest else start`
unfoldable pub earlier_time : Option ℕ → ℕ → ℕ
earlier_time none start = start
earlier_time (some at) start = min at start

-- `max(latest, end) if latest else end`
unfoldable pub later_time : Option ℕ → ℕ → ℕ
later_time none end = end
later_time (some at) end = max at end

-- `evidence.add(record.evidence_id)`
unfoldable pub with_evidence : EvidenceRecord → Seen → Seen
with_evidence r seen = record seen { evidence = add r.observation_id seen.evidence }

-- `boundary_support.add(start_id)` of a text, where there is such a set.
unfoldable pub with_support : Json → Option (List String) → Option (List String)
with_support (str s) (some ids) = some (add s ids)
with_support _ support = support

unfoldable pub noted : Included → Json → Points → Points
noted i start_id p = record {
  found = i.included || p.found;
  seen = i.seen;
  boundary_support =
      if i.included then with_support start_id p.boundary_support else p.boundary_support;
}

-- `data.get("boundary_context") is True`
unfoldable pub is_boundary_context : Fields → Bool
is_boundary_context content = elim (get "boundary_context" content) [ bool b ↦ b | _ ↦ false ]

-- The dictionary of `points`.
unfoldable pub time_fields : String → List String
time_fields kind =
    if kind == "git_commit" || kind == "gitlab_merge_request_commit"
    then "authored_at" ∷ "committed_at" ∷ []
    else if kind == "jira_issue" || kind == "jira_issue_changelog"
    then "created_at" ∷ []
    else if kind == "jira_issue_comment" || kind == "gitlab_merge_request_discussion_note"
    then "created_at" ∷ "updated_at" ∷ []
    else if kind == "gitlab_mr" || kind == "merge_request"
    then "created_at" ∷ "merged_at" ∷ "closed_at" ∷ []
    else if kind == "gitlab_release" || kind == "release"
    then "created_at" ∷ "released_at" ∷ []
    else if kind == "gitlab_deployment" || kind == "git_deployment" || kind == "deployment"
    then "created_at" ∷ "finished_at" ∷ []
    else if kind == "gitlab_merge_request_reviewer_state"
    then "assigned_at" ∷ []
    else "occurred_at" ∷ "event_at" ∷ "created_at" ∷ []

-- The status that a period gets.
unfoldable pub status_of : Option ℕ → Bool → String
status_of none unknown = "unknown"
status_of (some at) unknown = if unknown then "partially_known" else "known"

module _ (lower upper : ℕ) where
  unfoldable pub clipped : EvidenceRecord → ℕ → ℕ → Seen → Seen
  clipped r start end seen = record {
    earliest = some (earlier_time seen.earliest (max start lower));
    latest = some (later_time seen.latest (min end upper));
    evidence = add r.observation_id seen.evidence;
  }

  unfoldable pub include_times : EvidenceRecord → ℕ → ℕ → Seen → Included
  include_times r start end seen =
      if leb end start || leb upper start || leb end lower
      then record { included = false; seen = seen }
      else record { included = true; seen = clipped r start end seen }

  -- `include`
  unfoldable pub include : EvidenceRecord → Option ℕ → Option ℕ → Seen → Included
  unfolding clipped include_times
  include r none end seen = record { included = false; seen = seen }
  include r (some start) none seen = record { included = false; seen = seen }
  include r (some start) (some end) seen = include_times r start end seen

  module _ (read_time : String → Option ℕ) where
    unfoldable pub timestamp : Json → Option ℕ
    timestamp (str s) = read_time s
    timestamp _ = none

    -- One round of the loop over the fields.
    unfoldable pub point : EvidenceRecord → Option ℕ → Points → Points
    point r none p = p
    point r (some at) p = noted (include r (some at) (some (at + 1)) p.seen) null p

    unfoldable pub time_points : EvidenceRecord → List String → Points → Points
    time_points r [] p = p
    time_points r (f ∷ fs) p = time_points r fs (point r (timestamp (get f r.content)) p)

    -- One round of the loop over the intervals.
    unfoldable pub interval_point : EvidenceRecord → Json → Points → Points
    interval_point r (obj fs) p =
        noted (include r (timestamp (get "from" fs)) (timestamp (get "to" fs)) p.seen)
          (get "start_history_id" fs) p
    interval_point r _ p = p

    unfoldable pub interval_points : EvidenceRecord → Items → Points → Points
    interval_points r nil p = p
    interval_points r (cons v vs) p = interval_points r vs (interval_point r v p)

    unfoldable pub assigned_points : EvidenceRecord → Json → Points → Points
    assigned_points r (arr vs) p = interval_points r vs p
    assigned_points r _ p = p

    -- `points`
    unfoldable pub points : EvidenceRecord → Points → Points
    points r p =
        assigned_points r (get "assignment_intervals" r.content)
          (if is_boundary_context r.content then p else time_points r (time_fields r.kind) p)

    -- The loop over the children of an issue.
    unfoldable pub child_points : List String → List EvidenceRecord → Points → Points
    child_points contextual [] p = p
    child_points contextual (c ∷ cs) p = child_points contextual cs (
        if (c.context_only || elem c.object_id contextual)
          && not (truthy (get "boundary_context" c.content))
        then p
        else points c p)

    -- `if boundary_support: for child in issue_children: ...`
    unfoldable pub add_supporting : List EvidenceRecord → List String → Seen → Seen
    add_supporting [] ids seen = seen
    add_supporting (c ∷ cs) ids seen =
        add_supporting cs ids (if elem c.external_id ids then with_evidence c seen else seen)

    unfoldable pub supported_by : List EvidenceRecord → Option (List String) → Seen → Seen
    supported_by cs none seen = seen
    supported_by cs (some ids) seen = add_supporting cs ids seen

    module _ (children : EvidenceRecord → List EvidenceRecord) where
      unfoldable pub issue_points : List String → EvidenceRecord → Points → Points
      issue_points contextual r p =
          let q = child_points contextual (children r) (record p { boundary_support = some [] }) in
          record q { seen = supported_by (children r) q.boundary_support q.seen }

      unfoldable pub record_points : List String → EvidenceRecord → Seen → Points
      record_points contextual r seen =
          let p = points r (record { found = false; seen = seen; boundary_support = none }) in
          if r.kind == "jira_issue" then issue_points contextual r p else p

      -- One round of the loop over the records.
      unfoldable pub review : List String → EvidenceRecord → Reviewed → Reviewed
      review contextual r state =
          if r.context_only || is_boundary_context r.content
          then state
          else let p = record_points contextual r state.seen in
            record { seen = p.seen; unknown = state.unknown || not p.found }

      unfoldable pub review_all : List String → List EvidenceRecord → Reviewed → Reviewed
      review_all contextual [] state = state
      review_all contextual (r ∷ rs) state = review_all contextual rs (review contextual r state)

      -- The end of `activity_period`.
      unfoldable pub period_of : Reviewed → ActivityPeriod
      period_of state = record {
        start = state.seen.earliest;
        end = state.seen.latest;
        status = status_of state.seen.earliest state.unknown;
        evidence_ids = sorted state.seen.evidence;
      }

      -- The loop over the records.
      unfoldable pub reviewed : List EvidenceRecord → Reviewed
      reviewed records =
          review_all (map (λ r. r.object_id) (keep_if (λ r. r.context_only) records)) records
            (record {
              seen = record { earliest = none; latest = none; evidence = [] };
              unknown = false;
            })

      unfoldable pub period_within : List EvidenceRecord → ActivityPeriod
      period_within records = period_of (reviewed records)

module _ (midnight midnight_after : String → ℕ) where
  unfoldable pub activity_period :
      (String → Option ℕ)
      → (EvidenceRecord → List EvidenceRecord)
      → String
      → String
      → List EvidenceRecord
      → ActivityPeriod
  activity_period read_time children first last records =
      period_within (midnight first) (midnight_after last) read_time children records
