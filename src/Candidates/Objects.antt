-- ===== src/Candidates/Objects.antt =====
-- What candidates/builder.py reads: the current observations, the authoritative references and the
-- roles of the actor who is oneself, the edges it walks, and the objects that qualify as seeds.
use work_trace.Prelude.{
  ℕ, ◌=?◌, String, Bool, true, false, not, ◌||◌, ◌&&◌, Option, none, some, List, [], ◌∷◌,
  if◌then◌else◌, any, is_some,
}
use work_trace.Prelude.Texts.{◌==◌, elem, add, update, lookup, put}
use work_trace.Json.{Json, bool, int, float, pos, Fields, get, texts}
use work_trace.Participation.{
  canonical_role, categories_for, has_category, supports_category, ParticipationCategory,
}
use text.Mathlib.Text.{find?}

-- A row of the current observations of the app, with its parsed data_json as the payload. The identifiers are the
-- keys of a dictionary in the source, and differ.
pub record Observed : Type 0 where
  pub source_object_id : String
  pub kind : String
  pub external_id : String
  pub title : Option String
  pub payload : Fields

pub record Reference : Type 0 where
  pub from_object_id : String
  pub to_object_id : String
  pub relationship_type : String

-- A row of the participations of oneself: the object, its source and kind, and the reported role.
pub record RoleRow : Type 0 where
  pub source_object_id : String
  pub source : String
  pub kind : String
  pub role : String

abbrev pub structural : List String
structural =
    "mr_contains_commit" ∷ "commit_introduced_by_mr" ∷ "mr_uses_source_branch" ∷ "jira_subtask_of"
    ∷ "git_reverts_commit" ∷ "git_cherry_picks_commit" ∷ "deployment_contains_sha"
    ∷ "tag_points_to_commit" ∷ "gitlab_mr_commit" ∷ "gitlab_mr_discussion"
    ∷ "gitlab_mr_changed_paths" ∷ "jira_comment_issue" ∷ "jira_changelog_issue" ∷ []

abbrev pub context_only : List String
context_only =
    "mentions_jira_key" ∷ "contains_explicit_url" ∷ "mentions_commit_sha" ∷ "mentions_mr"
    ∷ "jira_links_to_issue" ∷ "jira_hierarchy_context" ∷ []

unfoldable pub find_object : String → List Observed → Option Observed
find_object id [] = none
find_object id (o ∷ os) = if o.source_object_id == id then some o else find_object id os

-- `data[target].get("boundary_context") is True`
unfoldable pub is_boundary : Observed → Bool
unfolding get
is_boundary o = elim (get "boundary_context" o.payload) [ bool b ↦ b | _ ↦ false ]

-- `value == 1`, which Python says of True and of 1.0 too.
unfoldable pub equals_one : Json → Bool
equals_one (bool b) = b
equals_one (int (pos n)) = n =? 1
equals_one (float text) = text == "1.0"
equals_one _ = false

abbrev pub historical_selections : List String
historical_selections = "historical_updater" ∷ "historical_assignee" ∷ "creator_created" ∷ []

-- The importer writes selected_by as a list of texts.
unfoldable pub is_historical : Fields → Bool
unfolding get texts elem any equals_one
is_historical payload =
    equals_one (get "activity_policy_version" payload)
    && any (λ by. elem by historical_selections) (texts (get "selected_by" payload))

-- `{id for row in references for id in (row.from, row.to)}`
unfoldable pub linked_ids : List Reference → List String → List String
unfolding update
linked_ids [] ids = ids
linked_ids (r ∷ rs) ids = linked_ids rs (update (r.from_object_id ∷ r.to_object_id ∷ []) ids)

-- `roles.get(object_id, set())`
unfoldable pub roles_at : String → List (String × List String) → List String
unfolding lookup
roles_at id roles = elim (lookup id roles) [ some names ↦ names | none ↦ [] ]

module _ (casefold strip lower : String → String) where
  -- The loop of `_self_roles`.
  unfoldable pub self_roles :
      List RoleRow → List (String × List String) → List (String × List String)
  unfolding put roles_at add
  self_roles [] roles = roles
  self_roles (r ∷ rs) roles = self_roles rs (
      put r.source_object_id
        (add (canonical_role casefold strip r.source r.kind r.role)
          (roles_at r.source_object_id roles))
        roles)

  unfoldable pub has_review_role : String → List String → Bool
  unfolding any
  has_review_role kind names =
      any
        (λ role.
          let categories = categories_for casefold strip "gitlab" kind role in
          has_category ParticipationCategory.reviewed categories
          || has_category ParticipationCategory.assigned categories)
        names

  unfoldable pub implements : String → List String → Bool
  unfolding any
  implements kind names =
      any
        (λ role. supports_category casefold strip "git" kind role ParticipationCategory.implemented)
        names

  unfoldable pub is_empty_set : List String → Bool
  is_empty_set [] = true
  is_empty_set (x ∷ xs) = false

  unfoldable pub qualifies : List (String × List String) → List String → Observed → Bool
  unfolding roles_at elem is_empty_set
  qualifies roles linked o =
      let names = roles_at o.source_object_id roles in
      (o.kind == "jira_issue"
        && (not (is_empty_set names)
            || (elem o.source_object_id linked || is_historical o.payload)))
      || ((o.kind == "gitlab_mr" && (elem "mr_author" names || has_review_role o.kind names))
          || ((o.kind == "git_commit" && implements o.kind names) || o.kind == "manual_evidence"))

  -- `suggest_contribution_type`, where `text in title` asks for a substring.
  unfoldable pub mentions : List String → String → Bool
  unfolding any
  mentions words title = any (λ word. is_some (find? title word)) words

  unfoldable pub suggest_contribution_type : String → String → String
  suggest_contribution_type kind title =
      let lowered = lower title in
      if mentions ("bug" ∷ "fix" ∷ "crash" ∷ []) lowered
      then "bug_fix"
      else if mentions ("hotfix" ∷ "production" ∷ []) lowered
      then "hotfix"
      else if mentions ("migrat" ∷ "upgrade" ∷ []) lowered
      then "migration"
      else if mentions ("metric" ∷ "observ" ∷ "logging" ∷ []) lowered
      then "observability"
      else if kind == "manual_evidence"
      then "unknown"
      else if kind == "jira_issue" || kind == "gitlab_mr"
      then "feature"
      else "unknown"

-- The sort key of a seed: its priority and its external_id.
unfoldable pub seed_priority : String → ℕ
seed_priority kind =
    if kind == "jira_issue"
    then 0
    else if kind == "gitlab_mr"
    then 1
    else if kind == "git_commit"
    then 2
    else if kind == "manual_evidence"
    then 3
    else 99
