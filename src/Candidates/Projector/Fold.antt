-- ===== src/Candidates/Projector/Fold.antt =====
-- candidates/projector.py: the loop of `project_candidate` over the active decisions.
use work_trace.Prelude.{
  String, Bool, false, not, ◌||◌, ◌&&◌, Option, none, some, is_some, List, [], ◌∷◌, if◌then◌else◌,
  keep_if,
}
use work_trace.Prelude.Texts.{◌==◌, elem, lookup, put}
use work_trace.Json.{Json, get, as_text}
use work_trace.Decisions.Ledger.{Ledger, Decision, is_creation}
use work_trace.Decisions.Compensation.{active_decisions}
use work_trace.Decisions.Scope.{creation_decision_scope_app}
use work_trace.Decisions.Context.{Context, for_target}
use work_trace.Candidates.Projector.{
  Group, Member, MemberRow, Store, Apps, remove, owned, stored_members, text_in, list_at,
  text_list_at, snapshot, merge_all, Projection, or_previous, with_texts, with_members, with_status,
}

module _ (str_of : Json → String) (objects candidates : Apps) (rows : List MemberRow)
    (scope : Decision → Option String) (app_id : String) where
  unfoldable pub is_creation_event : Decision → Bool
  is_creation_event d = is_creation d.action && is_some (as_text (get "contribution_id" d.payload))

  same_app : Option String → Bool
  same_app none = false
  same_app (some app) = app == app_id

  or_empty : Option (List String) → List String
  or_empty none = []
  or_empty (some ids) = ids

  unfoldable pub confirm : Decision → Projection → Projection
  unfolding or_empty
  confirm d p = with_texts d.payload (
      with_status "confirmed" (elim (text_list_at (get "members" d.payload)) [
        | none ↦ p
        | some members ↦
            with_members
              (snapshot objects app_id members
                (or_empty (text_list_at (get "context_members" d.payload))))
              p
      ]))

  with_added : String → Projection → Projection
  with_added id p =
      if owned objects app_id id
      then with_members (put id (record { reason = "human_added"; context_only = false }) p.members)
          p
      else p

  keep_members : Option (List String) → Projection → Projection
  keep_members none p = p
  keep_members (some allowed) p =
      with_members (keep_if (λ (entry : String × Member). elem entry.0 allowed) p.members) p

  -- One round of the loop over the decisions.
  unfoldable pub apply_decision : Decision → Projection → Projection
  unfolding same_app with_added keep_members or_empty
  apply_decision d p =
      if (d.action == "confirm") || is_creation_event d
      then (if is_creation_event d && not (same_app (scope d)) then p else confirm d p)
      else if elem d.action ("ignore" ∷ "ignore_candidate" ∷ [])
      then with_status "ignored" p
      else if elem d.action ("rename" ∷ "rename_contribution" ∷ [])
      then with_texts d.payload p
      else if d.action == "set_contribution_type"
      then record {
        human_title = p.human_title;
        human_type = or_previous (as_text (get "type" d.payload)) p.human_type;
        status = p.status;
        members = p.members;
      }
      else if d.action == "add_member"
      then with_added (text_in str_of "source_object_id" d.payload) p
      else if d.action == "remove_member"
      then with_members (remove (text_in str_of "source_object_id" d.payload) p.members) p
      else if elem d.action ("merge" ∷ "merge_contributions" ∷ [])
      then with_members
          (merge_all objects candidates rows app_id
            (or_empty (list_at str_of (get "candidate_ids" d.payload))) p.members)
          p
      else if elem d.action ("split" ∷ "split_contribution" ∷ [])
      then keep_members (list_at str_of (get "keep_source_object_ids" d.payload)) p
      else p

  unfoldable pub apply_all : List Decision → Projection → Projection
  apply_all [] p = p
  apply_all (d ∷ ds) p = apply_all ds (apply_decision d p)

module _ (str_of : Json → String) (db : Ledger) (s : Store) (group : Group) where
  -- The scope of a creation event: from the context, or computed.
  unfoldable pub scope_of : Option Context → Decision → Option String
  scope_of none d = creation_decision_scope_app db group.id d.payload
  scope_of (some context) d = elim (lookup d.id context.decision_scopes) [
    | some scope ↦ scope
    | none ↦ none
  ]

  unfoldable pub initial : Projection
  initial = record {
    human_title = none;
    human_type = none;
    status = group.status;
    members = stored_members db.source_objects group.app_id group.id s.candidate_members [];
  }

  unfoldable pub decisions_for : Option Context → List Decision
  decisions_for none = active_decisions db group.id
  decisions_for (some context) = for_target context group.id

  -- The loop over given decisions.
  unfoldable pub project_over : Option Context → List Decision → Projection
  project_over context decisions =
      apply_all str_of db.source_objects db.candidate_groups s.candidate_members (scope_of context)
        group.app_id decisions initial
