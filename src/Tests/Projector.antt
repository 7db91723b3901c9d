-- ===== src/Tests/Projector.antt =====
-- Concrete projections of candidates.
use work_trace.Prelude.{String, false, not, ◌&&◌, none, [], ◌∷◌, keep_if, ◌≡◌, ◌↔◌, refl}
use work_trace.Prelude.Texts.{◌==◌, elem, lookup, put, sorted}
use work_trace.Errors.{err, not_found}
use work_trace.Json.{Json}
use work_trace.Decisions.Ledger.{Ledger, select_row}
use work_trace.Decisions.Compensation.{active_decisions}
use work_trace.Candidates.Projector.{Group, Store, owned, stored_members, find_group}
use work_trace.Candidates.Projector.Fold.{apply_all, initial, project_over}
use work_trace.Candidates.Projector.View.{
  CandidateView, keys, has_current, eligible_ids, view_of, project_group, project_candidate,
}
use work_trace.Candidates.Projector.Support.{
  IsShown, project_group-IsShown, project_group-not_found_iff,
}
use work_trace.Candidates.Projector.Undone.{project_candidate-undo}
use work_trace.Tests.Decisions.{env, ledger, ledger_after, undo_run}

abbrev group : Group
group = record {
  id = "candidate:1";
  app_id = "app";
  seed_object_id = "obj:1";
  status = "suggested";
}

abbrev store : Store
store = record {
  groups = group ∷ [];
  candidate_members =
      record {
        candidate_id = "candidate:1";
        source_object_id = "obj:1";
        member = record { reason = "seed"; context_only = false };
      }
      ∷ [];
  current =
      (
        "obj:1",
        record { source = "jira"; kind = "jira_issue"; external_id = "A-1"; title = "Sync" },
      )
      ∷ [];
}

abbrev with_objects : Ledger
with_objects = record ledger { source_objects = ("obj:1", "app") ∷ [] }

abbrev same_text : String → String
same_text s = s

abbrev no_text : Json → String
no_text j = ""

abbrev shown : CandidateView
shown =
    view_of same_text same_text same_text no_text with_objects store group []
      (project_over no_text with_objects store group none [])

project_group-IsShown_example :
    IsShown store.current (project_over no_text with_objects store group none []) shown
unfolding project_group project_over initial apply_all stored_members owned lookup put eligible_ids
    has_current keep_if sorted
project_group-IsShown_example =
    project_group-IsShown same_text same_text same_text no_text with_objects store none group []
      shown refl

project_group-not_found_iff_example :
    (project_group same_text same_text same_text no_text ledger store none group []
      ≡ err (not_found "candidate has no authoritative current evidence"))
    ↔ ((((project_over no_text ledger store group none []).status == "confirmed") ≡ false)
        × ((id : String)
            → (elem id (keys (project_over no_text ledger store group none []).members)
                && has_current store.current id)
              ≡ false))
project_group-not_found_iff_example =
    project_group-not_found_iff same_text same_text same_text no_text ledger store none group []

project_candidate-undo_example :
    project_candidate same_text same_text same_text no_text ledger_after store none "candidate:1"
    ≡ project_group same_text same_text same_text no_text ledger store none group
        (keep_if (λ x. not ("decision:1" == x.id)) (active_decisions ledger "candidate:1"))
unfolding find_group select_row
project_candidate-undo_example =
    project_candidate-undo same_text same_text same_text no_text store env ledger "decision:1"
      "candidate:1" group (refl, tt) refl undo_run refl
