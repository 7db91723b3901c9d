-- ===== src/Candidates/Groups.antt =====
-- The groups that `rebuild_candidates` stores: what a search keeps, and the loop over the seeds.
pub mod Retained
pub mod Partition
pub mod Exact
use work_trace.Prelude.{
  ℕ, ltb, ◌=?◌, String, Bool, true, false, not, ◌||◌, ◌&&◌, Option, none, some, List, [], ◌∷◌, ◌++◌,
  if◌then◌else◌, length, take, keep_if, map,
}
use work_trace.Prelude.Texts.{◌==◌, elem, update, sorted, text_le}
use work_trace.Errors.{Result, ok, err, out_of_fuel}
use work_trace.Decisions.Ledger.{bump_revision}
use work_trace.Candidates.Objects.{
  Observed, Reference, RoleRow, self_roles, qualifies, linked_ids, seed_priority, find_object,
  suggest_contribution_type,
}
use work_trace.Candidates.Search.{Search, search_from, max_members, max_context}

-- A row of candidate_groups with its rows of candidate_members: the members, of which the seed has
-- the reason "seed" and the others "structural_reference", and the context.
pub record CandidateGroup : Type 0 where
  pub id : String
  pub app_id : String
  pub seed_object_id : String
  pub suggested_title : String
  pub suggested_type : String
  pub status : String
  pub members : List String
  pub context : List String

-- `[seed, *sorted(members - {seed})][:MAX_MEMBERS]`
unfoldable pub retained_members : String → List String → List String
unfolding sorted keep_if
retained_members seed members =
    take max_members (seed ∷ sorted (keep_if (λ m. not (m == seed)) members))

-- `set(sorted(context - members)[:MAX_CONTEXT])`
unfoldable pub retained_context : List String → List String → List String
unfolding sorted keep_if
retained_context context members =
    take max_context (sorted (keep_if (λ c. not (elem c members)) context))

-- `str(row["title"] or row["external_id"])`
unfoldable pub title_of : Observed → String
title_of o = elim o.title [
  | none ↦ o.external_id
  | some title ↦ if title == "" then o.external_id else title
]

-- The order of the seeds: by priority, then by external_id; Python's sort is stable.
unfoldable pub seed_le : Observed → Observed → Bool
unfolding seed_priority
seed_le a b =
    ltb (seed_priority a.kind) (seed_priority b.kind)
    || ((seed_priority a.kind =? seed_priority b.kind) && text_le a.external_id b.external_id)

unfoldable pub insert_seed : Observed → List Observed → List Observed
insert_seed o [] = o ∷ []
insert_seed o (p ∷ ps) = if seed_le o p then o ∷ p ∷ ps else p ∷ insert_seed o ps

unfoldable pub sort_seeds : List Observed → List Observed
sort_seeds [] = []
sort_seeds (o ∷ os) = insert_seed o (sort_seeds os)

-- The state that a rebuild changes: the stored groups and the revisions of the apps.
pub record GroupStore : Type 0 where
  pub groups : List CandidateGroup
  pub read_revision : List (String × ℕ)

-- Python's `casefold`, `strip` and `lower`, and `stable_id("candidate", app, seed)`.
pub record Texts : Type 0 where
  pub casefold : String → String
  pub strip : String → String
  pub lower : String → String
  pub stable_id : String → String → String

module _ (texts : Texts) (app : String) (objects : List Observed)
    (references : List Reference) where
  unfoldable pub group_of : Observed → Search → CandidateGroup
  group_of seed found =
      let members = retained_members seed.source_object_id found.members in
      record {
        id = texts.stable_id app seed.source_object_id;
        app_id = app;
        seed_object_id = seed.source_object_id;
        suggested_title = title_of seed;
        suggested_type =
            suggest_contribution_type texts.casefold texts.strip texts.lower seed.kind
              (title_of seed);
        status = if found.overflow then "needs_manual_narrowing" else "candidate";
        members = members;
        context = retained_context found.context members;
      }

  -- The loop over the seeds, with `used_structural`.
  unfoldable pub groups_from : List Observed → List String → Result (List CandidateGroup)
  groups_from [] used = ok []
  groups_from (seed ∷ seeds) used = elim (elem seed.source_object_id used) [
    | true ↦ groups_from seeds used
    | false ↦ elim (search_from objects references seed.source_object_id) [
      | none ↦ err out_of_fuel
      | some found ↦
          let group = group_of seed found in
          elim (groups_from seeds (update group.members used)) [
            | ok rest ↦ ok (group ∷ rest)
            | err e ↦ err e
          ]
    ]
  ]

  unfoldable pub seeds_of : List RoleRow → List Observed
  seeds_of participations =
      let roles = self_roles texts.casefold texts.strip texts.lower participations [] in
      let linked = linked_ids references [] in
      sort_seeds
        (keep_if (λ o. qualifies texts.casefold texts.strip texts.lower roles linked o) objects)

  -- The rebuild, in one transaction, with the count of the stored groups that it returns.
  unfoldable pub rebuild_candidates : List RoleRow → GroupStore → Result (GroupStore × ℕ)
  rebuild_candidates participations store = elim (groups_from (seeds_of participations) []) [
    | err e ↦ err e
    | ok groups ↦
        let kept = keep_if (λ g. not (g.app_id == app)) store.groups in
        let stored = kept ++ groups in
        ok (
          record { groups = stored; read_revision = bump_revision app store.read_revision },
          length (keep_if (λ g. g.app_id == app) stored),
        )
  ]
