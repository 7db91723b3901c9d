-- ===== src/Candidates/Groups/Partition.antt =====
-- The groups of a whole rebuild: their bounds, their members, and how they stand to each other.
use work_trace.Prelude.{
  ◌≤◌, String, true, false, not, ◌≡◌, refl, sym, some, List, [], ◌∷◌, ◌++◌, length, keep_if, All,
  arith, Bool-cases, inl, inr,
}
use mathlib.Core.Path.{subst, subst⁻¹}
use mathlib.Core.Bool.{true≢false}
use work_trace.Prelude.Texts.{◌==◌, eq_iff, elem, update, elem-update}
use work_trace.Errors.{Result, ok}
use work_trace.Decisions.Ledger.{bump_revision}
use work_trace.Candidates.Objects.{Observed, Reference, RoleRow}
use work_trace.Candidates.Search.{Search, search_from}
use work_trace.Candidates.Search.Bounds.{search_from_ends}
use work_trace.Candidates.Search.Path.{Linked, IsNear, Near, Found, search_from-Explained}
use work_trace.Candidates.Groups.Retained.{
  All-of_elem, retained_context-Apart, retained_members-seed, elem-retained_members,
  length-retained_members, length-retained_context,
}
use work_trace.Candidates.Groups.{
  CandidateGroup, GroupStore, Texts, group_of, groups_from, seeds_of, rebuild_candidates,
  retained_members,
}

module _ (objects : List Observed) (references : List Reference) where
  pub Near-elem :
      (seed x : String) (xs : List String)
      → Near objects references seed xs
      → elem x xs ≡ true
      → IsNear objects references seed x
  unfolding elem
  Near-elem seed x [] near h = elim (true≢false (sym h)) [ ]
  Near-elem seed x (y ∷ ys) (n, near) h = elim (Bool-cases (y == x)) [
    | inl e ↦ subst (IsNear objects references seed) ((eq_iff y x).0 e) n
    | inr e ↦ Near-elem seed x ys near (ground (arith, e, h))
  ]

  retained_members-Near :
      (seed : String) (members : List String)
      → Near objects references seed members
      → All (IsNear objects references seed) (retained_members seed members)
  unfolding elem
  retained_members-Near seed members near = All-of_elem _ _ (λ x h.
      Near-elem seed x (seed ∷ members) ((0, omega arith, Linked.here), near)
        (elem-retained_members x seed members h))

  -- A group within the bounds, all of whose members are near its seed.
  abbrev pub IsFit : String → CandidateGroup → Type 0
  IsFit app g =
      (g.app_id ≡ app)
      × (elem g.seed_object_id g.members ≡ true)
      × (length g.members ≤ 200)
      × (length g.context ≤ 50)
      × All (λ c. elem c g.members ≡ false) g.context
      × All (IsNear objects references g.seed_object_id) g.members

  group_of-IsFit :
      (texts : Texts) (app : String) (seed : Observed) (found : Search)
      → Near objects references seed.source_object_id found.members
      → IsFit app (group_of texts app objects references seed found)
  unfolding group_of
  group_of-IsFit texts app seed found near =
      let members = retained_members seed.source_object_id found.members in
      (
        refl,
        retained_members-seed seed.source_object_id found.members,
        length-retained_members seed.source_object_id found.members,
        length-retained_context found.context members,
        retained_context-Apart found.context members,
        retained_members-Near seed.source_object_id found.members near,
      )

  -- No later group starts at a member of an earlier one.
  abbrev pub Apart : List CandidateGroup → Type 0
  Apart [] = Unit
  Apart (g ∷ gs) = All (λ h. elem h.seed_object_id g.members ≡ false) gs × Apart gs

  abbrev Built : String → List String → Result (List CandidateGroup) → Type 0
  Built app used result =
      (groups : List CandidateGroup) × (result ≡ ok groups)
      × All (IsFit app) groups
      × All (λ g. elem g.seed_object_id used ≡ false) groups
      × Apart groups

  group_of-seed :
      (texts : Texts) (app : String) (seed : Observed) (found : Search) (used : List String)
      → elem seed.source_object_id used ≡ false
      → elem (group_of texts app objects references seed found).seed_object_id used ≡ false
  unfolding group_of
  group_of-seed texts app seed found used h = h

  fresh_used :
      (members used : List String) (groups : List CandidateGroup)
      → All (λ g. elem g.seed_object_id (update members used) ≡ false) groups
      → All (λ g. elem g.seed_object_id used ≡ false) groups
  fresh_used members used [] h = tt
  fresh_used members used (g ∷ gs) (h, hs) =
      (ground (arith, h, elem-update g.seed_object_id members used), fresh_used members used gs hs)

  fresh_members :
      (members used : List String) (groups : List CandidateGroup)
      → All (λ g. elem g.seed_object_id (update members used) ≡ false) groups
      → All (λ g. elem g.seed_object_id members ≡ false) groups
  fresh_members members used [] h = tt
  fresh_members members used (g ∷ gs) (h, hs) = (
    ground (arith, h, elem-update g.seed_object_id members used),
    fresh_members members used gs hs,
  )

  module _ (texts : Texts) (app : String) (seed : Observed) (seeds : List Observed)
      (used : List String) where
    groups_from-skip :
        elem seed.source_object_id used ≡ true
        → groups_from texts app objects references (seed ∷ seeds) used
          ≡ groups_from texts app objects references seeds used
    unfolding groups_from
    groups_from-skip e = ground (arith, e)

    groups_from-new :
        (found : Search) (rest : List CandidateGroup)
        → elem seed.source_object_id used ≡ false
        → search_from objects references seed.source_object_id ≡ some found
        → groups_from texts app objects references seeds
            (update (group_of texts app objects references seed found).members used)
          ≡ ok rest
        → groups_from texts app objects references (seed ∷ seeds) used
          ≡ ok (group_of texts app objects references seed found ∷ rest)
    unfolding groups_from
    groups_from-new found rest e s r = ground (arith, e, s, r)

  groups_from-Built :
      (texts : Texts) (app : String) (seeds : List Observed) (used : List String)
      → Built app used (groups_from texts app objects references seeds used)
  unfolding groups_from
  groups_from-Built texts app [] used = ([], refl, tt, tt, tt)
  groups_from-Built texts app (seed ∷ seeds) used =
      elim (Bool-cases (elem seed.source_object_id used)) [
        | inl e ↦
            subst⁻¹ (Built app used) (groups_from-skip texts app seed seeds used e)
              (groups_from-Built texts app seeds used)
        | inr e ↦
            let id = seed.source_object_id in
            let (found, total, searched, bounded, ended) = search_from_ends objects references id in
            let near =
              subst (Found objects references id) searched
                (search_from-Explained objects references id) in
            let group = group_of texts app objects references seed found in
            let (rest, built, fit, fresh, apart) =
              groups_from-Built texts app seeds (update group.members used) in
            (
              group ∷ rest,
              groups_from-new texts app seed seeds used found rest e searched built,
              (group_of-IsFit texts app seed found near.0, fit),
              (group_of-seed texts app seed found used e, fresh_used group.members used rest fresh),
              (fresh_members group.members used rest fresh, apart),
            )
      ]

  stored_count :
      (app : String) (store groups : List CandidateGroup)
      → All (IsFit app) groups
      → length
          (keep_if (λ g. g.app_id == app) (keep_if (λ g. not (g.app_id == app)) store ++ groups))
        ≡ length groups
  unfolding keep_if
  stored_count app [] [] h = refl
  stored_count app [] (g ∷ gs) ((e, _, _, _, _, _), hs) =
      ground (arith, eq_iff g.app_id app, e, stored_count app [] gs hs)
  stored_count app (s ∷ store) groups h = ground (arith, stored_count app store groups h)

rebuild_of_groups :
    (texts : Texts) (app : String) (objects : List Observed) (references : List Reference)
    (participations : List RoleRow) (store : GroupStore) (groups : List CandidateGroup)
    → groups_from texts app objects references
        (seeds_of texts app objects references participations)
        []
      ≡ ok groups
    → length (
        keep_if
          (λ g. g.app_id == app)
          (keep_if (λ g. not (g.app_id == app)) store.groups ++ groups))
      ≡ length groups
    → rebuild_candidates texts app objects references participations store
      ≡ ok (
        record {
          groups = keep_if (λ g. not (g.app_id == app)) store.groups ++ groups;
          read_revision = bump_revision app store.read_revision;
        },
        length groups,
      )
unfolding rebuild_candidates
rebuild_of_groups texts app objects references participations store groups built counted =
    ground (arith, built, counted)

-- A rebuild always ends: it replaces the groups of its app, keeps those of the others, raises the
-- revision of the app, and returns the count of the new groups. Each new group has its seed as a
-- member, at most 200 members, all within three followed structural references of the seed, and at
-- most 50 context objects, none of them a member; no group starts at a member of an earlier one.
pub rebuild_candidates-Built :
    (texts : Texts) (app : String) (objects : List Observed) (references : List Reference)
    (participations : List RoleRow) (store : GroupStore)
    → (groups : List CandidateGroup) × (rebuild_candidates texts app objects references
          participations store
        ≡ ok (
          record {
            groups = keep_if (λ g. not (g.app_id == app)) store.groups ++ groups;
            read_revision = bump_revision app store.read_revision;
          },
          length groups,
        ))
      × All (IsFit objects references app) groups
      × Apart objects references groups
rebuild_candidates-Built texts app objects references participations store =
    let (groups, built, fit, fresh, apart) =
      groups_from-Built objects references texts app
        (seeds_of texts app objects references participations) [] in
    (
      groups,
      rebuild_of_groups texts app objects references participations store groups built
          (stored_count objects references app store.groups groups fit),
      fit,
      apart,
    )
