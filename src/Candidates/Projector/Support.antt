-- ===== src/Candidates/Projector/Support.antt =====
-- Which members a view of candidates/projector.py shows, and when there is no view.
use mathlib.Core.Path.{subst}
use work_trace.Prelude.{
  String, true, false, not, ◌&&◌, Bool-cases, Option-cases, if-split, Option, is_some, List, [],
  ◌∷◌, keep_if, ◌≡◌, ◌⊎◌, ◌↔◌, inl, inr, refl, sym, ap, ◌∙◌, arith,
}
use work_trace.Prelude.Texts.{◌==◌, eq_iff, eq_refl, elem, elem-sorted, elem-keep_if, lookup}
use work_trace.Errors.{Result, ok, err, not_found}
use work_trace.Json.{Json}
use work_trace.Decisions.Ledger.{Ledger, Decision}
use work_trace.Decisions.Context.{Context}
use work_trace.Candidates.Projector.{Group, Current, Store, MemberMap, Projection}
use work_trace.Candidates.Projector.Fold.{project_over}
use work_trace.Candidates.Projector.View.{
  ProjectedMember, CandidateView, keys, has_current, eligible_ids, missing_ids, projected_at,
  projected, is_empty, view_of, project_group,
}

abbrev pub ids_of : List ProjectedMember → List String
ids_of [] = []
ids_of (m ∷ ms) = m.source_object_id ∷ ids_of ms

elem-eligible :
    (current : List (String × Current)) (members : MemberMap) (id : String)
    → elem id (eligible_ids current members) ≡ (elem id (keys members) && has_current current id)
unfolding eligible_ids
elem-eligible current members id =
    elem-sorted id (keep_if (has_current current) (keys members))
    ∙ elem-keep_if id (has_current current) (keys members)

elem-missing :
    (current : List (String × Current)) (members : MemberMap) (id : String)
    → elem id (missing_ids current members)
      ≡ (elem id (keys members) && not (has_current current id))
unfolding missing_ids
elem-missing current members id =
    elem-sorted id (keep_if (λ k. not (has_current current k)) (keys members))
    ∙ elem-keep_if id (λ k. not (has_current current k)) (keys members)

elem-keys :
    (members : MemberMap) (id : String) → elem id (keys members) ≡ is_some (lookup id members)
unfolding elem lookup
elem-keys [] id = refl
elem-keys ((k, m) ∷ ms) id = ground (arith, elem-keys ms id)

-- The members of a list of ids that have both a current observation and a row.
ids-projected :
    (current : List (String × Current)) (members : MemberMap) (ids : List String) (id : String)
    → elem id (ids_of (projected current members ids))
      ≡ (elem id ids && has_current current id && is_some (lookup id members))
unfolding projected projected_at elem has_current
ids-projected current members [] id = refl
ids-projected current members (k ∷ ids) id =
    let rest = ids-projected current members ids id in
    elim (Bool-cases (k == id)) [
      | inl same ↦
          let e = (eq_iff k id).0 same in
          let c = ap (λ (x : String). lookup x current) e in
          let m = ap (λ (x : String). lookup x members) e in
          elim (Option-cases (lookup k current)) [
            | inl no_evidence ↦ ground (arith, same, c, m, no_evidence, rest)
            | inr (evidence, found) ↦ elim (Option-cases (lookup k members)) [
              | inl no_member ↦ ground (arith, same, c, m, found, no_member, rest)
              | inr (member, held) ↦ ground (arith, same, c, m, found, held, rest)
            ]
          ]
      | inr other ↦ elim (Option-cases (lookup k current)) [
        | inl no_evidence ↦ ground (arith, other, no_evidence, rest)
        | inr (evidence, found) ↦ elim (Option-cases (lookup k members)) [
          | inl no_member ↦ ground (arith, other, found, no_member, rest)
          | inr (member, held) ↦ ground (arith, other, found, held, rest)
        ]
      ]
    ]

-- A view shows the members with a current observation, and names the others where it is confirmed.
pub record IsShown (current : List (String × Current)) (p : Projection) (view : CandidateView)
    : Type 0 where
  pub members :
      (id : String)
      → elem id (ids_of view.members) ≡ (elem id (keys p.members) && has_current current id)
  pub unsupported :
      (id : String)
      → elem id view.unsupported_member_ids
        ≡ ((p.status == "confirmed") && (elem id (keys p.members) && not (has_current current id)))
  pub supported :
      ((p.status == "confirmed") ≡ true) ⊎ ((id : String) × (elem id (ids_of view.members) ≡ true))

first_of : (ids : List String) → is_empty ids ≡ false → (id : String) × (elem id ids ≡ true)
first_of [] full = absurd (cc)
first_of (id ∷ ids) full = (id, unfold elem in ground (arith, eq_refl id))

all_empty : (ids : List String) → ((id : String) → elem id ids ≡ false) → is_empty ids ≡ true
unfolding elem
all_empty [] absent = refl
all_empty (id ∷ ids) absent = absurd (ground (arith, absent id, eq_refl id))

none_in : (ids : List String) (id : String) → is_empty ids ≡ true → elem id ids ≡ false
unfolding elem
none_in [] id empty = refl
none_in (x ∷ ids) id empty = absurd (cc)

module _ (casefold strip lower : String → String) (str_of : Json → String) (db : Ledger)
    (s : Store) where
  view-members :
      (g : Group) (decisions : List Decision) (p : Projection) (id : String)
      → elem id (ids_of (view_of casefold strip lower str_of db s g decisions p).members)
        ≡ (elem id (keys p.members) && has_current s.current id)
  unfolding view_of
  view-members g decisions p id = ground (
    arith,
    ids-projected s.current p.members (eligible_ids s.current p.members) id,
    elem-eligible s.current p.members id,
    elem-keys p.members id,
  )

  view-unsupported :
      (g : Group) (decisions : List Decision) (p : Projection) (id : String)
      → elem id (view_of casefold strip lower str_of db s g decisions p).unsupported_member_ids ≡ (
          (p.status == "confirmed") && (elem id (keys p.members) && not (has_current s.current id)))
  unfolding view_of elem
  view-unsupported g decisions p id =
      if-split
        (λ (ids : List String). elem id ids ≡ (
          (p.status == "confirmed")
          && (elem id (keys p.members) && not (has_current s.current id))))
        (p.status == "confirmed") (missing_ids s.current p.members) []
        (λ e. rw e (elem-missing s.current p.members id)) (λ e. rw (e, elem) refl)

  view-status :
      (g : Group) (decisions : List Decision) (p : Projection)
      → (view_of casefold strip lower str_of db s g decisions p).status ≡ p.status
  unfolding view_of
  view-status g decisions p = refl

  -- A view that a projection returns shows exactly the members with a current observation, names
  -- exactly the others as unsupported where the candidate is confirmed and none where it is not,
  -- and shows at least one member unless the candidate is confirmed.
  pub project_group-IsShown :
      (context : Option Context) (g : Group) (decisions : List Decision) (view : CandidateView)
      → project_group casefold strip lower str_of db s context g decisions ≡ ok view
      → IsShown s.current (project_over str_of db s g context decisions) view
  unfolding project_group
  project_group-IsShown context g decisions =
      let p = project_over str_of db s g context decisions in
      let shown = view_of casefold strip lower str_of db s g decisions p in
      let empty = is_empty (eligible_ids s.current p.members) in
      if-split
        (λ (r : Result CandidateView).
          (view : CandidateView) → r ≡ ok view → IsShown s.current p view)
        (empty && not (p.status == "confirmed")) _ _ (λ e view done. absurd (cc))
        (λ e view done.
          let same : shown ≡ view = cc in
          subst (IsShown s.current p) same (record {
            members = view-members g decisions p;
            unsupported = view-unsupported g decisions p;
            supported = elim (Bool-cases (p.status == "confirmed")) [
              | inl confirmed ↦ inl confirmed
              | inr other ↦
                  let (id, present) =
                    first_of (eligible_ids s.current p.members) (ground (arith, e, other)) in
                  inr (
                    id,
                    view-members g decisions p id
                        ∙ sym (elem-eligible s.current p.members id)
                        ∙ present,
                  )
            ];
          }))

  -- A projection of a stored candidate raises for missing evidence exactly when the candidate is
  -- not confirmed after its decisions and no member has a current observation.
  pub project_group-not_found_iff :
      (context : Option Context) (g : Group) (decisions : List Decision)
      → (let p = project_over str_of db s g context decisions in
          (project_group casefold strip lower str_of db s context g decisions
            ≡ err (not_found "candidate has no authoritative current evidence"))
          ↔ (((p.status == "confirmed") ≡ false)
              × ((id : String) → (elem id (keys p.members) && has_current s.current id) ≡ false)))
  unfolding project_group
  project_group-not_found_iff context g decisions =
      let p = project_over str_of db s g context decisions in
      let ids = eligible_ids s.current p.members in
      (
        λ failed. elim (Bool-cases (is_empty ids && not (p.status == "confirmed"))) [
          | inr e ↦ absurd (ground (arith, e, failed))
          | inl e ↦ (
            ground (arith, e),
            λ id. sym (elem-eligible s.current p.members id) ∙ none_in ids id (ground (arith, e)),
          )
        ],
        λ reason.
            let empty = all_empty ids (λ id. elem-eligible s.current p.members id ∙ reason.1 id) in
            rw (empty, reason.0),
      )
