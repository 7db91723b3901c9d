-- ===== src/Decisions/Ownership/Creation.antt =====
-- `creation_decision_scope_app` against what a snapshot names.
use work_trace.Prelude.{
  String, false, ◌≡◌, refl, not, Option, none, some, List, [], ◌∷◌, ◌⊎◌, ◌↔◌, inl, inr, arith, All,
  any, Option-cases,
}
use work_trace.Prelude.Texts.{◌==◌, eq_iff, eq_refl, lookup}
use work_trace.Json.{Fields, get, as_text}
use work_trace.Decisions.Ledger.{Ledger}
use work_trace.Decisions.Scope.{related_apps, expected_app, disagrees, creation_decision_scope_app}
use work_trace.Decisions.Ownership.Related.{
  names_object, names_candidate, AllOwnedBy, SomeOwnedBy, IsUniform-All, IsUniform-one,
  related-objects, related-candidates, related-some, some-related, related-IsUniform,
}

any_other-false :
    (app : String) (apps : List String)
    → any (λ a. not (a == app)) apps ≡ false
    → All (λ a. a ≡ app) apps
unfolding any
any_other-false app [] h = tt
any_other-false app (a ∷ apps) h =
    (ground (arith, eq_iff a app), any_other-false app apps (ground arith))

any_other-true :
    (app : String) (apps : List String)
    → All (λ a. a ≡ app) apps
    → any (λ a. not (a == app)) apps ≡ false
unfolding any
any_other-true app [] h = refl
any_other-true app (a ∷ apps) h = ground (arith, eq_iff a app, any_other-true app apps h.1)

-- All that the ledger knows of the snapshot agrees on `app`: the candidate if it is stored, every
-- stored object and candidate that the payload names, and the declared app if there is one; without
-- a stored candidate some named object or candidate has the app.
pub record Agrees (db : Ledger) (target_id : String) (payload : Fields) (app : String)
    : Type 0 where
  pub candidate :
      (lookup target_id db.candidate_groups ≡ some app)
      ⊎ ((lookup target_id db.candidate_groups ≡ none)
          × (SomeOwnedBy (names_object payload) app db.source_objects
              ⊎ SomeOwnedBy (names_candidate payload) app db.candidate_groups))
  pub objects : AllOwnedBy (names_object payload) app db.source_objects
  pub candidates : AllOwnedBy (names_candidate payload) app db.candidate_groups
  pub declared :
      (as_text (get "app_id" payload) ≡ none) ⊎ (as_text (get "app_id" payload) ≡ some app)

expected_app-eq-some :
    (candidate : Option String) (related : List String) (app : String)
    → expected_app candidate related ≡ some app
    → (candidate ≡ some app) ⊎ ((candidate ≡ none) × (related ≡ app ∷ []))
unfolding expected_app
expected_app-eq-some (some c) related app h = inl h
expected_app-eq-some none (a ∷ []) app h = inr (refl, ground arith)
expected_app-eq-some none [] app h = absurd (ground arith)
expected_app-eq-some none (a ∷ b ∷ r) app h = absurd (ground arith)

disagrees-false :
    (declared : Option String) (app : String)
    → disagrees declared app ≡ false
    → (declared ≡ none) ⊎ (declared ≡ some app)
unfolding disagrees
disagrees-false none app h = inl refl
disagrees-false (some d) app h = inr (ground (arith, eq_iff d app))

creation_scope-Agrees :
    (db : Ledger) (target_id : String) (payload : Fields) (app : String)
    → creation_decision_scope_app db target_id payload ≡ some app
    → Agrees db target_id payload app
unfolding creation_decision_scope_app
creation_scope-Agrees db target_id payload app h =
    let related = related_apps db payload in
    elim (Option-cases (expected_app (lookup target_id db.candidate_groups) related)) [
      | inl e ↦ absurd (ground (arith, e))
      | inr (a, e) ↦
          let same : a ≡ app = ground (arith, e) in
          let all = any_other-false app related (ground (arith, e, same)) in
          record {
            candidate = elim (expected_app-eq-some _ related app (ground (arith, e, same))) [
              | inl stored ↦ inl stored
              | inr (unknown, one) ↦ inr (unknown, related-some db payload app one)
            ];
            objects = related-objects db payload app all;
            candidates = related-candidates db payload app all;
            declared = disagrees-false _ app (ground (arith, e, same));
          }
    ]

Agrees-creation_scope :
    (db : Ledger) (target_id : String) (payload : Fields) (app : String)
    → Agrees db target_id payload app
    → creation_decision_scope_app db target_id payload ≡ some app
unfolding creation_decision_scope_app expected_app disagrees
Agrees-creation_scope db target_id payload app a =
    let uniform = related-IsUniform db payload app a.objects a.candidates in
    let others =
      any_other-true app (related_apps db payload)
        (IsUniform-All app (related_apps db payload) uniform) in
    elim a.candidate [
      | inl stored ↦ ground (arith, stored, a.declared, others, eq_refl app)
      | inr (unknown, found) ↦
          let one =
            IsUniform-one app (related_apps db payload) uniform
              (some-related db payload app found) in
          ground (arith, unknown, one, a.declared, others, eq_refl app)
    ]

-- A creation snapshot is scoped to an app exactly when the ledger and the payload agree on it: the
-- stored candidate has the app or, with no stored candidate, some stored object or candidate that the
-- payload names has it; every stored object that its members, context or kept members name, and every
-- stored candidate of its candidate ids, has it; and a declared app, if there is one, is it.
pub creation_scope_iff :
    (db : Ledger) (target_id : String) (payload : Fields) (app : String)
    → (creation_decision_scope_app db target_id payload ≡ some app)
      ↔ Agrees db target_id payload app
creation_scope_iff db target_id payload app =
    (creation_scope-Agrees db target_id payload app, Agrees-creation_scope db target_id payload app)
