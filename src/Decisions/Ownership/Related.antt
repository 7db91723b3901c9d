-- ===== src/Decisions/Ownership/Related.antt =====
-- `related_apps` against the rows that a snapshot names.
use mathlib.Core.Path.{subst}
use work_trace.Prelude.{
  Bool, true, Bool-cases, ◌||◌, sym, ap, ◌∙◌, if-split, String, false, ◌≡◌, refl, List, [], ◌∷◌,
  ◌⊎◌, inl, inr, arith, All,
}
use work_trace.Prelude.Texts.{
  ◌==◌, eq_iff, eq_refl, elem, add, update, sorted, elem-sorted, elem-update, elem-add,
}
use work_trace.Json.{Fields, get, texts}
use work_trace.Decisions.Ledger.{Ledger}
use work_trace.Decisions.Scope.{snapshot_member_ids, apps_of, related_apps}

-- An id that the lists of a snapshot name: its members, its context and the members it keeps.
abbrev pub names_object : Fields → String → Bool
names_object payload id =
    elem id (texts (get "members" payload))
    || elem id (texts (get "context_members" payload))
    || elem id (texts (get "keep_source_object_ids" payload))

abbrev pub names_candidate : Fields → String → Bool
names_candidate payload id = elem id (texts (get "candidate_ids" payload))

-- Every row with a named id has the app; some row with a named id has it.
abbrev pub AllOwnedBy : (String → Bool) → String → List (String × String) → Type 0
AllOwnedBy named app rows =
    All (λ (row : String × String). (named row.0 ≡ false) ⊎ (row.1 ≡ app)) rows

abbrev pub SomeOwnedBy : (String → Bool) → String → List (String × String) → Type 0
SomeOwnedBy named app [] = ⊥
SomeOwnedBy named app ((id, owner) ∷ rows) =
    ((named id ≡ true) × (owner ≡ app)) ⊎ SomeOwnedBy named app rows

elem-snapshot_member_ids :
    (payload : Fields) (id : String)
    → elem id (sorted (snapshot_member_ids payload)) ≡ names_object payload id
unfolding snapshot_member_ids elem
elem-snapshot_member_ids payload id =
    elem-sorted id (snapshot_member_ids payload)
    ∙ ground (
      arith,
      elem-update id (texts (get "keep_source_object_ids" payload)) (
          update (texts (get "context_members" payload))
            (update (texts (get "members" payload)) [])),
      elem-update id (texts (get "context_members" payload))
          (update (texts (get "members" payload)) []),
      elem-update id (texts (get "members" payload)) [],
    )

-- A list without repetition, of which every member is the app, holds it once or is empty.
abbrev pub IsUniform : String → List String → Type 0
IsUniform app apps = (apps ≡ []) ⊎ (apps ≡ app ∷ [])

add-IsUniform : (app : String) (apps : List String) → IsUniform app apps → add app apps ≡ app ∷ []
unfolding add elem
add-IsUniform app apps (inl e) = ap (add app) e
add-IsUniform app apps (inr e) = ap (add app) e ∙ ground (arith, eq_refl app)

module _ (app : String) (ids : List String) (named : String → Bool)
    (same : (id : String) → elem id ids ≡ named id) where
  apps_of-IsUniform :
      (rows : List (String × String)) (apps : List String)
      → IsUniform app apps
      → AllOwnedBy named app rows
      → IsUniform app (apps_of ids rows apps)
  unfolding apps_of
  apps_of-IsUniform [] apps u h = u
  apps_of-IsUniform ((id, owner) ∷ rows) apps u (inl other, h) =
      apps_of-IsUniform rows _
        (subst (IsUniform app) (let e = same id in ground (arith, e, other)) u) h
  apps_of-IsUniform ((id, owner) ∷ rows) apps u (inr mine, h) =
      apps_of-IsUniform rows _
        (if-split (IsUniform app) (elem id ids) (add owner apps) apps
          (λ e. inr (ap (λ (a : String). add a apps) mine ∙ add-IsUniform app apps u)) (λ e. u))
        h

  apps_of-keeps :
      (a : String) (rows : List (String × String)) (apps : List String)
      → elem a apps ≡ true
      → elem a (apps_of ids rows apps) ≡ true
  unfolding apps_of
  apps_of-keeps a [] apps h = h
  apps_of-keeps a ((id, owner) ∷ rows) apps h = apps_of-keeps a rows _ (
      if-split (λ (s : List String). elem a s ≡ true) (elem id ids) (add owner apps) apps
        (λ e. ground (arith, elem-add a owner apps, h)) (λ e. h))

  apps_of-owned :
      (rows : List (String × String)) (apps : List String)
      → ((k : String) → elem k (apps_of ids rows apps) ≡ true → k ≡ app)
      → AllOwnedBy named app rows
  unfolding apps_of
  apps_of-owned [] apps h = tt
  apps_of-owned ((id, owner) ∷ rows) apps h = (
    elim (Bool-cases (elem id ids)) [
      | inr other ↦ inl (sym (same id) ∙ other)
      | inl hit ↦ inr (
          h owner (
            apps_of-keeps owner rows _
              (ground (arith, hit, elem-add owner owner apps, eq_refl owner))))
    ],
    apps_of-owned rows _ h,
  )

  apps_of-some :
      (rows : List (String × String)) (apps : List String)
      → elem app (apps_of ids rows apps) ≡ true
      → (elem app apps ≡ true) ⊎ SomeOwnedBy named app rows
  unfolding apps_of
  apps_of-some [] apps h = inl h
  apps_of-some ((id, owner) ∷ rows) apps h = elim (apps_of-some rows _ h) [
    | inr later ↦ inr (inr later)
    | inl there ↦ elim (Bool-cases (elem id ids)) [
      | inr other ↦ inl (ground (arith, there, other))
      | inl hit ↦ elim (Bool-cases (owner == app)) [
        | inl mine ↦ inr (inl (sym (same id) ∙ hit, (eq_iff owner app).0 mine))
        | inr differs ↦ inl (ground (arith, there, hit, differs, elem-add app owner apps))
      ]
    ]
  ]

  some-apps_of :
      (rows : List (String × String)) (apps : List String)
      → SomeOwnedBy named app rows
      → elem app (apps_of ids rows apps) ≡ true
  unfolding apps_of
  some-apps_of [] apps h = absurd h
  some-apps_of ((id, owner) ∷ rows) apps (inr later) = some-apps_of rows _ later
  some-apps_of ((id, owner) ∷ rows) apps (inl (hit, mine)) =
      let here = same id ∙ hit in
      let added = elem-add app owner apps in
      let self = (eq_iff owner app).1 mine in
      apps_of-keeps app rows _ (ground (arith, here, added, self))

elem-All :
    (app k : String) (apps : List String) → All (λ a. a ≡ app) apps → elem k apps ≡ true → k ≡ app
unfolding elem
elem-All app k [] h e = absurd (cc)
elem-All app k (a ∷ apps) (h, hs) e = elim (Bool-cases (a == k)) [
  | inl same ↦ sym ((eq_iff a k).0 same) ∙ h
  | inr other ↦ elem-All app k apps hs (ground (arith, e, other))
]

pub IsUniform-All :
    (app : String) (apps : List String) → IsUniform app apps → All (λ a. a ≡ app) apps
IsUniform-All app apps (inl e) = subst (λ (s : List String). All (λ a. a ≡ app) s) (sym e) tt
IsUniform-All app apps (inr e) =
    subst (λ (s : List String). All (λ a. a ≡ app) s) (sym e) (refl, tt)

module _ (db : Ledger) (payload : Fields) (app : String) where
  abbrev object_ids : List String
  object_ids = sorted (snapshot_member_ids payload)

  abbrev candidate_ids : List String
  candidate_ids = sorted (texts (get "candidate_ids" payload))

  elem-candidate_ids : (id : String) → elem id candidate_ids ≡ names_candidate payload id
  elem-candidate_ids id = elem-sorted id (texts (get "candidate_ids" payload))

  abbrev of_objects : List String
  of_objects = apps_of object_ids db.source_objects []

  pub related-objects :
      All (λ a. a ≡ app) (related_apps db payload)
      → AllOwnedBy (names_object payload) app db.source_objects
  unfolding related_apps
  related-objects h =
      apps_of-owned app object_ids (names_object payload) (elem-snapshot_member_ids payload)
        db.source_objects []
        (λ k e. elem-All app k (related_apps db payload) h (
          apps_of-keeps app candidate_ids (names_candidate payload) elem-candidate_ids k
            db.candidate_groups of_objects e))

  pub related-candidates :
      All (λ a. a ≡ app) (related_apps db payload)
      → AllOwnedBy (names_candidate payload) app db.candidate_groups
  unfolding related_apps
  related-candidates h =
      apps_of-owned app candidate_ids (names_candidate payload) elem-candidate_ids
        db.candidate_groups of_objects (λ k e. elem-All app k (related_apps db payload) h e)

  pub related-some :
      related_apps db payload ≡ app ∷ []
      → SomeOwnedBy (names_object payload) app db.source_objects
        ⊎ SomeOwnedBy (names_candidate payload) app db.candidate_groups
  unfolding related_apps elem
  related-some h =
      let there : elem app (related_apps db payload) ≡ true =
        ap (elem app) h ∙ ground (arith, eq_refl app) in
      elim (apps_of-some app candidate_ids (names_candidate payload) elem-candidate_ids
        db.candidate_groups of_objects there) [
          | inr found ↦ inr found
          | inl inner ↦
              elim (apps_of-some app object_ids (names_object payload)
                (elem-snapshot_member_ids payload) db.source_objects [] inner) [
                  | inr found ↦ inl found
                  | inl none_left ↦ absurd (cc)
                ]
        ]

  pub some-related :
      SomeOwnedBy (names_object payload) app db.source_objects
        ⊎ SomeOwnedBy (names_candidate payload) app db.candidate_groups
      → elem app (related_apps db payload) ≡ true
  unfolding related_apps
  some-related (inl found) =
      apps_of-keeps app candidate_ids (names_candidate payload) elem-candidate_ids app
        db.candidate_groups of_objects
        (some-apps_of app object_ids (names_object payload) (elem-snapshot_member_ids payload)
          db.source_objects [] found)
  some-related (inr found) =
      some-apps_of app candidate_ids (names_candidate payload) elem-candidate_ids
        db.candidate_groups of_objects found

  pub related-IsUniform :
      AllOwnedBy (names_object payload) app db.source_objects
      → AllOwnedBy (names_candidate payload) app db.candidate_groups
      → IsUniform app (related_apps db payload)
  unfolding related_apps
  related-IsUniform objects candidates =
      apps_of-IsUniform app candidate_ids (names_candidate payload) elem-candidate_ids
        db.candidate_groups of_objects
        (apps_of-IsUniform app object_ids (names_object payload) (elem-snapshot_member_ids payload)
          db.source_objects [] (inl refl) objects)
        candidates

pub IsUniform-one :
    (app : String) (apps : List String)
    → IsUniform app apps
    → elem app apps ≡ true
    → apps ≡ app ∷ []
unfolding elem
IsUniform-one app apps (inr e) h = e
IsUniform-one app apps (inl e) h = let gone : elem app apps ≡ false = ap (elem app) e in absurd (cc)
