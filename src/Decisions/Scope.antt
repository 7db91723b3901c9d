-- ===== src/Decisions/Scope.antt =====
-- Which one app owns a decision: creation snapshots and targets.
use work_trace.Prelude.{
  String, Bool, false, not, ◌||◌, Option, none, some, List, [], ◌∷◌, if◌then◌else◌, any,
}
use work_trace.Prelude.Texts.{◌==◌, elem, add, update, sorted, lookup, put}
use work_trace.Json.{Fields, get, as_text, texts}
use work_trace.Decisions.Ledger.{Ledger, Decision, is_creation}

-- Every source-object identifier carried by a decision snapshot.
unfoldable pub snapshot_member_ids : Fields → List String
unfolding update texts
snapshot_member_ids payload =
    update (texts (get "keep_source_object_ids" payload))
      (update (texts (get "context_members" payload)) (update (texts (get "members" payload)) []))

-- `SELECT DISTINCT app_id FROM table WHERE id IN (ids)`, added to a set.
unfoldable pub apps_of : List String → List (String × String) → List String → List String
unfolding elem add
apps_of ids [] apps = apps
apps_of ids ((id, app) ∷ rows) apps = apps_of ids rows (if elem id ids then add app apps else apps)

-- The apps that own a member of the snapshot or one of its candidates.
unfoldable pub related_apps : Ledger → Fields → List String
unfolding apps_of snapshot_member_ids sorted texts
related_apps db payload =
    apps_of (sorted (texts (get "candidate_ids" payload))) db.candidate_groups
      (apps_of (sorted (snapshot_member_ids payload)) db.source_objects [])

-- `expected_app`: the app of the candidate, or else the only related app.
unfoldable pub expected_app : Option String → List String → Option String
expected_app (some app) related = some app
expected_app none (app ∷ []) = some app
expected_app none _ = none

unfoldable pub disagrees : Option String → String → Bool
disagrees none app = false
disagrees (some declared) app = not (declared == app)

unfoldable pub creation_decision_scope_app : Ledger → String → Fields → Option String
unfolding expected_app disagrees as_text
creation_decision_scope_app db target_id payload =
    let related = related_apps db payload in
    elim (expected_app (lookup target_id db.candidate_groups) related) [
      | none ↦ none
      | some app ↦
          if disagrees (as_text (get "app_id" payload)) app
          then none
          else if any (λ a. not (a == app)) related
          then none
          else some app
    ]

abbrev pub NodeApps : Type 0
NodeApps = List (String × List String)

unfoldable pub apps_at : String → NodeApps → List String
apps_at id nodes = elim (lookup id nodes) [ some apps ↦ apps | none ↦ [] ]

-- The observations of the ledger joined with the apps of their source objects.
unfoldable pub observation_apps :
    String → List (String × String) → List (String × String) → List String → List String
unfolding add
observation_apps id [] objects apps = apps
observation_apps id ((o, source_object_id) ∷ rows) objects apps = observation_apps id rows objects (
    if o == id
    then elim (lookup source_object_id objects) [ some app ↦ add app apps | none ↦ apps ]
    else apps)

unfoldable pub target_apps : Ledger → String → NodeApps → List String
unfolding apps_of observation_apps apps_at
target_apps db id nodes =
    observation_apps id db.observations db.source_objects (
      apps_of (id ∷ []) db.source_objects
        (apps_of (id ∷ []) db.candidate_groups (apps_at id nodes)))

-- `next(iter(apps)) if len(apps) == 1 else None`
unfoldable pub only : List String → Option String
only (app ∷ []) = some app
only _ = none

unfoldable pub member_scope : Ledger → Option String → List String → Option String
unfolding only
member_scope db none apps = none
member_scope db (some id) apps = elim (lookup id db.source_objects) [
  | none ↦ none
  | some app ↦ if elem app apps then some app else none
]

unfoldable pub is_member_action : String → Bool
is_member_action action = elem action ("add_member" ∷ "remove_member" ∷ "mark_context_only" ∷ [])

-- `target_apps` after the declared app: none where it does not own the target.
unfoldable pub declared_apps : Option String → List String → Option (List String)
declared_apps none apps = some apps
declared_apps (some declared) apps = if elem declared apps then some (declared ∷ []) else none

unfoldable pub is_legacy_creation : String → Bool
unfolding is_creation
is_legacy_creation action = is_creation action || elem action ("confirm" ∷ "merge" ∷ "split" ∷ [])

unfoldable pub scoped_decision_app : Ledger → NodeApps → Decision → Option String
unfolding creation_decision_scope_app target_apps declared_apps member_scope only is_member_action
scoped_decision_app db nodes d =
    if is_legacy_creation d.action
    then creation_decision_scope_app db d.target_id d.payload
    else elim (declared_apps (as_text (get "app_id" d.payload))
        (target_apps db d.target_id nodes)) [
          | none ↦ none
          | some apps ↦
              if is_member_action d.action
              then member_scope db (as_text (get "source_object_id" d.payload)) apps
              else only apps
        ]

-- `result.setdefault(identifier, set()).add(app_id)` for each identifier
own_all : List String → String → NodeApps → NodeApps
own_all [] app nodes = nodes
own_all (id ∷ ids) app nodes = own_all ids app (put id (add app (apps_at id nodes)) nodes)

-- The app and the contribution of a creation event that has both.
unfoldable pub creation_of : Ledger → Decision → Option (String × String)
unfolding creation_decision_scope_app as_text
creation_of db d =
    if is_creation d.action
    then elim (creation_decision_scope_app db d.target_id d.payload) [
      | none ↦ none
      | some app ↦ elim (as_text (get "contribution_id" d.payload)) [
        | none ↦ none
        | some contribution ↦ some (app, contribution)
      ]
    ]
    else none

-- The identifiers of a creation event: its target and its declared candidates.
unfoldable pub candidates_of : Decision → List String
unfolding update texts
candidates_of d = update (texts (get "candidate_ids" d.payload)) (d.target_id ∷ [])

node_apps_loop : Ledger → List Decision → NodeApps → NodeApps
node_apps_loop db [] nodes = nodes
node_apps_loop db (d ∷ ds) nodes = node_apps_loop db ds (elim (creation_of db d) [
  | none ↦ nodes
  | some (app, contribution) ↦ own_all (add contribution (candidates_of d)) app nodes
])

unfoldable pub decision_node_apps : Ledger → List Decision → NodeApps
unfolding node_apps_loop own_all creation_of candidates_of
decision_node_apps db decisions = node_apps_loop db decisions []
