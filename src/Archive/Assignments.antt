-- ===== src/Archive/Assignments.antt =====
-- archive/jira/selector.py: whether an issue was assigned to an account within an interval. A time is
-- a number of units since some start; the parameter `timestamp` is `_timestamp`, which reads a text
-- with a time zone.
pub mod Timeline
pub mod Boundary
use work_trace.Prelude.{
  ℕ, ltb, leb, String, Bool, true, false, not, ◌||◌, ◌&&◌, Option, none, some, List, [], ◌∷◌, ◌++◌,
  if◌then◌else◌,
}
use work_trace.Prelude.Texts.{◌==◌}
use work_trace.Json.{Json, arr, Items, nil, cons, Fields, get, as_object, as_text}

pub record Event : Type 0 where
  pub at : ℕ
  pub before : Option String
  pub after : Option String

-- The variables `events` and `complete`.
pub record Collected : Type 0 where
  pub events : List Event
  pub complete : Bool

-- `x or y`
unfoldable pub first_text : Option String → Option String → Option String
first_text (some s) other = some s
first_text none other = other

unfoldable pub is_text : Option String → String → Bool
is_text none t = false
is_text (some s) t = s == t

-- `events.sort(key=lambda item: item[0])`, which is stable.
unfoldable pub insert_event : Event → List Event → List Event
insert_event e [] = e ∷ []
insert_event e (f ∷ fs) = if leb e.at f.at then e ∷ f ∷ fs else f ∷ insert_event e fs

unfoldable pub sort_events : List Event → List Event
sort_events [] = []
sort_events (e ∷ es) = insert_event e (sort_events es)

-- `events[index + 1][0] if index + 1 < len(events) else end`
unfoldable pub next_at : List Event → ℕ → ℕ
next_at [] last = last
next_at (e ∷ es) last = e.at

-- The loop over the intervals between the events.
unfoldable pub has_overlap : String → ℕ → ℕ → List Event → Bool
has_overlap account_id start last [] = false
has_overlap account_id start last (e ∷ es) =
    (is_text (first_text e.after e.before) account_id
      && ltb e.at last
      && ltb start (next_at es last))
    || has_overlap account_id start last es

unfoldable pub verdict : String → ℕ → ℕ → List Event → Bool → String
verdict account_id start last [] complete = "boundary_unknown"
verdict account_id start last (e ∷ es) complete =
    if not complete
    then "boundary_unknown"
    else if has_overlap account_id start last (e ∷ es)
    then "verified_overlap"
    else "excluded"

module _ (timestamp : Json → Option ℕ) where
  change_event : ℕ → Fields → List Event
  change_event at change =
      if is_text (as_text (get "field" change)) "assignee"
      then record {
        at = at;
        before = first_text (as_text (get "from" change)) (as_text (get "fromString" change));
        after = first_text (as_text (get "to" change)) (as_text (get "toString" change));
      }
        ∷ []
      else []

  -- `for change in changes`
  unfoldable pub change_events : ℕ → Items → List Event
  unfolding change_event
  change_events at nil = []
  change_events at (cons v vs) = change_event at (as_object v) ++ change_events at vs

  items_in : Json → Items
  items_in (arr vs) = vs
  items_in _ = nil

  -- `for history in values`
  unfoldable pub collect_histories : Items → Collected → Collected
  unfolding items_in
  collect_histories nil c = c
  collect_histories (cons v vs) c =
      collect_histories vs (elim (timestamp (get "created" (as_object v))) [
        | none ↦ record { events = c.events; complete = false }
        | some at ↦ record {
          events = c.events ++ change_events at (items_in (get "items" (as_object v)));
          complete = c.complete;
        }
      ])

  collect_page : Json → Collected → Collected
  collect_page (arr values) c = collect_histories values c
  collect_page _ c = record { events = c.events; complete = false }

  -- `for page in changelog_pages`
  unfoldable pub collect_pages : List Fields → Collected → Collected
  unfolding collect_page
  collect_pages [] c = c
  collect_pages (page ∷ pages) c = collect_pages pages (collect_page (get "values" page) c)

  unfoldable pub assignment_overlap : List Fields → String → ℕ → ℕ → String
  assignment_overlap changelog_pages account_id start last =
      let c = collect_pages changelog_pages (record { events = []; complete = true }) in
      verdict account_id start last (sort_events c.events) c.complete
