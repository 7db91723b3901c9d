-- ===== src/Archive/Assignments/Boundary.antt =====
-- Assignments before the first change and after the last one, which `assignment_overlap`
-- (archive/jira/selector.py) judges by the changes alone.
use work_trace.Prelude.{
  ℕ, ◌≤◌, ◌<◌, lt→ltb, String, true, false, Option, none, some, List, [], ◌∷◌, ◌++◌, All, ◌≡◌, refl,
  ap, ◌∙◌, arith,
}
use work_trace.Prelude.Texts.{◌==◌, eq_refl}
use work_trace.Archive.Assignments.{Event, first_text, is_text, next_at, has_overlap, verdict}
use work_trace.Archive.Assignments.Timeline.{assigned_at, overlap_rest}

-- A change to an account other than the given one.
abbrev pub GoesToOther : String → Event → Type 0
GoesToOther account_id e = (name : String) × (e.after ≡ some name) × ((name == account_id) ≡ false)

no_overlap :
    (account_id : String) (start last : ℕ) (es : List Event)
    → All (GoesToOther account_id) es
    → has_overlap account_id start last es ≡ false
unfolding has_overlap
no_overlap account_id start last [] others = refl
no_overlap account_id start last (e ∷ es) ((name, goes, other), others) =
    let named : is_text (first_text e.after e.before) account_id ≡ false =
      ap (λ (o : Option String). is_text (first_text o e.before) account_id) goes
      ∙ (unfold first_text is_text in other) in
    rw (named, no_overlap account_id start last es others)

-- An account that is assigned at the start of the interval, until a first change to somebody else,
-- and never comes back, is assigned then, and the issue is excluded all the same.
pub verdict-first_holder :
    (account_id : String) (start last : ℕ) (e : Event) (es : List Event)
    → e.before ≡ some account_id
    → start < e.at
    → All (GoesToOther account_id) (e ∷ es)
    → (assigned_at e.before (e ∷ es) start ≡ some account_id)
      × (verdict account_id start last (e ∷ es) true ≡ "excluded")
unfolding verdict
verdict-first_holder account_id start last e es holder early others =
    let missed = no_overlap account_id start last (e ∷ es) others in
    (ground (arith, early, holder), rw missed refl)

last_overlap :
    (account_id : String) (start last : ℕ) (front : List Event) (e : Event)
    → has_overlap account_id start last (e ∷ []) ≡ true
    → has_overlap account_id start last (front ++ e ∷ []) ≡ true
last_overlap account_id start last [] e found = found
last_overlap account_id start last (f ∷ fs) e found =
    overlap_rest account_id start last f (fs ++ e ∷ [])
      (last_overlap account_id start last fs e found)

assigned_last :
    (held : Option String) (t : ℕ) (front : List Event) (e : Event)
    → All (λ f. f.at ≤ t) front
    → e.at ≤ t
    → assigned_at held (front ++ e ∷ []) t ≡ e.after
assigned_last held t [] e early late = ground (arith, late)
assigned_last held t (f ∷ fs) e (early, rest) late =
    ground (arith, early, assigned_last f.after t fs e rest late)

verdict-found :
    (account_id : String) (start last : ℕ) (front : List Event) (e : Event)
    → has_overlap account_id start last (front ++ e ∷ []) ≡ true
    → verdict account_id start last (front ++ e ∷ []) true ≡ "verified_overlap"
unfolding verdict
verdict-found account_id start last [] e found = rw found refl
verdict-found account_id start last (f ∷ fs) e found = rw found refl

unassigned_overlap :
    (account_id : String) (start last : ℕ) (e : Event)
    → e.before ≡ some account_id
    → e.after ≡ none
    → e.at ≤ start
    → start < last
    → has_overlap account_id start last (e ∷ []) ≡ true
unfolding has_overlap next_at first_text is_text
unassigned_overlap account_id start last e holder gone early wide =
    let one = lt→ltb e.at last (omega arith) in
    let two = lt→ltb start last wide in rw (gone, holder, one, two, eq_refl account_id) refl

earlier_events :
    (start t : ℕ) (front : List Event)
    → start ≤ t
    → All (λ f. f.at ≤ start) front
    → All (λ f. f.at ≤ t) front
earlier_events start t [] from early = tt
earlier_events start t (f ∷ fs) from (early, rest) =
    (omega arith, earlier_events start t fs from rest)

-- Whatever the changes before it are, an account whose last change is its unassignment, at or before
-- the start of the interval, is assigned at no time of the interval, and the overlap is called
-- verified all the same.
pub verdict-unassigned :
    (account_id : String) (start last t : ℕ) (held : Option String) (front : List Event) (e : Event)
    → All (λ f. f.at ≤ start) front
    → e.before ≡ some account_id
    → e.after ≡ none
    → e.at ≤ start
    → start ≤ t
    → t < last
    → (assigned_at held (front ++ e ∷ []) t ≡ none)
      × (verdict account_id start last (front ++ e ∷ []) true ≡ "verified_overlap")
verdict-unassigned account_id start last t held front e earlier holder gone early from below = (
  assigned_last held t front e (earlier_events start t front from earlier) (omega arith) ∙ gone,
  verdict-found account_id start last front e (
      last_overlap account_id start last front e
        (unassigned_overlap account_id start last e holder gone early (omega arith))),
)
