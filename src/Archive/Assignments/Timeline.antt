-- ===== src/Archive/Assignments/Timeline.antt =====
-- The intervals of `assignment_overlap` (archive/jira/selector.py) against the assignee at each time.
use work_trace.Prelude.{
  ℕ, ltb, leb, ◌≤◌, ◌<◌, max, Bool-cases, leb→le, lt→ltb, ltb→lt, String, Bool, true, Option, none,
  some, is_some, List, [], ◌∷◌, if◌then◌else◌, ◌≡◌, ◌↔◌, inl, inr, refl, sym, ap, ◌∙◌, arith,
}
use work_trace.Prelude.Texts.{eq_iff, eq_refl, apart}
use work_trace.Json.{Json, Fields}
use work_trace.Archive.Assignments.{
  Event, first_text, is_text, sort_events, next_at, has_overlap, verdict, collect_pages,
  assignment_overlap,
}

-- Who is assigned at a time, after an assignee that is known before the events.
abbrev pub assigned_at : Option String → List Event → ℕ → Option String
assigned_at held [] t = held
assigned_at held (e ∷ es) t = if leb e.at t then assigned_at e.after es t else held

abbrev pub Follows : Event → List Event → Type 0
Follows e [] = Unit
Follows e (f ∷ fs) = e.at < f.at

-- Changes at different times, in order, each to an account.
abbrev pub IsTimeline : List Event → Type 0
IsTimeline [] = Unit
IsTimeline (e ∷ es) = (is_some e.after ≡ true) × Follows e es × IsTimeline es

abbrev pub Held : String → ℕ → ℕ → List Event → Type 0
Held account_id start last es =
    (t : ℕ) × (start ≤ t) × (t < last) × (assigned_at none es t ≡ some account_id)

held_before :
    (held : Option String) (e : Event) (es : List Event) (t : ℕ)
    → t < e.at
    → assigned_at held (e ∷ es) t ≡ held
held_before held e es t early = ground (arith, early)

held_after :
    (held : Option String) (e : Event) (es : List Event) (t : ℕ)
    → e.at ≤ t
    → assigned_at held (e ∷ es) t ≡ assigned_at e.after es t
held_after held e es t late = ground (arith, late)

first_text-some :
    (a b : Option String) (s : String)
    → is_some a ≡ true
    → is_text (first_text a b) s ≡ true
    → a ≡ some s
unfolding first_text is_text
first_text-some none b s there same = absurd (cc)
first_text-some (some x) b s there same = ap (λ (y : String). some y) ((eq_iff x s).0 same)

is_text-some : (b : Option String) (s : String) → is_text (first_text (some s) b) s ≡ true
unfolding first_text is_text
is_text-some b s = eq_refl s

-- Within the interval of `e` nobody else comes in.
in_interval :
    (e : Event) (es : List Event) (t last : ℕ)
    → e.at ≤ t
    → t < last
    → t < next_at es last
    → assigned_at none (e ∷ es) t ≡ e.after
unfolding next_at
in_interval e [] t last from below here = held_after none e [] t from
in_interval e (f ∷ fs) t last from below here =
    held_after none e (f ∷ fs) t from ∙ held_before e.after f fs t here

later_holder :
    (e : Event) (es : List Event) (t : ℕ) (account_id : String)
    → Follows e es
    → assigned_at none es t ≡ some account_id
    → assigned_at none (e ∷ es) t ≡ some account_id
later_holder e [] t account_id follows held = absurd (cc)
later_holder e (f ∷ fs) t account_id follows held = elim (Bool-cases (leb f.at t)) [
  | inl late ↦
      let late' = leb→le f.at t late in
      held_after none e (f ∷ fs) t (omega arith)
      ∙ held_after e.after f fs t late'
      ∙ sym (held_after none f fs t late')
      ∙ held
  | inr early ↦ absurd (ground (arith, early, held))
]

before_next :
    (e : Event) (es : List Event) (start last : ℕ)
    → Follows e es
    → e.at < last
    → start < next_at es last
    → max start e.at < next_at es last
unfolding next_at
before_next e [] start last follows early goes_on = omega arith
before_next e (f ∷ fs) start last follows early goes_on = omega arith

overlap-Held :
    (account_id : String) (start last : ℕ) (es : List Event)
    → IsTimeline es
    → start < last
    → has_overlap account_id start last es ≡ true
    → Held account_id start last es
unfolding has_overlap
overlap-Held account_id start last [] line wide found = absurd (cc)
overlap-Held account_id start last (e ∷ es) (changed, follows, line) wide found =
    elim (Bool-cases (has_overlap account_id start last es)) [
      | inl rest ↦
          let (t, from, below, held) = overlap-Held account_id start last es line wide rest in
          (t, from, below, later_holder e es t account_id follows held)
      | inr none_later ↦
          let same : is_text (first_text e.after e.before) account_id ≡ true =
            ground (arith, found, none_later) in
          let starts : ltb e.at last ≡ true = ground (arith, found, none_later) in
          let goes_on : ltb start (next_at es last) ≡ true = ground (arith, found, none_later) in
          let t = max start e.at in
          let inside =
            before_next e es start last follows (ltb→lt e.at last starts)
              (ltb→lt start (next_at es last) goes_on) in
          (
            t,
            omega arith,
            (let early = ltb→lt e.at last starts in omega arith),
            in_interval e es t last (omega arith)
                  (let early = ltb→lt e.at last starts in omega arith) inside
                ∙ first_text-some e.after e.before account_id changed same,
          )
    ]

overlap_here :
    (account_id : String) (start last t : ℕ) (e : Event) (es : List Event)
    → e.after ≡ some account_id
    → e.at ≤ t
    → start ≤ t
    → t < last
    → t < next_at es last
    → has_overlap account_id start last (e ∷ es) ≡ true
unfolding has_overlap
overlap_here account_id start last t e es holder began from below here =
    let named =
      ap (λ (o : Option String). is_text (first_text o e.before) account_id) holder
      ∙ is_text-some e.before account_id in
    let one = lt→ltb e.at last (omega arith) in
    let two = lt→ltb start (next_at es last) (omega arith) in rw (named, one, two)

pub overlap_rest :
    (account_id : String) (start last : ℕ) (e : Event) (es : List Event)
    → has_overlap account_id start last es ≡ true
    → has_overlap account_id start last (e ∷ es) ≡ true
unfolding has_overlap
overlap_rest account_id start last e es rest = ground (arith, rest)

verdict_iff :
    (account_id : String) (start last : ℕ) (es : List Event) (complete : Bool)
    → complete ≡ true
    → (verdict account_id start last es complete ≡ "verified_overlap")
      ↔ (has_overlap account_id start last es ≡ true)
unfolding verdict has_overlap
verdict_iff account_id start last [] complete whole =
    (λ e. absurd (apart "boundary_unknown" "verified_overlap" refl e), λ e. absurd (cc))
verdict_iff account_id start last (e ∷ es) complete whole =
    elim (Bool-cases (has_overlap account_id start last (e ∷ es))) [
      | inl found ↦ (λ v. found, λ v. rw (whole, found) refl)
      | inr missed ↦ (
        λ v.
            let left : "excluded" ≡ "verified_overlap" = rw (whole, missed) at v in
            absurd (apart "excluded" "verified_overlap" refl left),
        λ v. absurd (cc),
      )
    ]

Held-overlap :
    (account_id : String) (start last : ℕ) (es : List Event)
    → IsTimeline es
    → Held account_id start last es
    → has_overlap account_id start last es ≡ true
unfolding next_at
Held-overlap account_id start last [] line (t, from, below, held) = absurd (cc)
Held-overlap account_id start last (e ∷ []) (changed, follows, line) (t, from, below, held) =
    elim (Bool-cases (leb e.at t)) [
      | inr early ↦ absurd (ground (arith, early, held))
      | inl late ↦
          let began = leb→le e.at t late in
          overlap_here account_id start last t e [] (sym (held_after none e [] t began) ∙ held)
            began from below below
    ]
Held-overlap account_id start last (e ∷ f ∷ fs) (changed, follows, line) (t, from, below, held) =
    elim (Bool-cases (leb e.at t)) [
      | inr early ↦ absurd (ground (arith, early, held))
      | inl late ↦
          let began = leb→le e.at t late in
          let held' = sym (held_after none e (f ∷ fs) t began) ∙ held in
          elim (Bool-cases (leb f.at t)) [
            | inr early ↦
                let here : t < f.at = ground (arith, early) in
                overlap_here account_id start last t e (f ∷ fs)
                  (sym (held_before e.after f fs t here) ∙ held') began from below here
            | inl later ↦
                let came = leb→le f.at t later in
                overlap_rest account_id start last e (f ∷ fs) (
                  Held-overlap account_id start last (f ∷ fs) line (
                    t,
                    from,
                    below,
                    held_after none f fs t came ∙ sym (held_after e.after f fs t came) ∙ held',
                  ))
          ]
    ]

-- Where the changelog is complete, its changes are at different times and each goes to an
-- account, and the interval is not empty, the overlap is verified exactly when the changes leave
-- the issue assigned to the account at some time of the interval, from the first change on and, by
-- the last change, up to the end of the interval.
pub assignment_overlap_iff :
    (timestamp : Json → Option ℕ) (pages : List Fields) (account_id : String) (start last : ℕ)
    → (let c = collect_pages timestamp pages (record { events = []; complete = true }) in
        c.complete ≡ true)
    → (let c = collect_pages timestamp pages (record { events = []; complete = true }) in
        IsTimeline (sort_events c.events))
    → start < last
    → (assignment_overlap timestamp pages account_id start last ≡ "verified_overlap")
      ↔ Held account_id start last (
          sort_events
            (collect_pages timestamp pages (record { events = []; complete = true })).events)
unfolding assignment_overlap
assignment_overlap_iff timestamp pages account_id start last whole line wide =
    let c = collect_pages timestamp pages (record { events = []; complete = true }) in
    let same = verdict_iff account_id start last (sort_events c.events) c.complete whole in
    (
      λ verified.
          overlap-Held account_id start last (sort_events c.events) line wide (same.0 verified),
      λ held. same.1 (Held-overlap account_id start last (sort_events c.events) line held),
    )
