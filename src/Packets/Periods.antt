-- ===== src/Packets/Periods.antt =====
-- packets/activity.py: the period of an activity and its filter. A time is a number of microseconds;
-- the parameters give the midnight in the zone that begins a date and the one that ends it.
use work_trace.Prelude.{
  ℕ, ltb, String, Bool, true, false, not, ◌||◌, ◌&&◌, Option, none, some, List, if◌then◌else◌,
}
use work_trace.Prelude.Texts.{◌==◌}

pub record ActivityPeriod : Type 0 where
  pub start : Option ℕ
  pub end : Option ℕ
  pub status : String
  pub evidence_ids : List String

-- `lower is None or self.end > lower`
is_after : Option ℕ → ℕ → Bool
is_after none at = true
is_after (some bound) at = ltb bound at

-- `upper is None or self.start < upper`
is_before : Option ℕ → ℕ → Bool
is_before none at = true
is_before (some bound) at = ltb at bound

-- `f(value) if value else None`
unfoldable pub bound_of : (String → ℕ) → Option String → Option ℕ
bound_of f none = none
bound_of f (some s) = if s == "" then none else some (f s)

-- The end of `matches`, with the variables `lower` and `upper`.
unfoldable pub passes : Option ℕ → Option ℕ → Option ℕ → Option ℕ → Bool
unfolding is_after is_before
passes lower upper none end = false
passes lower upper (some start) none = false
passes lower upper (some start) (some end) = is_after lower end && is_before upper start

-- The truth of an optional text.
unfoldable pub given : Option String → Bool
given none = false
given (some s) = not (s == "")

module _ (midnight midnight_after : String → ℕ) where
  -- `ActivityPeriod.matches`
  unfoldable pub matches : Option String → Option String → ActivityPeriod → Bool
  matches first last period =
      if not (given first || given last)
      then true
      else passes (bound_of midnight first) (bound_of midnight_after last) period.start period.end
