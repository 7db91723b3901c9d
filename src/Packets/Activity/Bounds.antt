-- ===== src/Packets/Activity/Bounds.antt =====
-- The bounds of the periods of packets/activity.py.
use work_trace.Prelude.{
  ℕ, ◌≤◌, ◌<◌, min, max, leb, String, Bool, true, false, ◌||◌, if-split, Option, none, some,
  is_some, List, All-always, ◌≡◌, ◌↔◌, refl, arith,
}
use work_trace.Prelude.Texts.{◌==◌, apart}
use work_trace.Packets.Release.{EvidenceRecord}
use work_trace.Packets.Periods.{ActivityPeriod, matches, passes, given, bound_of}
use work_trace.Packets.Activity.{
  Seen, Included, earlier_time, later_time, with_evidence, include, include_times, clipped,
  period_of, status_of, reviewed, period_within, activity_period,
}
use work_trace.Packets.Activity.Rounds.{review_all-kept}

-- Both ends are unknown, or they bound some time between the limits.
abbrev pub IsWithin : ℕ → ℕ → Option ℕ → Option ℕ → Type 0
IsWithin lower upper none none = Unit
IsWithin lower upper none (some e) = ⊥
IsWithin lower upper (some s) none = ⊥
IsWithin lower upper (some s) (some e) = (lower ≤ s) × (s < e) × (e ≤ upper)

clipped-IsWithin :
    (lower upper start end : ℕ) (a b : Option ℕ)
    → lower < upper
    → start < end
    → start < upper
    → lower < end
    → IsWithin lower upper a b
    → IsWithin lower upper
        (some (earlier_time a (max start lower)))
        (some (later_time b (min end upper)))
unfolding earlier_time later_time
clipped-IsWithin lower upper start end none none h1 h2 h3 h4 w = ground arith
clipped-IsWithin lower upper start end none (some y) h1 h2 h3 h4 w = elim w [ ]
clipped-IsWithin lower upper start end (some x) none h1 h2 h3 h4 w = elim w [ ]
clipped-IsWithin lower upper start end (some x) (some y) h1 h2 h3 h4 (w1, w2, w3) = ground arith

include-IsWithin :
    (lower upper : ℕ) (r : EvidenceRecord) (start end : Option ℕ) (seen : Seen)
    → lower < upper
    → IsWithin lower upper seen.earliest seen.latest
    → IsWithin lower upper
        (include lower upper r start end seen).seen.earliest
        (include lower upper r start end seen).seen.latest
unfolding include include_times clipped
include-IsWithin lower upper r none end seen h w = w
include-IsWithin lower upper r (some start) none seen h w = w
include-IsWithin lower upper r (some start) (some end) seen h w =
    if-split (λ (x : Included). IsWithin lower upper x.seen.earliest x.seen.latest)
      (leb end start || leb upper start || leb end lower) _ _ (λ e. w)
      (λ e.
        clipped-IsWithin lower upper start end seen.earliest seen.latest h (ground arith)
          (ground arith) (ground arith) w)

with_evidence-IsWithin :
    (lower upper : ℕ) (r : EvidenceRecord) (seen : Seen)
    → IsWithin lower upper seen.earliest seen.latest
    → IsWithin lower upper (with_evidence r seen).earliest (with_evidence r seen).latest
unfolding with_evidence
with_evidence-IsWithin lower upper r seen w = w

unknown_iff : (o : Option ℕ) (unknown : Bool) → (status_of o unknown ≡ "unknown") ↔ (o ≡ none)
unfolding status_of
unknown_iff none unknown = (λ e. refl, λ e. refl)
unknown_iff (some n) true =
    (λ e. absurd (apart "partially_known" "unknown" refl e), λ e. absurd (cc))
unknown_iff (some n) false = (λ e. absurd (apart "known" "unknown" refl e), λ e. absurd (cc))

period_within-IsWithin :
    (lower upper : ℕ) (read_time : String → Option ℕ)
    (children : EvidenceRecord → List EvidenceRecord) (records : List EvidenceRecord)
    → lower < upper
    → IsWithin lower upper
        (period_within lower upper read_time children records).start
        (period_within lower upper read_time children records).end
unfolding period_within period_of reviewed
period_within-IsWithin lower upper read_time children records h =
    review_all-kept lower upper (λ seen. IsWithin lower upper seen.earliest seen.latest) (λ r. Unit)
      (λ r start end seen q w. include-IsWithin lower upper r start end seen h w)
      (λ r seen q w. with_evidence-IsWithin lower upper r seen w) read_time children _ records _
      (All-always _ (λ r e. (tt, λ k. All-always _ (λ c. tt) (children r))) records) tt

bound_of-some : (f : String → ℕ) (s : String) → (s == "") ≡ false → bound_of f (some s) ≡ some (f s)
unfolding bound_of
bound_of-some f s e = ground (arith, e)

passes-IsWithin :
    (lower upper : ℕ) (start end : Option ℕ)
    → lower < upper
    → IsWithin lower upper start end
    → passes (some lower) (some upper) start end ≡ is_some start
unfolding passes
passes-IsWithin lower upper none end h w = refl
passes-IsWithin lower upper (some s) none h w = elim w [ ]
passes-IsWithin lower upper (some s) (some e) h (w1, w2, w3) = ground arith

module _ (midnight midnight_after : String → ℕ) (read_time : String → Option ℕ)
    (children : EvidenceRecord → List EvidenceRecord) (first last : String)
    (records : List EvidenceRecord) where
  abbrev activity : ActivityPeriod
  activity = activity_period midnight midnight_after read_time children first last records

  activity-matches :
      (first == "") ≡ false
      → (last == "") ≡ false
      → midnight first < midnight_after last
      → IsWithin (midnight first) (midnight_after last) activity.start activity.end
      → matches midnight midnight_after (some first) (some last) activity ≡ is_some activity.start
  unfolding matches given
  activity-matches p q h w = rw (
    p,
    bound_of-some midnight first p,
    bound_of-some midnight_after last q,
    passes-IsWithin (midnight first) (midnight_after last) activity.start activity.end h w,
  )

  -- A period of activity is taken over two dates, which are no empty texts, where the first begins
  -- before the last one ends. It has both ends or none: its start is not before the midnight of the
  -- first date, its end comes after its start and not after the midnight that ends the last date.
  -- Its status is "unknown" exactly when it has no start, and it passes the filter by these two dates
  -- exactly when it has one.
  pub activity_period-IsWithin :
      (first == "") ≡ false
      → (last == "") ≡ false
      → midnight first < midnight_after last
      → IsWithin (midnight first) (midnight_after last) activity.start activity.end
        × ((activity.status ≡ "unknown") ↔ (activity.start ≡ none))
        × (matches midnight midnight_after (some first) (some last) activity
            ≡ is_some activity.start)
  unfolding activity_period period_within period_of
  activity_period-IsWithin p q h =
      let w = period_within-IsWithin _ _ read_time children records h in
      (w, unknown_iff _ _, activity-matches p q h w)
