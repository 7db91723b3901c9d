-- ===== src/Packets/Activity/Rounds.antt =====
-- What every round of the loops of packets/activity.py keeps.
use work_trace.Prelude.{
  ℕ, ◌+◌, String, true, false, ◌||◌, if-split, Option, none, some, List, [], ◌∷◌, All, ◌≡◌,
}
use work_trace.Prelude.Texts.{◌==◌, elem}
use work_trace.Json.{Json, null, bool, int, float, str, arr, obj, Items, nil, cons, get}
use work_trace.Packets.Release.{EvidenceRecord}
use work_trace.Packets.Activity.{
  Seen, Points, Reviewed, with_evidence, noted, is_boundary_context, time_fields, include,
  timestamp, point, time_points, interval_point, interval_points, assigned_points, points,
  child_points, add_supporting, supported_by, issue_points, record_points, review, review_all,
}

module _ (lower upper : ℕ) (P : Seen → Type 0) (Q : EvidenceRecord → Type 0)
    (kept : (r : EvidenceRecord) (start end : Option ℕ) (seen : Seen)
      → Q r
      → P seen
      → P (include lower upper r start end seen).seen)
    (added : (r : EvidenceRecord) (seen : Seen) → Q r → P seen → P (with_evidence r seen))
    (read_time : String → Option ℕ) where
  point-kept :
      (r : EvidenceRecord) (at : Option ℕ) (p : Points)
      → Q r
      → P p.seen
      → P (point lower upper read_time r at p).seen
  unfolding point noted
  point-kept r none p q h = h
  point-kept r (some at) p q h = kept r (some at) (some (at + 1)) p.seen q h

  time_points-kept :
      (r : EvidenceRecord) (fs : List String) (p : Points)
      → Q r
      → P p.seen
      → P (time_points lower upper read_time r fs p).seen
  unfolding time_points
  time_points-kept r [] p q h = h
  time_points-kept r (f ∷ fs) p q h =
      time_points-kept r fs
        (point lower upper read_time r (timestamp lower upper read_time (get f r.content)) p) q
        (point-kept r (timestamp lower upper read_time (get f r.content)) p q h)

  interval_point-kept :
      (r : EvidenceRecord) (v : Json) (p : Points)
      → Q r
      → P p.seen
      → P (interval_point lower upper read_time r v p).seen
  unfolding interval_point noted
  interval_point-kept r null p q h = h
  interval_point-kept r (bool b) p q h = h
  interval_point-kept r (int n) p q h = h
  interval_point-kept r (float s) p q h = h
  interval_point-kept r (str s) p q h = h
  interval_point-kept r (arr vs) p q h = h
  interval_point-kept r (obj fs) p q h =
      kept r (timestamp lower upper read_time (get "from" fs))
        (timestamp lower upper read_time (get "to" fs)) p.seen q h

  interval_points-kept :
      (r : EvidenceRecord) (vs : Items) (p : Points)
      → Q r
      → P p.seen
      → P (interval_points lower upper read_time r vs p).seen
  unfolding interval_points
  interval_points-kept r nil p q h = h
  interval_points-kept r (cons v vs) p q h =
      interval_points-kept r vs (interval_point lower upper read_time r v p) q
        (interval_point-kept r v p q h)

  assigned_points-kept :
      (r : EvidenceRecord) (v : Json) (p : Points)
      → Q r
      → P p.seen
      → P (assigned_points lower upper read_time r v p).seen
  unfolding assigned_points
  assigned_points-kept r null p q h = h
  assigned_points-kept r (bool b) p q h = h
  assigned_points-kept r (int n) p q h = h
  assigned_points-kept r (float s) p q h = h
  assigned_points-kept r (str s) p q h = h
  assigned_points-kept r (arr vs) p q h = interval_points-kept r vs p q h
  assigned_points-kept r (obj fs) p q h = h

  points-kept :
      (r : EvidenceRecord) (p : Points) → Q r → P p.seen → P (points lower upper read_time r p).seen
  unfolding points
  points-kept r p q h = assigned_points-kept r (get "assignment_intervals" r.content) _ q (
      if-split (λ (x : Points). P x.seen) (is_boundary_context r.content) p _ (λ e. h)
        (λ e. time_points-kept r (time_fields r.kind) p q h))

  child_points-kept :
      (contextual : List String) (cs : List EvidenceRecord) (p : Points)
      → All Q cs
      → P p.seen
      → P (child_points lower upper read_time contextual cs p).seen
  unfolding child_points
  child_points-kept contextual [] p qs h = h
  child_points-kept contextual (c ∷ cs) p (q, qs) h =
      child_points-kept contextual cs _ qs
        (if-split (λ (x : Points). P x.seen) _ p _ (λ e. h) (λ e. points-kept c p q h))

  add_supporting-kept :
      (cs : List EvidenceRecord) (ids : List String) (seen : Seen)
      → All Q cs
      → P seen
      → P (add_supporting lower upper read_time cs ids seen)
  unfolding add_supporting
  add_supporting-kept [] ids seen qs h = h
  add_supporting-kept (c ∷ cs) ids seen (q, qs) h =
      add_supporting-kept cs ids _ qs
        (if-split P (elem c.external_id ids) _ seen (λ e. added c seen q h) (λ e. h))

  supported_by-kept :
      (cs : List EvidenceRecord) (ids : Option (List String)) (seen : Seen)
      → All Q cs
      → P seen
      → P (supported_by lower upper read_time cs ids seen)
  unfolding supported_by
  supported_by-kept cs none seen qs h = h
  supported_by-kept cs (some ids) seen qs h = add_supporting-kept cs ids seen qs h

  module _ (children : EvidenceRecord → List EvidenceRecord) where
    -- A record may stand for itself and, if it is an issue, for its children.
    abbrev pub Admits : EvidenceRecord → Type 0
    Admits r = Q r × ((r.kind == "jira_issue") ≡ true → All Q (children r))

    record_points-kept :
        (contextual : List String) (r : EvidenceRecord) (seen : Seen)
        → Admits r
        → P seen
        → P (record_points lower upper read_time children contextual r seen).seen
    unfolding record_points issue_points
    record_points-kept contextual r seen (q, qs) h =
        if-split (λ (x : Points). P x.seen) (r.kind == "jira_issue") _ _
          (λ e.
            supported_by-kept (children r) _ _ (qs e)
              (child_points-kept contextual (children r) _ (qs e) (points-kept r _ q h)))
          (λ e. points-kept r _ q h)

    pub review_all-kept :
        (contextual : List String) (rs : List EvidenceRecord) (state : Reviewed)
        → All (λ r. (r.context_only || is_boundary_context r.content) ≡ false → Admits r) rs
        → P state.seen
        → P (review_all lower upper read_time children contextual rs state).seen
    unfolding review_all review
    review_all-kept contextual [] state qs h = h
    review_all-kept contextual (r ∷ rs) state (q, qs) h = review_all-kept contextual rs _ qs (
        if-split (λ (x : Reviewed). P x.seen) _ state _ (λ e. h)
          (λ e. record_points-kept contextual r state.seen (q e) h))
