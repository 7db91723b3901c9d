-- ===== src/Packets/Activity/Origins.antt =====
-- Which records the periods of packets/activity.py name.
use mathlib.Core.Path.{subst}
use work_trace.Prelude.{
  ℕ, leb, String, true, false, ◌||◌, Bool-cases, if-split, Option, none, some, List, [], ◌∷◌, All,
  ◌≡◌, ◌⊎◌, inl, inr, refl, arith, sym, ◌∙◌,
}
use work_trace.Prelude.Texts.{◌==◌, eq_iff, elem, add, elem-add, elem-sorted, All-of_elem}
use work_trace.Packets.Release.{EvidenceRecord}
use work_trace.Packets.Activity.{
  Seen, Included, with_evidence, is_boundary_context, include, include_times, clipped, period_of,
  reviewed, period_within, activity_period,
}
use work_trace.Packets.Activity.Rounds.{review_all-kept}

abbrev pub HasId : List EvidenceRecord → String → Type 0
HasId [] id = ⊥
HasId (r ∷ rs) id = (r.observation_id ≡ id) ⊎ HasId rs id

-- The id of one of the records that is neither context nor boundary, or of a child of such an issue.
abbrev pub IsOrigin : (EvidenceRecord → List EvidenceRecord) → List EvidenceRecord → String → Type 0
IsOrigin children [] id = ⊥
IsOrigin children (r ∷ rs) id =
    ((r.context_only ≡ false)
      × (is_boundary_context r.content ≡ false)
      × ((r.observation_id ≡ id) ⊎ (((r.kind == "jira_issue") ≡ true) × HasId (children r) id)))
    ⊎ IsOrigin children rs id

module _ (O : String → Type 0) where
  Owned : Seen → Type 0
  Owned seen = (id : String) → elem id seen.evidence ≡ true → O id

  added-Owned :
      (id : String) (ids : List String)
      → O id
      → ((k : String) → elem k ids ≡ true → O k)
      → (k : String) → elem k (add id ids) ≡ true
      → O k
  added-Owned id ids o h k e = elim (Bool-cases (id == k)) [
    | inl same ↦ subst O ((eq_iff id k).0 same) o
    | inr other ↦ h k (ground (arith, elem-add k id ids, e, other))
  ]

  include-Owned :
      (lower upper : ℕ) (r : EvidenceRecord) (start end : Option ℕ) (seen : Seen)
      → O r.observation_id
      → Owned seen
      → Owned (include lower upper r start end seen).seen
  unfolding Owned include include_times clipped
  include-Owned lower upper r none end seen o h = h
  include-Owned lower upper r (some s) none seen o h = h
  include-Owned lower upper r (some s) (some e) seen o h =
      if-split (λ (x : Included). Owned x.seen) (leb e s || leb upper s || leb e lower) _ _ (λ p. h)
        (λ p. added-Owned r.observation_id seen.evidence o h)

  with_evidence-Owned :
      (r : EvidenceRecord) (seen : Seen)
      → O r.observation_id
      → Owned seen
      → Owned (with_evidence r seen)
  unfolding Owned with_evidence
  with_evidence-Owned r seen o h = added-Owned r.observation_id seen.evidence o h

  children-All :
      (cs : List EvidenceRecord)
      → ((id : String) → HasId cs id → O id)
      → All (λ c. O c.observation_id) cs
  children-All [] h = tt
  children-All (c ∷ cs) h = (h c.observation_id (inl refl), children-All cs (λ id m. h id (inr m)))

  module _ (children : EvidenceRecord → List EvidenceRecord) where
    admitted-All :
        (rs : List EvidenceRecord)
        → ((id : String) → IsOrigin children rs id → O id)
        → All
            (λ r.
              (r.context_only || is_boundary_context r.content) ≡ false
              → O r.observation_id
                × ((r.kind == "jira_issue") ≡ true → All (λ c. O c.observation_id) (children r)))
            rs
    admitted-All [] h = tt
    admitted-All (r ∷ rs) h = (
      λ e. (
        h r.observation_id (inl (ground (arith, e), ground (arith, e), inl refl)),
        λ k.
            children-All (children r)
              (λ id m. h id (inl (ground (arith, e), ground (arith, e), inr (k, m)))),
      ),
      admitted-All rs (λ id m. h id (inr m)),
    )

module _ (lower upper : ℕ) (read_time : String → Option ℕ)
    (children : EvidenceRecord → List EvidenceRecord) (records : List EvidenceRecord) where
  reviewed-Owned :
      Owned (IsOrigin children records) (reviewed lower upper read_time children records).seen
  unfolding reviewed Owned elem
  reviewed-Owned =
      review_all-kept lower upper (Owned (IsOrigin children records))
        (λ r. IsOrigin children records r.observation_id)
        (include-Owned (IsOrigin children records) lower upper)
        (with_evidence-Owned (IsOrigin children records)) read_time children _ records _
        (admitted-All (IsOrigin children records) children records (λ id m. m))
        (λ id m. absurd (cc))

  period_within-IsOrigin :
      All
        (IsOrigin children records)
        (period_within lower upper read_time children records).evidence_ids
  unfolding period_within period_of Owned
  period_within-IsOrigin =
      All-of_elem (IsOrigin children records) _
        (λ k e. reviewed-Owned k (sym (elem-sorted k _) ∙ e))

-- Every id that a period of activity names is that of a record which is neither context nor the
-- context of a boundary, or that of a child of such an issue of Jira.
pub activity_period-IsOrigin :
    (midnight midnight_after : String → ℕ) (read_time : String → Option ℕ)
    (children : EvidenceRecord → List EvidenceRecord) (first last : String)
    (records : List EvidenceRecord)
    → All
        (IsOrigin children records)
        (activity_period midnight midnight_after read_time children first last records).evidence_ids
unfolding activity_period
activity_period-IsOrigin midnight midnight_after read_time children first last records =
    period_within-IsOrigin (midnight first) (midnight_after last) read_time children records
