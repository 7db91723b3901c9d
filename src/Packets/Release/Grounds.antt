-- ===== src/Packets/Release/Grounds.antt =====
-- What each rung of the release ladder (packets/release.py) rests on.
use work_trace.Prelude.{
  String, Bool, true, false, Bool-cases, none, List, [], ◌∷◌, map, keep_if, All, ◌≡◌, ◌≢◌, ◌⊎◌, inl,
  inr, refl, sym, ap, ◌∙◌, arith,
}
use work_trace.Prelude.Texts.{
  ◌==◌, All-of_elem, eq_iff, eq_refl, elem, elem-update, elem-sorted, update, sorted,
}
use work_trace.Packets.Release.{
  supported, human_attested, unknown, EvidenceRecord, HumanAttestation, Rung, record_ids,
  observed_rung,
}

-- A record of the list that is no context.
abbrev pub IsRecord : List EvidenceRecord → String → Type 0
IsRecord [] id = ⊥
IsRecord (r ∷ rs) id = ((r.observation_id ≡ id) × (r.context_only ≡ false)) ⊎ IsRecord rs id

-- An attestation of the list for one of the claims.
abbrev pub IsAttested : (String → String) → List HumanAttestation → List String → String → Type 0
IsAttested casefold [] claims id = ⊥
IsAttested casefold (a ∷ rest) claims id =
    ((a.decision_id ≡ id) × (elem (casefold a.claim) (map casefold claims) ≡ true))
    ⊎ IsAttested casefold rest claims id

abbrev pub IsUnknown : Rung → Type 0
IsUnknown rung =
    (rung.status ≡ unknown) × (rung.statement ≡ none) × (rung.supporting_evidence_ids ≡ [])

-- A rung that states something names some records, each of the list and no context.
abbrev pub IsObserved : List EvidenceRecord → Rung → Type 0
IsObserved records rung =
    IsUnknown rung
    ⊎ ((rung.status ≡ supported)
        × (rung.supporting_evidence_ids ≢ [])
        × All (IsRecord records) rung.supporting_evidence_ids)

abbrev pub IsAttestedRung : (String → String) → List HumanAttestation → List String → Rung → Type 0
IsAttestedRung casefold attestations claims rung =
    (rung.status ≡ human_attested)
    × ((id : String) × (rung.supporting_evidence_ids ≡ id ∷ [])
        × IsAttested casefold attestations claims id)

IsRecord-elem :
    (p : EvidenceRecord → Bool) (records : List EvidenceRecord) (id : String)
    → ((r : EvidenceRecord) → p r ≡ true → r.context_only ≡ false)
    → elem id (record_ids (keep_if p records)) ≡ true
    → IsRecord records id
unfolding keep_if record_ids elem
IsRecord-elem p [] id outside there = absurd (cc)
IsRecord-elem p (r ∷ rs) id outside there = elim (Bool-cases (p r)) [
  | inr e ↦ inr (IsRecord-elem p rs id outside (ground (arith, e, there)))
  | inl e ↦ elim (Bool-cases (r.observation_id == id)) [
    | inl same ↦ inl ((eq_iff r.observation_id id).0 same, outside r e)
    | inr other ↦ inr (IsRecord-elem p rs id outside (ground (arith, e, other, there)))
  ]
]

not_empty : (x : String) (xs : List String) → sorted (update (x ∷ xs) []) ≢ []
not_empty x xs none_left =
    let there : elem x (sorted (update (x ∷ xs) [])) ≡ true =
      elem-sorted x (update (x ∷ xs) [])
      ∙ elem-update x (x ∷ xs) []
      ∙ (unfold elem in ground (arith, eq_refl x)) in
    let gone : elem x (sorted (update (x ∷ xs) [])) ≡ false =
      ap (elem x) none_left ∙ (unfold elem in refl) in
    absurd (cc)

observed_rung-kept :
    (records kept : List EvidenceRecord) (statement limitation : String)
    → ((id : String) → elem id (record_ids kept) ≡ true → IsRecord records id)
    → IsObserved records (observed_rung kept statement limitation)
unfolding observed_rung record_ids
observed_rung-kept records [] statement limitation within = inl (refl, refl, refl)
observed_rung-kept records (r ∷ rs) statement limitation within = inr (
  refl,
  not_empty r.observation_id (record_ids rs),
  All-of_elem (IsRecord records) (sorted (update (record_ids (r ∷ rs)) [])) (λ id there. within id (
      sym (
        elem-sorted id (update (record_ids (r ∷ rs)) [])
        ∙ elem-update id (record_ids (r ∷ rs)) []
        ∙ (unfold elem in refl))
      ∙ there)),
)

pub observed_rung-IsObserved :
    (p : EvidenceRecord → Bool) (records : List EvidenceRecord) (statement limitation : String)
    → ((r : EvidenceRecord) → p r ≡ true → r.context_only ≡ false)
    → IsObserved records (observed_rung (keep_if p records) statement limitation)
observed_rung-IsObserved p records statement limitation outside =
    observed_rung-kept records (keep_if p records) statement limitation
      (λ id there. IsRecord-elem p records id outside there)
