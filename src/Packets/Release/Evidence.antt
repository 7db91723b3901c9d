-- ===== src/Packets/Release/Evidence.antt =====
-- The rungs of `build_release_ladder` (packets/release.py) together.
use work_trace.Prelude.{
  String, Bool, true, false, Bool-cases, Option-cases, Option, none, some, any, List, [], ◌∷◌, map,
  ◌≡◌, ◌⊎◌, inl, inr, refl, ap, ◌∙◌, arith,
}
use work_trace.Prelude.Texts.{elem}
use work_trace.Errors.{ok, err, pattern_error}
use work_trace.Json.{Json, Fields}
use work_trace.Packets.Release.{
  EvidenceRecord, HumanAttestation, Rung, Ladder, observed_rung, find_attestation, attested_or,
  is_implementation, is_merged, is_release_associated, is_deployed, is_manual_metric,
  implemented_rung, implementation_claims, release_claims, enablement_claims, success_claims,
  match_value, match_values, matches_release_tag, raises_pattern_error, ladder_of,
  build_release_ladder,
}
use work_trace.Packets.Release.Grounds.{
  IsAttested, IsUnknown, IsObserved, IsAttestedRung, observed_rung-IsObserved,
}

module _ (casefold : String → String) (str_of : Json → String)
    (tag_matches : String → String → Option Bool) where
  find_attestation-IsAttested :
      (attestations : List HumanAttestation) (claims : List String) (a : HumanAttestation)
      → find_attestation casefold str_of tag_matches attestations claims ≡ some a
      → IsAttested casefold attestations claims a.decision_id
  unfolding find_attestation
  find_attestation-IsAttested [] claims a found = absurd (cc)
  find_attestation-IsAttested (b ∷ rest) claims a found =
      elim (Option-cases (find_attestation casefold str_of tag_matches rest claims)) [
        | inr (c, later) ↦
            let same : c ≡ a = ground (arith, later, found) in
            inr (
              find_attestation-IsAttested rest claims a
                (later ∙ ap (λ (x : HumanAttestation). some x) same))
        | inl none_later ↦ elim (Bool-cases (elem (casefold b.claim) (map casefold claims))) [
          | inl named ↦
              let same : b ≡ a = ground (arith, none_later, named, found) in
              inl (ap (λ (x : HumanAttestation). x.decision_id) same, named)
          | inr other ↦ absurd (ground (arith, none_later, other, found))
        ]
      ]

  attested_or-split :
      (P : Rung → Type 0) (attestations : List HumanAttestation) (claims : List String)
      (rung : Rung)
      → P rung
      → P (attested_or casefold str_of tag_matches attestations claims rung)
        ⊎ IsAttestedRung casefold attestations claims
            (attested_or casefold str_of tag_matches attestations claims rung)
  unfolding attested_or
  attested_or-split P attestations claims rung holds =
      elim (Option-cases (find_attestation casefold str_of tag_matches attestations claims)) [
        | inl e ↦ inl (rw (attested_or, e) holds)
        | inr (a, e) ↦
            let known = find_attestation-IsAttested attestations claims a e in
            inr (rw (attested_or, e) (refl, (a.decision_id, refl, known)))
      ]

  -- Each rung of a ladder and what it may rest on.
  pub record IsGrounded (records : List EvidenceRecord) (attestations : List HumanAttestation)
      (ladder : Ladder) : Type 0 where
    pub implemented :
        IsObserved records ladder.implemented
        ⊎ IsAttestedRung casefold attestations implementation_claims ladder.implemented
    pub merged : IsObserved records ladder.merged
    pub release_associated : IsObserved records ladder.release_associated
    pub deployed : IsObserved records ladder.deployed
    pub released_to_users :
        IsUnknown ladder.released_to_users
        ⊎ IsAttestedRung casefold attestations release_claims ladder.released_to_users
    pub currently_enabled :
        IsUnknown ladder.currently_enabled
        ⊎ IsAttestedRung casefold attestations enablement_claims ladder.currently_enabled
    pub measurably_successful :
        IsObserved records ladder.measurably_successful
        ⊎ IsAttestedRung casefold attestations success_claims ladder.measurably_successful

  implemented_rung-lem :
      (records kept : List EvidenceRecord) (attestations : List HumanAttestation)
      → ((statement limitation : String)
          → IsObserved records (observed_rung kept statement limitation))
      → IsObserved records (implemented_rung casefold str_of tag_matches kept attestations)
        ⊎ IsAttestedRung casefold attestations implementation_claims
            (implemented_rung casefold str_of tag_matches kept attestations)
  unfolding implemented_rung
  implemented_rung-lem records [] attestations observed =
      attested_or-split (IsObserved records) attestations implementation_claims _ (observed _ _)
  implemented_rung-lem records (r ∷ rs) attestations observed = inl (observed _ _)

  implementation_outside :
      (objects evidence : List String) (r : EvidenceRecord)
      → is_implementation casefold str_of tag_matches objects evidence r ≡ true
      → r.context_only ≡ false
  unfolding is_implementation
  implementation_outside objects evidence r e = ground (arith, e)

  no_records : (limitation : String) → IsUnknown (observed_rung [] "" limitation)
  unfolding observed_rung
  no_records limitation = (refl, refl, refl)

  ladder_of-IsGrounded :
      (records : List EvidenceRecord) (participation : Fields)
      (attestations : List HumanAttestation) (production_environments patterns : List String)
      → IsGrounded records attestations (
          ladder_of casefold str_of tag_matches records participation attestations
            production_environments patterns)
  unfolding ladder_of
  ladder_of-IsGrounded records participation attestations production_environments patterns =
      record {
        implemented = implemented_rung-lem records _ attestations (λ statement limitation.
            observed_rung-IsObserved (is_implementation casefold str_of tag_matches _ _) records
              statement limitation (implementation_outside _ _));
        merged =
            observed_rung-IsObserved (is_merged casefold str_of tag_matches) records _ _
              (λ r e. unfold is_merged in ground (arith, e));
        release_associated =
            observed_rung-IsObserved (is_release_associated casefold str_of tag_matches patterns)
              records _ _ (λ r e. unfold is_release_associated in ground (arith, e));
        deployed =
            observed_rung-IsObserved
              (is_deployed casefold str_of tag_matches production_environments) records _ _
              (λ r e. unfold is_deployed in ground (arith, e));
        released_to_users =
            attested_or-split IsUnknown attestations release_claims _ (no_records _);
        currently_enabled =
            attested_or-split IsUnknown attestations enablement_claims _ (no_records _);
        measurably_successful =
            attested_or-split (IsObserved records) attestations success_claims _ (
              observed_rung-IsObserved (is_manual_metric casefold str_of tag_matches) records _ _
                (λ r e. unfold is_manual_metric in ground (arith, e)));
      }

  -- Some value makes one of the patterns raise.
  abbrev pub RaisesPattern : List String → Type 0
  RaisesPattern [] = ⊥
  RaisesPattern (p ∷ ps) = ((value : String) × (tag_matches value p ≡ none)) ⊎ RaisesPattern ps

  match_value-none :
      (value : String) (patterns : List String) (rest : Option Bool)
      → match_value casefold str_of tag_matches value patterns rest ≡ none
      → (rest ≡ none) ⊎ RaisesPattern patterns
  unfolding match_value
  match_value-none value [] rest h = inl h
  match_value-none value (p ∷ ps) rest h = elim (Option-cases (tag_matches value p)) [
    | inl e ↦ inr (inl (value, e))
    | inr (true, e) ↦ absurd (ground (arith, h, e))
    | inr (false, e) ↦ elim (match_value-none value ps rest (ground (arith, h, e))) [
      | inl r ↦ inl r
      | inr later ↦ inr (inr later)
    ]
  ]

  match_values-none :
      (values patterns : List String)
      → match_values casefold str_of tag_matches values patterns ≡ none
      → RaisesPattern patterns
  unfolding match_values
  match_values-none [] patterns h = absurd (cc)
  match_values-none (value ∷ values) patterns h = elim (match_value-none value patterns _ h) [
    | inl rest ↦ match_values-none values patterns rest
    | inr found ↦ found
  ]

  raises-RaisesPattern :
      (patterns : List String) (records : List EvidenceRecord)
      → any (raises_pattern_error casefold str_of tag_matches patterns) records ≡ true
      → RaisesPattern patterns
  unfolding any raises_pattern_error matches_release_tag
  raises-RaisesPattern patterns [] h = absurd (cc)
  raises-RaisesPattern patterns (r ∷ rs) h =
      elim (Option-cases (matches_release_tag casefold str_of tag_matches patterns r)) [
        | inl e ↦ match_values-none _ patterns e
        | inr (b, e) ↦ raises-RaisesPattern patterns rs (ground (arith, h, e))
      ]

  -- For any records, participation, attestations, environments and tag patterns, either one of the
  -- patterns raises re.error for some value, and the call raises it, or the call returns a ladder of
  -- which each rung is grounded: the rungs for merge, release and deployment are unknown, without
  -- statement or evidence, or supported by some records of the list none of which is context; the rungs
  -- for implementation and measured success are this, or rest on one attestation for their claims; and
  -- the rungs for availability to users and for current enablement are unknown or rest on such an
  -- attestation, whatever the records say.
  pub build_release_ladder-IsGrounded :
      (records : List EvidenceRecord) (participation : Fields)
      (attestations : List HumanAttestation) (production_environments patterns : List String)
      → (let result =
            build_release_ladder casefold str_of tag_matches records participation attestations
              production_environments patterns in
          ((result ≡ err pattern_error) × RaisesPattern patterns)
          ⊎ ((ladder : Ladder) × (result ≡ ok ladder) × IsGrounded records attestations ladder))
  unfolding build_release_ladder
  build_release_ladder-IsGrounded records participation attestations production_environments
        patterns =
      elim (Bool-cases (any (raises_pattern_error casefold str_of tag_matches patterns) records)) [
        | inl raised ↦ inl (ground (arith, raised), raises-RaisesPattern patterns records raised)
        | inr fine ↦ inr (
          _,
          ground (arith, fine),
          ladder_of-IsGrounded records participation attestations production_environments patterns,
        )
      ]
