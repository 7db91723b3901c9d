-- ===== src/Packets/Release.antt =====
-- packets/release.py: the release ladder of a contribution, with `find_attestation` of
-- packets/authority.py. The parameter `tag_matches` is `fnmatchcase(value, pattern) or
-- re.fullmatch(pattern, value) is not None`: none where re.fullmatch raises re.error.
pub mod Grounds
pub mod Evidence
use work_trace.Prelude.{
  String, Bool, true, false, not, ◌||◌, ◌&&◌, Option, none, some, is_some, List, [], ◌∷◌, ◌++◌, map,
  if◌then◌else◌, keep_if, any,
}
use work_trace.Prelude.Texts.{◌==◌, elem, update, sorted}
use work_trace.Json.{
  Json, str, arr, obj, Items, nil, cons, Fields, get, has_key, as_text, as_object,
}
use work_trace.Errors.{Result, ok, err, pattern_error}
use work_trace.Server.Values.{truthy}
use work_trace.Server.Patterns.{after_prefix}
use work_trace.Candidates.Projector.{text_of, text_in, list_at}
use work_trace.Packets.Kinds.{contains, is_merge_request}

pub data ClaimStatus : Type 0 where
  supported human_attested unknown : ClaimStatus

pub record EvidenceRecord : Type 0 where
  pub observation_id : String
  pub object_id : String
  pub source : String
  pub kind : String
  pub external_id : String
  pub content : Fields
  pub context_only : Bool

pub record HumanAttestation : Type 0 where
  pub decision_id : String
  pub claim : String
  pub statement : String

pub record Rung : Type 0 where
  pub status : ClaimStatus
  pub statement : Option String
  pub source_text_is_untrusted : Bool
  pub supporting_evidence_ids : List String
  pub limitations : List String

pub record Ladder : Type 0 where
  pub implemented : Rung
  pub merged : Rung
  pub release_associated : Rung
  pub deployed : Rung
  pub released_to_users : Rung
  pub currently_enabled : Rung
  pub measurably_successful : Rung

abbrev pub implementation_claims : List String
implementation_claims =
    "implemented" ∷ "implementation" ∷ "implementation_authorship" ∷ "personal_implementation" ∷ []

abbrev pub release_claims : List String
release_claims = "released_to_users" ∷ "app_store_release" ∷ "mobile_user_release" ∷ []

abbrev pub enablement_claims : List String
enablement_claims = "currently_enabled" ∷ "currently_used" ∷ "current_use" ∷ []

abbrev pub success_claims : List String
success_claims = "measurably_successful" ∷ "measured_outcome" ∷ "impact" ∷ []

-- `_nonempty`
unfoldable pub nonempty : Fields → List String → Bool
nonempty content keys = any (λ key. truthy (get key content)) keys

unfoldable pub record_ids : List EvidenceRecord → List String
record_ids [] = []
record_ids (r ∷ rs) = r.observation_id ∷ record_ids rs

-- `_observed_rung`
unfoldable pub observed_rung : List EvidenceRecord → String → String → Rung
observed_rung [] statement limitation = record {
  status = unknown;
  statement = none;
  source_text_is_untrusted = false;
  supporting_evidence_ids = [];
  limitations = limitation ∷ [];
}
observed_rung (r ∷ rs) statement limitation = record {
  status = supported;
  statement = some statement;
  source_text_is_untrusted = false;
  supporting_evidence_ids = sorted (update (record_ids (r ∷ rs)) []);
  limitations = limitation ∷ [];
}

module _ (casefold : String → String) (str_of : Json → String)
    (tag_matches : String → String → Option Bool) where
  -- `find_attestation`: the last one whose claim is among the given ones.
  unfoldable pub find_attestation : List HumanAttestation → List String → Option HumanAttestation
  find_attestation [] claims = none
  find_attestation (a ∷ rest) claims = elim (find_attestation rest claims) [
    | some later ↦ some later
    | none ↦ if elem (casefold a.claim) (map casefold claims) then some a else none
  ]

  attested : HumanAttestation → Rung
  attested a = record {
    status = human_attested;
    statement = some a.statement;
    source_text_is_untrusted = true;
    supporting_evidence_ids = a.decision_id ∷ [];
    limitations = "This statement is a local-user attestation." ∷ [];
  }

  -- `_attested_rung(attestations, claims) or rung`
  unfoldable pub attested_or : List HumanAttestation → List String → Rung → Rung
  unfolding attested
  attested_or attestations claims rung = elim (find_attestation attestations claims) [
    | some a ↦ attested a
    | none ↦ rung
  ]

  -- `str(record.data.get(key, "")).casefold()`
  folded : String → EvidenceRecord → String
  folded key r = casefold (text_in str_of key r.content)

  is_from : String → EvidenceRecord → Bool
  is_from source r = casefold r.source == source

  -- `_environment_name`
  unfoldable pub environment_name : Fields → String
  environment_name content = elim (get "environment_name" content) [
    | str s ↦ s
    | _ ↦ elim (get "environment" content) [
      | obj fs ↦ elim (get "name" fs) [ str s ↦ s | _ ↦ "" ]
      | str s ↦ s
      | _ ↦ ""
    ]
  ]

  named_tag : String → Fields → List String
  named_tag key content = elim (as_text (get key content)) [ some s ↦ s ∷ [] | none ↦ [] ]

  ref_tag : Fields → List String
  ref_tag content = elim (get "ref_name" content) [
    | str s ↦ (elim (after_prefix "refs/tags/" s) [ some tag ↦ tag ∷ [] | none ↦ s ∷ [] ])
    | _ ↦ []
  ]

  -- One value against the patterns, then what comes after it.
  unfoldable pub match_value : String → List String → Option Bool → Option Bool
  match_value value [] rest = rest
  match_value value (pattern_of ∷ patterns) rest =
      let onward = match_value value patterns rest in
      elim (tag_matches value pattern_of) [
        | none ↦ none
        | some true ↦ some true
        | some false ↦ onward
      ]

  unfoldable pub match_values : List String → List String → Option Bool
  match_values [] patterns = some false
  match_values (value ∷ values) patterns = match_value value patterns (match_values values patterns)

  -- `_matches_release_tag`, none where it raises
  unfoldable pub matches_release_tag : List String → EvidenceRecord → Option Bool
  unfolding named_tag ref_tag folded
  matches_release_tag patterns r =
      let named =
        named_tag "release_tag" r.content
        ++ (named_tag "tag" r.content ++ named_tag "tag_name" r.content) in
      let values = if folded "ref_kind" r == "tag" then named ++ ref_tag r.content else named in
      match_values values patterns

  unfoldable pub is_implementation : List String → List String → EvidenceRecord → Bool
  is_implementation objects evidence r =
      (elem r.object_id objects || elem r.observation_id evidence)
      && (contains "commit" (casefold r.kind)
          || is_merge_request (casefold r.kind)
          || contains "changed_path" (casefold r.kind))
      && not r.context_only

  unfoldable pub is_merged : EvidenceRecord → Bool
  unfolding folded is_from
  is_merged r =
      not r.context_only
      && is_from "gitlab" r
      && is_merge_request (casefold r.kind)
      && ((folded "state" r == "merged")
          || nonempty r.content ("merged_at" ∷ "merge_commit_sha" ∷ "squash_commit_sha" ∷ []))

  -- The tests before `_matches_release_tag`.
  unfoldable pub is_release_record : EvidenceRecord → Bool
  is_release_record r =
      nonempty r.content ("fixVersions" ∷ "fix_versions" ∷ [])
      || contains "release" (casefold r.kind)

  is_match : Option Bool → Bool
  is_match none = false
  is_match (some b) = b

  unfoldable pub is_release_associated : List String → EvidenceRecord → Bool
  unfolding is_match
  is_release_associated patterns r =
      not r.context_only && (is_release_record r || is_match (matches_release_tag patterns r))

  -- The record reaches a pattern that raises.
  unfoldable pub raises_pattern_error : List String → EvidenceRecord → Bool
  raises_pattern_error patterns r =
      not r.context_only
      && not (is_release_record r)
      && not (is_some (matches_release_tag patterns r))

  unfoldable pub is_deployed : List String → EvidenceRecord → Bool
  unfolding folded is_from
  is_deployed production_environments r =
      not r.context_only
      && is_from "gitlab" r
      && ((contains "deployment" (casefold r.kind)
            && (folded "status" r == "success")
            && elem (casefold (environment_name r.content)) (map casefold production_environments))
          || nonempty r.content ("first_deployed_to_production_at" ∷ []))

  -- `str(record.data.get("kind", record.kind))`
  metric_kind : EvidenceRecord → String
  metric_kind r =
      casefold (if has_key "kind" r.content then text_of str_of (get "kind" r.content) else r.kind)

  unfoldable pub is_manual_metric : EvidenceRecord → Bool
  unfolding is_from metric_kind
  is_manual_metric r =
      not r.context_only
      && is_from "manual" r
      && elem (metric_kind r) ("metric" ∷ "production_metric" ∷ "measured_outcome" ∷ [])

  has_text : String → Items → Bool
  has_text t nil = false
  has_text t (cons (str s) vs) = (s == t) || has_text t vs
  has_text t (cons _ vs) = has_text t vs

  is_implemented : Json → Bool
  unfolding has_text
  is_implemented (arr vs) = has_text "implemented" vs
  is_implemented _ = false

  or_none_listed : Option (List String) → List String
  or_none_listed none = []
  or_none_listed (some ids) = ids

  -- `implementation_object_ids` and `implementation_evidence_ids`
  unfoldable pub implementation_ids : Items → List String → List String → List String × List String
  unfolding is_implemented or_none_listed
  implementation_ids nil objects evidence = (objects, evidence)
  implementation_ids (cons item items) objects evidence =
      let fs = as_object item in
      let counts = is_implemented (get "categories" fs) in
      implementation_ids items
        (if counts then update (text_of str_of (get "object_id" fs) ∷ []) objects else objects)
        (if counts
          then update (or_none_listed (list_at str_of (get "claim_supporting_evidence_ids" fs)))
              evidence
          else evidence)

  self_items : Json → Items
  self_items (arr vs) = vs
  self_items _ = nil

  unfoldable pub implemented_rung : List EvidenceRecord → List HumanAttestation → Rung
  implemented_rung [] attestations =
      attested_or attestations implementation_claims
        (observed_rung [] "" "Implementation participation does not establish feature ownership.")
  implemented_rung (r ∷ rs) attestations =
      observed_rung (r ∷ rs) "Repository evidence records implementation authorship participation."
        "Implementation participation does not establish feature ownership."

  -- The ladder where no pattern raises.
  unfoldable pub ladder_of :
      List EvidenceRecord → Fields → List HumanAttestation → List String → List String → Ladder
  unfolding self_items
  ladder_of records participation attestations production_environments patterns =
      let (objects, evidence) =
        implementation_ids (self_items (get "self_participations" participation)) [] [] in
      record {
        implemented =
            implemented_rung (keep_if (is_implementation objects evidence) records) attestations;
        merged =
            observed_rung (keep_if is_merged records) "GitLab recorded a merged merge request."
              "Merged does not mean deployed or released to users.";
        release_associated =
            observed_rung (keep_if (is_release_associated patterns) records)
              "Evidence records an association with a tag, fix version, or release record."
              "Release association does not prove deployment.";
        deployed =
            observed_rung (keep_if (is_deployed production_environments) records)
              "GitLab recorded a successful deployment to a configured production environment."
              "Deployment does not prove App Store availability or feature enablement.";
        released_to_users = attested_or attestations release_claims (
            observed_rung [] ""
              "Deployment or merge evidence does not prove availability to mobile users.");
        currently_enabled =
            attested_or attestations enablement_claims
              (observed_rung [] "" "Current enablement requires current evidence or attestation.");
        measurably_successful = attested_or attestations success_claims (
            observed_rung (keep_if is_manual_metric records)
              "Manual evidence records a measured outcome."
              "The metric is user-supplied unless a telemetry source is added later.");
      }

  unfoldable pub build_release_ladder :
      List EvidenceRecord
      → Fields
      → List HumanAttestation
      → List String
      → List String
      → Result Ladder
  build_release_ladder records participation attestations production_environments patterns =
      if any (raises_pattern_error patterns) records
      then err pattern_error
      else ok (ladder_of records participation attestations production_environments patterns)
