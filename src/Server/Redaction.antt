-- ===== src/Server/Redaction.antt =====
-- mcp_server/limits.py: what every response passes before it is measured. `re.sub` with the five
-- patterns and `str.casefold` are parameters.
pub mod Hidden
use work_trace.Prelude.{
  ℕ, leb, String, Bool, true, false, ◌||◌, ◌&&◌, not, Option, none, some, List, [], ◌∷◌,
  if◌then◌else◌,
}
use work_trace.Prelude.Texts.{◌==◌, elem}
use work_trace.Json.{
  Json, null, bool, int, float, str, arr, obj, Items, nil, cons, Fields, end, field,
}
use work_trace.Server.Values.{text_length}
use work_trace.Server.Patterns.{is_stable_identifier, is_view_token, is_cursor, before_colon}

pub data OutputPattern : Type 0 where
  private_key authorization secret email phone : OutputPattern

unfoldable pub output_redactions : List (OutputPattern × String)
output_redactions =
    (private_key, "[REDACTED_PRIVATE_KEY]")
    ∷ (authorization, "[REDACTED_AUTHORIZATION]")
    ∷ (secret, "[REDACTED_SECRET]")
    ∷ (email, "[REDACTED_EMAIL]")
    ∷ (phone, "[REDACTED_PHONE]")
    ∷ []

abbrev pub sensitive_output_keys : List String
sensitive_output_keys =
    "access_token" ∷ "api_key" ∷ "api_token" ∷ "authorization" ∷ "client_secret" ∷ "cookie"
    ∷ "cookies" ∷ "password" ∷ "private_token" ∷ "refresh_token" ∷ "secret" ∷ "session_id"
    ∷ "session_token" ∷ "token" ∷ "x-api-key" ∷ "x_api_key" ∷ []

abbrev pub stable_identifier_keys : List String
stable_identifier_keys =
    "actor_id" ∷ "availability_evidence_id" ∷ "candidate_id" ∷ "confirmed_contribution_id"
    ∷ "contribution_id" ∷ "decision_id" ∷ "evidence_id" ∷ "from_object_id" ∷ "import_session_id"
    ∷ "metadata_source_object_id" ∷ "object_id" ∷ "observation_evidence_id"
    ∷ "participation_evidence_id" ∷ "reference_id" ∷ "replaces_decision_id" ∷ "run_id"
    ∷ "seed_object_id" ∷ "source_object_id" ∷ "supporting_observation_id" ∷ "sync_run_id"
    ∷ "target_id" ∷ "to_object_id" ∷ "undo_target_id" ∷ "unsupported_seed_object_id" ∷ []

abbrev pub stable_identifier_list_keys : List String
stable_identifier_list_keys =
    "candidate_ids" ∷ "claim_supporting_evidence_ids" ∷ "compensated_by_decision_ids"
    ∷ "contradicting_evidence_ids" ∷ "contribution_ids" ∷ "decision_ids" ∷ "evidence_ids"
    ∷ "module_evidence_ids" ∷ "period_evidence_ids" ∷ "supporting_evidence_ids"
    ∷ "title_supporting_evidence_ids" ∷ "unsupported_member_ids" ∷ []

abbrev pub internal_id_prefixes : List String
internal_id_prefixes =
    "actor" ∷ "availability" ∷ "candidate" ∷ "contribution" ∷ "decision" ∷ "obj" ∷ "obs" ∷ "part"
    ∷ "participation" ∷ "ref" ∷ "run" ∷ "session" ∷ "source" ∷ []

abbrev pub view_keys : List String
view_keys = "view_token" ∷ "expected_view_token" ∷ []

abbrev pub cursor_keys : List String
cursor_keys =
    "cursor" ∷ "next_cursor" ∷ "detail_cursor" ∷ "relation_cursor" ∷ "membership_cursor" ∷ []

module _ (casefold : String → String) where
  -- The tests that follow on a field name, after those of tokens and cursors.
  unfoldable pub is_internal_identifier : String → String → Bool
  is_internal_identifier value field_name =
      let key = casefold field_name in
      if not (is_stable_identifier value)
      then false
      else if elem key stable_identifier_keys || elem key stable_identifier_list_keys
      then true
      else (key == "id") && elem (casefold (before_colon value)) internal_id_prefixes

  unfoldable pub is_structured_identifier : String → Option String → Bool
  is_structured_identifier value none = false
  is_structured_identifier value (some field_name) =
      if elem field_name view_keys
      then is_view_token value
      else if elem field_name cursor_keys
      then leb (text_length value) 2048 && is_cursor value
      else is_internal_identifier value field_name

  module _ (sub : OutputPattern → String → String → String) where
    redact_all : List (OutputPattern × String) → String → String
    redact_all [] text = text
    redact_all ((pattern_of, replacement) ∷ more) text =
        redact_all more (sub pattern_of replacement text)

    unfoldable pub redact_string : String → String
    unfolding redact_all
    redact_string = redact_all output_redactions

    unfoldable mutual
      pub redact_output : Option String → Json → Json
      redact_output name null = null
      redact_output name (bool b) = bool b
      redact_output name (int n) = int n
      redact_output name (float x) = float x
      redact_output name (str s) =
          if is_structured_identifier s name then str s else str (redact_string s)
      redact_output name (obj fs) = obj (redact_fields fs)
      redact_output name (arr vs) = arr (redact_items name vs)

      pub redact_fields : Fields → Fields
      redact_fields end = end
      redact_fields (field k v fs) =
          let shown = redact_output (some k) v in
          field k (if elem (casefold k) sensitive_output_keys then str "[REDACTED]" else shown)
            (redact_fields fs)

      pub redact_items : Option String → Items → Items
      redact_items name nil = nil
      redact_items name (cons v vs) = cons (redact_output name v) (redact_items name vs)
