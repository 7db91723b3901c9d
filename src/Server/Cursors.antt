-- ===== src/Server/Cursors.antt =====
-- mcp_server/protocol.py: view tokens, and the cursors that bind a position to a listing. The codec of
-- a cursor's payload, `json.dumps` in URL-safe base64 without padding and back, is a parameter, and
-- so is the test that `datetime.fromisoformat` reads a time with a zone.
pub mod Parsing
pub mod Binding
use Prim.Native.String.{◌++◌ as ◌<>◌}
use work_trace.Prelude.{
  ℕ, leb, ltb, ◌=?◌, String, Bool, true, false, not, ◌||◌, ◌&&◌, Option, none, some, List, [], ◌∷◌,
  ◌++◌, if◌then◌else◌, length,
}
use work_trace.Prelude.Texts.{◌==◌, elem, lookup}
use work_trace.Errors.{Result, ok, err, ◌>>=◌, ◌>>◌, raise_if, protocol_error}
use work_trace.Json.{
  ℤ, pos, Json, null, bool, int, str, obj, Fields, end, field, get, has_key, size, as_object,
}
use work_trace.Server.Values.{text_length}
use work_trace.Server.Patterns.{
  is_stable_identifier, after_prefix, starts_with, is_fingerprint, is_encoded, is_ordinal,
  is_view_token, has_nul,
}

-- `check_expected(expected, actual)`
unfoldable pub check_expected : Option String → String → Result (Unit {0})
check_expected none actual = ok tt
check_expected (some expected) actual =
    if not (is_view_token expected)
    then err (protocol_error "invalid_view_token" none)
    else if expected == actual
    then ok tt
    else err (protocol_error "evidence_changed" (some actual))

-- `_POSITIONS.get(collection, set())`
abbrev pub position_keys : String → List String
position_keys collection =
    if collection == "candidates"
    then "candidate_id" ∷ []
    else if collection == "evidence"
    then "sort_time" ∷ "observation_id" ∷ []
    else if collection == "packet_details"
    then "question_id" ∷ "kind" ∷ "ordinal" ∷ []
    else if (collection == "context_relations") || (collection == "context_memberships")
    then "phase" ∷ "key" ∷ []
    else []

abbrev pub base_fields : List String
base_fields = "v" ∷ "collection" ∷ "app" ∷ "view" ∷ "filters" ∷ "generation" ∷ "position" ∷ []

all_keys : List String → Fields → Bool
all_keys [] fs = true
all_keys (k ∷ ks) fs = has_key k fs && all_keys ks fs

-- `set(payload) == keys`
unfoldable pub has_keys : List String → Fields → Bool
unfolding all_keys
has_keys keys fs = (size fs =? length keys) && all_keys keys fs

-- `payload[key]` as a text, which the checks before have made sure of.
unfoldable pub text_at : String → Fields → String
text_at key fs = elim (get key fs) [ str s ↦ s | _ ↦ "" ]

is_text : Json → Bool
is_text (str s) = true
is_text _ = false

-- `value is None or fullmatch([0-9a-f]{64}, value)`
unfoldable pub null_or_fingerprint : Json → Bool
null_or_fingerprint null = true
null_or_fingerprint (str s) = is_fingerprint s
null_or_fingerprint _ = false

is_null : Json → Bool
is_null null = true
is_null _ = false

position_text : Json → Bool
position_text (str s) = leb 1 (text_length s) && leb (text_length s) 256 && not (has_nul s)
position_text _ = false

-- `all(... for item in position.values())`
unfoldable pub position_texts : Fields → Bool
unfolding position_text
position_texts end = true
position_texts (field k v fs) = position_text v && position_texts fs

abbrev pub is_context : String → Bool
is_context collection = (collection == "context_relations") || (collection == "context_memberships")

abbrev pub detail_kinds : List String
detail_kinds =
    "answer_draft" ∷ "supporting_evidence_ids" ∷ "contradicting_evidence_ids" ∷ "limitations"
    ∷ "missing_information" ∷ []

-- The tests on the phase and the key of a context position.
unfoldable pub valid_context : String → Json → Fields → Bool
unfolding is_null
valid_context collection context_fingerprint position =
    let phase = text_at "phase" position in
    let key = text_at "key" position in
    not (is_null context_fingerprint)
    && (((phase == "start") && (key == "-"))
        || ((phase == "after")
            && is_stable_identifier key
            && (if collection == "context_relations"
                then starts_with key "ref:"
                else starts_with key "candidate:" || starts_with key "contribution:")))

-- What a request asks of its cursor.
pub record Request : Type 0 where
  pub collection : String
  pub app_id : String
  pub view : String
  pub filters : String
  pub object_fingerprint : Option String

unfoldable pub valid_generation : String → Json → Bool
unfolding null_or_fingerprint is_null
valid_generation collection generation =
    null_or_fingerprint generation
    && (is_null generation || (collection == "candidates") || (collection == "context_memberships"))

is_object : Json → Bool
is_object (obj fs) = true
is_object _ = false

is_version : Json → Bool
is_version (int (pos n)) = n =? 1
is_version _ = false

unfoldable pub fingerprint_json : Option String → Json
fingerprint_json none = null
fingerprint_json (some s) = str s

unfoldable pub same_json : Json → Option String → Bool
same_json null none = true
same_json (str s) (some t) = s == t
same_json _ _ = false

-- The tests of a parsed payload against the request.
unfoldable pub check_request : Request → Fields → Result (Option Fields)
unfolding same_json
check_request request payload =
    raise_if
      (not (text_at "collection" payload == request.collection)
        || not (text_at "app" payload == request.app_id))
      (protocol_error "cursor_scope_mismatch" none)
    >> raise_if (not (text_at "filters" payload == request.filters))
        (protocol_error "cursor_filter_mismatch" none)
    >> raise_if (not (same_json (get "object_fingerprint" payload) request.object_fingerprint))
        (protocol_error "cursor_scope_mismatch" none)
    >> check_expected (some (text_at "view" payload)) request.view
    >> ok (some payload)

-- The payload of `encode_cursor`, in the order of its sorted keys.
unfoldable pub cursor_payload : Request → Fields → Option String → Fields
cursor_payload request position generation =
    let rest =
      field "position" (obj position)
        (field "v" (int (pos 1)) (field "view" (str request.view) end)) in
    field "app" (str request.app_id) (
      field "collection" (str request.collection) (
        field "filters" (str request.filters) (
          field "generation" (fingerprint_json generation) (elim request.object_fingerprint [
            | none ↦ rest
            | some digest ↦ field "object_fingerprint" (str digest) rest
          ]))))

module _ (has_timezone : String → Bool) where
  -- The tests that depend on the collection.
  unfoldable pub valid_position : String → Json → Fields → Bool
  valid_position collection context_fingerprint position =
      has_keys (position_keys collection) position
      && position_texts position
      && (if is_context collection
          then valid_context collection context_fingerprint position
          else if collection == "evidence"
          then has_timezone (text_at "sort_time" position)
          else if collection == "packet_details"
          then is_ordinal (text_at "ordinal" position)
            && elem (text_at "kind" position) detail_kinds
          else true)

  -- Every test of the `try` block on a parsed payload.
  unfoldable pub valid_payload : Fields → Bool
  unfolding is_text null_or_fingerprint is_object is_version
  valid_payload payload =
      let collection = text_at "collection" payload in
      let context_fingerprint = get "object_fingerprint" payload in
      (has_keys base_fields payload || has_keys (base_fields ++ "object_fingerprint" ∷ []) payload)
      && is_version (get "v" payload)
      && (is_text (get "collection" payload)
          && is_text (get "app" payload)
          && is_text (get "view" payload)
          && is_text (get "filters" payload))
      && null_or_fingerprint context_fingerprint
      && (is_view_token (text_at "view" payload) && is_fingerprint (text_at "filters" payload))
      && is_object (get "position" payload)
      && valid_position collection context_fingerprint (as_object (get "position" payload))
      && valid_generation collection (get "generation" payload)

  module _ (unpack : String → Option Json) where
    -- The payload of a well-formed cursor.
    unfoldable pub parse_cursor : String → Option Fields
    parse_cursor value = elim (after_prefix "wtc1:" value) [
      | none ↦ none
      | some encoded ↦
          if not (is_encoded encoded) || ltb 2048 (text_length value)
          then none
          else elim (unpack encoded) [
            | some (obj payload) ↦ if valid_payload payload then some payload else none
            | _ ↦ none
          ]
    ]

    unfoldable pub decode_cursor : Request → Option String → Result (Option Fields)
    decode_cursor request none = ok none
    decode_cursor request (some value) =
        if starts_with value "offset:"
        then err (protocol_error "cursor_upgrade_required" none)
        else elim (parse_cursor value) [
          | none ↦ err (protocol_error "invalid_cursor" none)
          | some payload ↦ check_request request payload
        ]

module _ (pack : Fields → String) where
  unfoldable pub encode_cursor : Request → Fields → Option String → Result String
  encode_cursor request position generation =
      let result = "wtc1:" <> pack (cursor_payload request position generation) in
      if ltb 2048 (text_length result)
      then err (protocol_error "response_too_large" none)
      else ok result
