-- ===== src/Server/Envelopes.antt =====
-- mcp_server/responses.py: the envelopes of responses, and how they shrink to the budget.
use work_trace.Prelude.{
  ℕ, leb, String, Bool, true, false, ◌||◌, List, [], ◌∷◌, if◌then◌else◌, ◌≡◌, refl, arith,
}
use work_trace.Prelude.Texts.{elem}
use work_trace.Json.{
  pos, Json, null, bool, int, str, arr, obj, Items, nil, cons, Fields, end, field, get, has_key,
  as_object,
}
use work_trace.Server.Values.{set, count_items, list_of, get_or, truthy, take_text, serialized_size}
use work_trace.Server.Redaction.{OutputPattern, redact_fields}

abbrev pub max_response_chars : ℕ
max_response_chars = 20000

-- What the source uses of Python's texts over Unicode: `casefold`, `re.sub` and `str(value)`.
pub record TextRules : Type 0 where
  pub casefold : String → String
  pub sub : OutputPattern → String → String → String
  pub str_of : Json → String

abbrev pub Position : Type 0
Position = List (String × String)

unfoldable pub fits_budget : Fields → Bool
fits_budget result = leb (serialized_size (obj result)) max_response_chars

-- `{k: envelope[k] for k in keys if k in envelope}`
unfoldable pub copy_keys : List String → Fields → Fields
copy_keys [] envelope = end
copy_keys (k ∷ ks) envelope =
    if has_key k envelope
    then field k (get k envelope) (copy_keys ks envelope)
    else copy_keys ks envelope

pub get-copy_keys :
    (key : String) (keys : List String) (envelope : Fields)
    → elem key keys ≡ false
    → get key (copy_keys keys envelope) ≡ null
unfolding copy_keys elem get
get-copy_keys key [] envelope absent = refl
get-copy_keys key (k ∷ keys) envelope absent =
    ground (arith, absent, get-copy_keys key keys envelope)

-- `_error`
unfoldable pub error_of : Fields → Fields
unfolding copy_keys
error_of envelope = set "response_truncated" (bool true) (
    set "error"
      (obj (
        field "code" (str "response_too_large")
          (field "message" (str "Response cannot fit safely; continuation was not advanced.") end)))
      (copy_keys ("app_id" ∷ "view_token" ∷ "read_model_version" ∷ []) envelope))

any_item : (Json → Bool) → Items → Bool
any_item p nil = false
any_item p (cons v vs) = p v || any_item p vs

limits_instance : Json → Bool
limits_instance instance =
    truthy (get "limitations" (as_object instance))
    || truthy (get "error_summary" (as_object instance))

module _ (rules : TextRules) where
  -- `str(value or "")[:192]`
  warning_text : Json → String
  warning_text warning = take_text 192 (if truthy warning then rules.str_of warning else "")

  compact_source : Fields → Fields
  unfolding warning_text limits_instance any_item
  compact_source info = field "complete" (get_or "complete" (bool false) info) (
      field "stale" (get_or "stale" (bool true) info) (
        field "has_warning"
          (bool (
            truthy (get "warning" info)
            || any_item limits_instance (list_of (get "instances" info))))
          (field "warning" (str (warning_text (get "warning" info))) (
            field "instance_count" (int (pos (count_items (list_of (get "instances" info))))) (
              field "preflight_count" (int (pos (count_items (list_of (get "preflight" info)))))
                (field "details_compacted" (bool true) end))))))

  unfoldable pub compact_sources : Fields → Fields
  unfolding compact_source warning_text limits_instance any_item
  compact_sources end = end
  compact_sources (field source info fs) =
      field source (obj (compact_source (as_object info))) (compact_sources fs)

  -- `_small_envelope`
  unfoldable pub small_envelope : Fields → Fields
  unfolding compact_sources
  small_envelope value =
      let sources = as_object (get "source_status" value) in
      let result =
        if truthy (obj sources)
        then set "source_status" (obj (compact_sources sources)) value
        else value in
      set "limitations"
        (arr (
          cons
            (str
              "Source-status detail compacted; absence of a listed warning is not proof of complete coverage.")
            nil))
        (set "limitation_count" (int (pos (count_items (list_of (get "limitations" value))))) (
          set "has_limitations" (bool (truthy (get "limitations" value) || truthy (obj sources)))
            (set "envelope_compacted" (bool true) (set "response_truncated" (bool true) result))))

  -- `_clean`
  unfoldable pub clean : Fields → Fields
  clean value = redact_fields rules.casefold rules.sub value

  -- `bounded_response`
  unfoldable pub bounded_response : Fields → Fields
  bounded_response payload =
      let result = clean payload in
      let small = small_envelope result in
      if fits_budget result then result else if fits_budget small then small else error_of small
