-- ===== src/Retry/Loop.antt =====
-- `RetryPolicy` and `request_with_retry`. Delays are whole units of time, and the sample that stands
-- for `random_value` is in thousandths; the client answers the n-th request by `client n`, where
-- `none` is an `httpx.RequestError`, and `read` is `_read_bounded_response`.
pub mod Bound
use work_trace.Prelude.{
  ℕ, zero, suc, ◌+◌, ◌-◌, ◌*◌, ◌/◌, ◌^◌, min, max, ltb, leb, ◌=?◌, String, Bool, true, false, not,
  ◌&&◌, ◌||◌, Option, none, some, List, [], ◌∷◌, ◌++◌, if◌then◌else◌,
}
use work_trace.Json.{ℤ, pos, negsuc}
use work_trace.Errors.{
  Result, ok, err, value_error, request_error, assertion_error, retry_exhausted,
  invalid_credentials, permission_denied, source_object_unavailable, permanent_source_error,
}
use work_trace.Retry.Reading.{Bytes, Response}

pub record RetryPolicy : Type 0 where
  pub max_attempts : ℕ
  pub base_delay : ℕ
  pub max_delay : ℕ

-- `__post_init__`; the delays are not negative in ℕ.
unfoldable pub retry_policy : ℕ → ℕ → ℕ → Result RetryPolicy
retry_policy max_attempts base_delay max_delay =
    if ltb max_attempts 1
    then err (value_error "max_attempts must be at least one")
    else ok (record { max_attempts = max_attempts; base_delay = base_delay; max_delay = max_delay })

-- A float of Python, as far as a delay tells it apart.
pub data Number : Type 0 where
  finite : ℤ → Number
  infinite negative_infinite nan : Number

-- `float(value)`, none where it raises; and the seconds from now to `parsedate_to_datetime(value)`,
-- in UTC where it has no zone, none where that raises.
pub record HeaderRules : Type 0 where
  pub to_float : String → Option Number
  pub seconds_until : String → Option ℤ

-- `min(max(value, 0.0), max_delay)`: both comparisons with NaN are false, so NaN stays, as `none`.
unfoldable pub clamped : Number → ℕ → Option ℕ
clamped (finite (pos n)) max_delay = some (min n max_delay)
clamped (finite (negsuc n)) max_delay = some (min 0 max_delay)
clamped infinite max_delay = some max_delay
clamped negative_infinite max_delay = some (min 0 max_delay)
clamped nan max_delay = none

module _ (headers : HeaderRules) where
  -- `_parse_retry_after`
  unfoldable pub parse_retry_after : String → Option Number
  parse_retry_after text = elim (headers.to_float text) [
    | some number ↦ some number
    | none ↦ elim (headers.seconds_until text) [
      | some (pos n) ↦ some (finite (pos n))
      | some (negsuc n) ↦ some (finite (pos 0))
      | none ↦ none
    ]
  ]

  unfoldable pub parsed_delay : Option String → Option Number
  parsed_delay none = none
  parsed_delay (some text) = parse_retry_after text

  -- A delay of `none` is NaN.
  unfoldable pub delay_for : RetryPolicy → ℕ → Option String → ℕ → Result (Option ℕ)
  delay_for policy attempt retry_after sample =
      let ceiling = min (policy.base_delay * 2 ^ (attempt - 1)) policy.max_delay in
      elim (parsed_delay retry_after) [
        | some number ↦ ok (clamped number policy.max_delay)
        | none ↦
            if ltb 1000 sample
            then err (value_error "random_value")
            else ok (some (ceiling * sample / 1000))
      ]

-- The requests that were sent, and the sleeps between them.
pub record Trace : Type 0 where
  pub sent : ℕ
  pub sleeps : List ℕ

-- What the body of the loop does with an answer.
pub data Outcome : Type 0 where
  settled : Result Bytes → Outcome
  transient : Option String → Outcome

unfoldable pub is_transient_status : ℕ → Bool
is_transient_status status = (status =? 429) || (leb 500 status && ltb status 600)

module _ (read : Response → Result Bytes) (exact_object : Bool) where
  -- A transport that fails while the response is read is a RequestError too.
  unfoldable pub reading : Response → Outcome
  reading r = elim (read r) [
    | ok content ↦ settled (ok content)
    | err request_error ↦ transient none
    | err e ↦ settled (err e)
  ]

  unfoldable pub outcome : Option Response → Outcome
  outcome none = transient none
  outcome (some r) =
      if leb 200 r.status_code && ltb r.status_code 300
      then reading r
      else if r.status_code =? 401
      then settled (err invalid_credentials)
      else if r.status_code =? 403
      then settled (err permission_denied)
      else if (r.status_code =? 404) && exact_object
      then settled (err source_object_unavailable)
      else if is_transient_status r.status_code
      then transient r.retry_after
      else settled (err (permanent_source_error "HTTP status"))

  module _ (headers : HeaderRules) (random_value : ℕ → ℕ) (client : ℕ → Option Response)
      (policy : RetryPolicy) where
    -- `for attempt in range(...)`, by the attempts that remain.
    unfoldable pub attempts_from : ℕ → ℕ → List ℕ → Trace × Result Bytes
    attempts_from zero attempt sleeps =
        (record { sent = attempt - 1; sleeps = sleeps }, err assertion_error)
    attempts_from (suc remaining) attempt sleeps =
        let trace : Trace = record { sent = attempt; sleeps = sleeps } in
        elim (outcome (client attempt)) [
          | settled result ↦ (trace, result)
          | transient retry_after ↦ elim (attempt =? policy.max_attempts) [
            | true ↦ (trace, err retry_exhausted)
            | false ↦ elim (delay_for headers policy attempt retry_after (random_value attempt)) [
              | err e ↦ (trace, err e)
              -- `time.sleep` refuses NaN
              | ok none ↦ (trace, err (value_error "Invalid value NaN (not a number)"))
              | ok (some delay) ↦ attempts_from remaining (suc attempt) (sleeps ++ delay ∷ [])
            ]
          ]
        ]

    unfoldable pub request_with_retry : Trace × Result Bytes
    request_with_retry = attempts_from policy.max_attempts 1 []
