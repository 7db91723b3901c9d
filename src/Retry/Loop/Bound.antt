-- ===== src/Retry/Loop/Bound.antt =====
-- `request_with_retry`: the attempts, the sleeps, and how it ends.
use work_trace.Prelude.{
  ℕ, zero, suc, ◌+◌, ◌≤◌, String, Bool, ◌≡◌, Option, some, List, length, All, ◌⊎◌,
}
use work_trace.Errors.{Result, err, value_error, retry_exhausted}
use work_trace.Retry.Reading.{Bytes, Response}
use work_trace.Retry.Loop.{
  RetryPolicy, nan, HeaderRules, parsed_delay, Trace, settled, transient, outcome, attempts_from,
}

module _ (read : Response → Result Bytes) (exact_object : Bool) (headers : HeaderRules)
    (random_value : ℕ → ℕ) (client : ℕ → Option Response) (policy : RetryPolicy) where
  -- The answer to the n-th request is one that the loop retries.
  abbrev pub IsTransient : ℕ → Type 0
  IsTransient n =
      (retry_after : Option String) × (outcome read exact_object (client n) ≡ transient retry_after)

  -- Every answer from the first of these on, that many.
  abbrev pub Transient : ℕ → ℕ → Type 0
  Transient zero n = Unit
  Transient (suc count) n = IsTransient n × Transient count (suc n)

  -- A header that is read as NaN.
  abbrev pub IsNan : Option String → Type 0
  IsNan retry_after = parsed_delay headers retry_after ≡ some nan

  -- How the loop ends at the n-th request: with what its answer settles, with an answer that is
  -- retried at the last attempt, or at the sleep for a header that is read as NaN.
  abbrev pub IsEnd : ℕ → Result Bytes → Type 0
  IsEnd n result =
      (outcome read exact_object (client n) ≡ settled result)
      ⊎ ((result ≡ err retry_exhausted) × (n ≡ policy.max_attempts) × IsTransient n)
      ⊎ ((retry_after : Option String) × (outcome read exact_object (client n)
            ≡ transient retry_after)
          × IsNan retry_after
          × (result ≡ err (value_error "Invalid value NaN (not a number)")))

  -- The requests from the n-th on: all but the last had an answer that is retried, and a sleep.
  abbrev Bounded : ℕ → List ℕ → Trace × Result Bytes → Type 0
  Bounded attempt slept (trace, result) =
      (count : ℕ) × (trace.sent ≡ attempt + count)
      × (trace.sent ≤ policy.max_attempts)
      × (length trace.sleeps ≡ length slept + count)
      × All (λ d. d ≤ policy.max_delay) trace.sleeps
      × Transient count attempt
      × IsEnd trace.sent result

  module _ (remaining attempt : ℕ) (slept : List ℕ) where
    abbrev Run : ℕ → ℕ → List ℕ → Trace × Result Bytes
    Run = attempts_from read exact_object headers random_value client policy
