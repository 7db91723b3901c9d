-- ===== src/Errors.antt =====
-- errors.py, with the exceptions of Python and sqlite3 that the modelled code raises or lets pass.
-- A text is the message; where the message is built from a value, the text is that value.
use work_trace.Prelude.{arith, String, Bool, true, false, Option, ◌≡◌, refl, ◌⊎◌, inl, inr}

pub data Error : Type 0 where
  value_error : String → Error
  scope_violation : String → Error
  not_found : String → Error
  integrity_error : Error
  invalid_credentials permission_denied source_object_unavailable : Error
  permanent_source_error : String → Error
  retry_exhausted : Error
  vault_format_error vault_integrity_error : String → Error
  file_exists_error : Error
  -- httpx.RequestError, and AssertionError
  request_error assertion_error : Error
  -- ProtocolError of mcp_server/protocol.py: its code and the current view token
  protocol_error : String → Option String → Error
  -- re.error
  pattern_error : Error
  -- no exception: a loop of the model ran out of fuel
  out_of_fuel : Error

pub data Result {ℓ} (A : Type ℓ) : Type ℓ where
  ok : A → Result A
  err : Error → Result A

-- One step and then the rest: an exception passes by what comes after it.
infixl 5 ◌>>◌ ◌>>=◌
abbrev pub ◌>>=◌ {ℓ κ} : {A : Type ℓ} {B : Type κ} → Result A → (A → Result B) → Result B
err raised >>= rest = err raised
ok given >>= rest = rest given

abbrev pub ◌>>◌ {κ} : {B : Type κ} → Result (Unit {0}) → Result B → Result B
check >> rest = check >>= λ done. rest

-- `if test: raise error`
abbrev pub raise_if : Bool → Error → Result (Unit {0})
raise_if true e = err e
raise_if false e = ok tt

-- A chain that ends has ended at its first step or at the rest of it.
module _ {ℓ κ} {A : Type ℓ} {B : Type κ} where
  pub >>=-eq-ok :
      (first : Result A) (rest : A → Result B) {last : B}
      → (first >>= rest) ≡ ok last
      → (between : A) × (first ≡ ok between) × (rest between ≡ ok last)
  >>=-eq-ok (err failure) rest done = cc
  >>=-eq-ok (ok between) rest done = (between, refl, done)

  pub >>=-eq-err :
      (first : Result A) (rest : A → Result B) {failure : Error}
      → (first >>= rest) ≡ err failure
      → (first ≡ err failure)
        ⊎ ((between : A) × (first ≡ ok between) × (rest between ≡ err failure))
  >>=-eq-err (err other) rest raised = inl (ground (arith, raised))
  >>=-eq-err (ok between) rest raised = inr (between, refl, raised)

pub Result-cases {ℓ} :
    {A : Type ℓ} (r : Result A) → ((a : A) × (r ≡ ok a)) ⊎ ((e : Error) × (r ≡ err e))
Result-cases (ok a) = inl (a, refl)
Result-cases (err e) = inr (e, refl)
