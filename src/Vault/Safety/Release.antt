-- ===== src/Vault/Safety/Release.antt =====
-- What `decrypt_vault_object` and `verify_vault_object` return and write to the sink.
use work_trace.Prelude.{
  ◌⊎◌, Option-cases, inl, inr, suc, ◌≡◌, inl, inr, String, Bool, true, false, Option, none, some,
  [], if◌then◌else◌, arith, length,
}
use work_trace.Prelude.Texts.{eq_iff}
use work_trace.Errors.{ok, Result-cases}
use work_trace.Vault.Bytes.{Bytes}
use work_trace.Vault.Stream.{Crypto}
use work_trace.Vault.Descriptor.{VaultDescriptor, Codec, is_int}
use work_trace.Vault.Write.{VaultObjectResult}
use work_trace.Vault.Read.{
  Opened, open_descriptor, start_pull, pull_loop, check_totals, process, decrypt_vault_object,
}

-- The plaintext is the one that the result's descriptor and the expected hash of the file speak of.
pub record IsVerified (c : Crypto) (plain : Bytes) (expected : Option String)
    (r : VaultObjectResult) : Type 0 where
  pub measured : is_int (length plain) r.descriptor.content_length ≡ true
  pub hashed : c.sha256 plain ≡ r.descriptor.content_sha256
  pub counted : r.plaintext_length ≡ length plain
  pub manifest : (expected ≡ none) ⊎ (expected ≡ some r.ciphertext_sha256)

check_totals-IsVerified :
    (c : Crypto) (d : VaultDescriptor) (plain : Bytes) (expected : Option String)
    (totals : Bytes × Bytes) {r : VaultObjectResult}
    → check_totals c d plain expected totals ≡ ok r
    → IsVerified c plain expected r
unfolding check_totals
check_totals-IsVerified c d plain expected (file, rest) h = record {
  measured = ground arith;
  hashed = ground (arith, eq_iff (c.sha256 plain) d.content_sha256);
  counted = ground arith;
  manifest = elim (Option-cases expected) [
    | inl e ↦ inl e
    | inr (hash, e) ↦ inr (ground (arith, e, eq_iff (c.sha256 file) hash))
  ];
}

-- How a call that returns has gone.
pub record Processed (c : Crypto) (codec : Codec) (source key : Bytes) (has_sink : Bool)
    (expected : Option String) (stage : Bool) (out : Bytes) (r : VaultObjectResult) : Type 0 where
  pub opened : Opened
  pub state : c.State
  pub file : Bytes
  pub rest : Bytes
  pub totals : Bytes × Bytes
  pub opens : open_descriptor codec source ≡ ok opened
  pub starts : start_pull c opened key ≡ ok (state, file, rest)
  pub ends :
      (pull_loop c (suc (length rest)) opened.raw state rest file [] false).outcome ≡ ok totals
  pub checks :
      check_totals c opened.descriptor
        (pull_loop c (suc (length rest)) opened.raw state rest file [] false).plain
        expected
        totals
      ≡ ok r
  pub gives : out ≡ (
      if has_sink
      then (pull_loop c (suc (length rest)) opened.raw state rest file [] false).plain
      else [])

pub process-eq-ok :
    (c : Crypto) (codec : Codec) (source key : Bytes) (has_sink : Bool) (expected : Option String)
    (stage : Bool) {out : Bytes} {r : VaultObjectResult}
    → process c codec source key has_sink expected stage ≡ (out, ok r)
    → Processed c codec source key has_sink expected stage out r
unfolding process
process-eq-ok c codec source key has_sink expected stage {out} {r} h =
    elim (Result-cases (open_descriptor codec source)) [
      | inr (e, h1) ↦ absurd (ground (arith, h1))
      | inl (o, h1) ↦ elim (Result-cases (start_pull c o key)) [
        | inr (e, h2) ↦ absurd (ground (arith, h1, h2))
        | inl ((state, file, rest), h2) ↦
            elim (Result-cases
              (pull_loop c (suc (length rest)) o.raw state rest file [] false).outcome) [
                | inr (e, h3) ↦ absurd (ground (arith, h1, h2, h3))
                | inl (totals, h3) ↦ record {
                  opened = o;
                  state = state;
                  file = file;
                  rest = rest;
                  totals = totals;
                  opens = h1;
                  starts = h2;
                  ends = h3;
                  checks = ground (arith, h1, h2, h3);
                  gives = ground (arith, h1, h2, h3);
                }
              ]
      ]
    ]

-- Where a staged decryption returns, the sink holds a plaintext of the length and the hash in the
-- descriptor, and an expected hash of the file is met.
pub decrypt_staged-IsVerified :
    (c : Crypto) (codec : Codec) (source key : Bytes) (expected : Option String) {out : Bytes}
    {r : VaultObjectResult}
    → decrypt_vault_object c codec source key expected true ≡ (out, ok r)
    → IsVerified c out expected r
unfolding decrypt_vault_object
decrypt_staged-IsVerified c codec source key expected h =
    let p = process-eq-ok c codec source key true expected true h in
    rw p.gives (check_totals-IsVerified c p.opened.descriptor _ expected p.totals p.checks)
