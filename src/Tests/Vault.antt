-- ===== src/Tests/Vault.antt =====
-- A vault object of three bytes under a stream that hides nothing, to run the writer and the reader.
use work_trace.Prelude.{
  ℕ, zero, suc, ◌≡◌, ◌≢◌, refl, String, true, false, Option, none, some, [], ◌∷◌, ◌++◌, drop, arith,
  length, any,
}
use work_trace.Json.{pos, obj, get, has_key, size}
use work_trace.Errors.{err, ok, out_of_fuel, vault_integrity_error}
use work_trace.Vault.Bytes.{Bytes, unpack32, read_loop, read_exact}
use work_trace.Vault.Stream.{Tag, message, final, other, Crypto, IsSound}
use work_trace.Vault.Descriptor.{
  Codec, VaultDescriptor, to_mapping, validate_descriptor, is_int, is_negative, has_upper,
  parses_base16, same_bytes, parse_canonical_json, from_mapping, has_exact_fields, integer_of,
  string_of,
}
use work_trace.Vault.Write.{VaultObjectResult, Written, seal, check_key, is_empty}
use work_trace.Vault.Read.{
  decrypt_vault_object, verify_vault_object, process, pull_loop, open_descriptor, check_prefix,
  start_pull, after_tag, check_totals, next_length, pull_record, write_records, copy_staged,
  end_call,
}
use work_trace.Vault.RoundTrip.Whole.{Describes, decrypt-seal}
use work_trace.Vault.Safety.Release.{decrypt_staged-IsVerified, IsVerified}
use work_trace.Vault.Safety.Coverage.{process-hashes_all, pull_loop_ends}

program : Unit {0}
unfolding decrypt_vault_object process open_descriptor read_exact read_loop check_prefix same_bytes
    unpack32 parse_canonical_json from_mapping has_exact_fields integer_of string_of to_mapping get
    has_key size validate_descriptor is_int is_negative has_upper parses_base16 start_pull pull_loop
    next_length pull_record after_tag any check_totals write_records copy_staged end_call check_key
    is_empty
program = tt

abbrev zeros : Bytes
zeros = 0 ∷ 0 ∷ 0 ∷ 0 ∷ 0 ∷ 0 ∷ 0 ∷ 0 ∷ []

abbrev padding : Bytes
padding = zeros ++ zeros

abbrev tag_code : Tag → ℕ
tag_code message = 0
tag_code final = 1
tag_code (other n) = suc (suc n)

abbrev tag_of : ℕ → Tag
tag_of zero = message
tag_of (suc zero) = final
tag_of (suc (suc n)) = other n

abbrev digest : String
digest = "0000000000000000000000000000000000000000000000000000000000000000"

abbrev clear_pull : Bytes → Option ((Bytes × Tag) × Unit {0})
clear_pull [] = none
clear_pull (tag ∷ rest) = some ((drop 16 rest, tag_of tag), tt)

-- The tag, sixteen zeros, and the text.
abbrev clear : Crypto
clear = record {
  State = Unit {0};
  init_push = λ key. (zeros ++ zeros ++ zeros, tt);
  push = λ state text extra tag. (tag_code tag ∷ padding ++ text, tt);
  init_pull = λ header key. some tt;
  pull = λ state cipher extra. clear_pull cipher;
  sha256 = λ bytes. digest;
}

tag_back : (tag : Tag) → tag_of (tag_code tag) ≡ tag
tag_back message = refl
tag_back final = refl
tag_back (other n) = refl

clear-IsSound : IsSound clear
clear-IsSound = record {
  Paired = λ a b. Unit {0};
  header_length = λ key. refl;
  paired = λ key. (tt, refl, tt);
  push_length = λ a text extra tag. omega arith;
  pulls = λ a b text extra tag p. (tt, rw (tag_back tag) refl, tt);
}

abbrev descriptor : VaultDescriptor
descriptor = record {
  site_id = "site";
  collection_id = "collection";
  revision_id = "revision";
  object_id = "object";
  kind = "json";
  content_length = pos 3;
  content_sha256 = digest;
  key_version = pos 1;
  chunk_size = pos 1048576;
  format = "worktrace-jira-vault-object";
  format_version = pos 1;
}

-- A codec of the one descriptor.
abbrev codec : Codec
codec = record { dumps = λ fs. 7 ∷ []; loads = λ raw. some (obj (to_mapping descriptor)) }

abbrev key : Bytes
key = zeros ++ zeros ++ zeros ++ zeros

abbrev source : Bytes
source = 1 ∷ 2 ∷ 3 ∷ []

descriptor-Describes : Describes clear codec descriptor source
unfolding program
descriptor-Describes = record {
  valid = refl;
  named = record {
    site_id = refl;
    collection_id = refl;
    revision_id = refl;
    object_id = refl;
    kind = refl;
    content_sha256 = refl;
    format = refl;
  };
  reads = record {
    back = to_mapping descriptor;
    loaded = refl;
    same = record { same_size = refl; same_keys = λ k. refl; same_values = λ k. refl };
    canonical = refl;
  };
  fits = omega arith;
  measured = refl;
  hashed = refl;
}

decrypt-seal_example :
    (w : Written) × (r : VaultObjectResult) × (seal clear codec source descriptor key ≡ ok (w, r))
    × (decrypt_vault_object clear codec w.file key none true ≡ (source, ok r))
decrypt-seal_example =
    decrypt-seal clear codec key source descriptor true clear-IsSound refl descriptor-Describes

abbrev vault_file : Bytes
vault_file =
    b'W' ∷ b'T' ∷ b'V' ∷ b'A' ∷ 1 ∷ 0 ∷ 0 ∷ 0 ∷ 1 ∷ 7 ∷ zeros
    ++ zeros
    ++ zeros
    ++ 0 ∷ 0 ∷ 0 ∷ 20 ∷ 1 ∷ padding
    ++ source

abbrev result : VaultObjectResult
result = record { descriptor = descriptor; ciphertext_sha256 = digest; plaintext_length = 3 }

decrypt_run : decrypt_vault_object clear codec vault_file key none true ≡ (source, ok result)
unfolding program
decrypt_run = refl

truncated_run :
    decrypt_vault_object clear codec (1 ∷ []) key none true
    ≡ ([], err (vault_integrity_error "truncated"))
unfolding program
truncated_run = refl

decrypt_staged-IsVerified_example : IsVerified clear source none result
decrypt_staged-IsVerified_example =
    decrypt_staged-IsVerified clear codec vault_file key none decrypt_run

verify_run : verify_vault_object clear codec vault_file key none ≡ ok result
unfolding program verify_vault_object
verify_run = refl

process_run : process clear codec vault_file key true none true ≡ (source, ok result)
unfolding program
process_run = refl

process-hashes_all_example : result.ciphertext_sha256 ≡ clear.sha256 vault_file
process-hashes_all_example =
    process-hashes_all clear codec vault_file key true none true process_run

pull_loop_ends_example :
    (pull_loop clear (suc (length vault_file)) [] tt vault_file [] [] false).outcome
    ≢ err out_of_fuel
pull_loop_ends_example = pull_loop_ends clear [] tt vault_file [] [] false
