-- ===== src/Vault/Read.antt =====
-- `_process_vault_object`, behind `decrypt_vault_object` and `verify_vault_object`, and
-- `read_vault_descriptor`. What is written to the sink stands beside the result, also before an error.
use work_trace.Prelude.{
  ℕ, zero, suc, ltb, leb, ◌=?◌, String, Bool, true, false, not, ◌&&◌, ◌||◌, Option, none, some, [],
  ◌∷◌, ◌++◌, if◌then◌else◌, length, take, drop,
}
use work_trace.Prelude.Texts.{◌==◌}
use work_trace.Errors.{
  Result, ok, err, ◌>>=◌, ◌>>◌, raise_if, vault_format_error, vault_integrity_error, out_of_fuel,
}
use work_trace.Vault.Bytes.{Bytes, unpack32, read_exact}
use work_trace.Vault.Stream.{Tag, message, final, other, Crypto}
use work_trace.Vault.Descriptor.{
  VaultDescriptor, Codec, max_descriptor_bytes, from_mapping, parse_canonical_json, same_bytes,
  is_int,
}
use work_trace.Vault.Write.{
  VaultObjectResult, magic, header_bytes, secretstream_overhead, max_record_bytes, check_key,
  is_empty,
}

-- `prefix[:4] != MAGIC or prefix[4] != FORMAT_VERSION`
unfoldable pub check_prefix : Bytes → Result (Unit {0})
check_prefix prefix =
    raise_if (not (same_bytes (take 5 prefix) (magic ++ 1 ∷ [])))
      (vault_format_error "unsupported vault object header")

-- The descriptor, with its bytes and what follows it in the source.
pub record Opened : Type 0 where
  pub descriptor : VaultDescriptor
  pub raw : Bytes
  -- all that was hashed so far
  pub consumed : Bytes
  pub rest : Bytes

unfoldable pub open_descriptor : Codec → Bytes → Result Opened
open_descriptor codec source = do
  (prefix, source') ← read_exact 9 source
  check_prefix prefix
  raise_if (ltb max_descriptor_bytes (unpack32 (drop 5 prefix)))
      (vault_format_error "vault descriptor exceeds the size limit")
  (raw, rest) ← read_exact (unpack32 (drop 5 prefix)) source'
  fs ← parse_canonical_json codec raw
  d ← from_mapping fs
  ok (record { descriptor = d; raw = raw; consumed = prefix ++ raw; rest = rest })

unfoldable pub read_vault_descriptor : Codec → Bytes → Result VaultDescriptor
unfolding open_descriptor
read_vault_descriptor codec source = do opened ← open_descriptor codec source; ok opened.descriptor

-- What the loop of the reader has pulled, and how it ended: the bytes hashed, and the rest.
pub record Pulled : Type 0 where
  pub plain : Bytes
  pub outcome : Result (Bytes × Bytes)

-- The length of the next record: `none` at the end of the file.
unfoldable pub next_length : Bool → Bytes → Result (Option ℕ)
next_length saw_final [] =
    if saw_final
    then ok none
    else err (vault_integrity_error "vault object is missing its final record")
next_length saw_final (b ∷ bs) =
    if saw_final
    then err (vault_integrity_error "vault object contains a record after its final tag")
    else if not (length (b ∷ bs) =? 4)
    then err (vault_integrity_error "vault object has a truncated record length")
    else if leb secretstream_overhead (unpack32 (b ∷ bs))
        && leb (unpack32 (b ∷ bs)) max_record_bytes
    then ok (some (unpack32 (b ∷ bs)))
    else err (vault_format_error "encrypted record length is outside the allowed range")

-- `saw_final` after a record with the tag.
unfoldable pub after_tag : Tag → Result Bool
after_tag final = ok true
after_tag message = ok false
after_tag (other n) = err (vault_integrity_error "vault record has an invalid tag")

-- What the sink holds, and the temporary file of verified plaintext.
pub record Files : Type 0 where
  pub sink : Bytes
  pub staging : Bytes

module _ (c : Crypto) where
  -- The record that is read: the ciphertext, the rest, and what it decrypts to.
  unfoldable pub pull_record :
      c.State → Bytes → Bytes → ℕ → Result ((Bytes × Bytes) × (Bytes × Bool) × c.State)
  unfolding after_tag
  pull_record state extra source size = do
    (ciphertext, rest) ← read_exact size source
    elim (c.pull state ciphertext extra) [
      | none ↦ err (vault_integrity_error "vault record authentication failed")
      | some ((text, tag), state') ↦ do
        saw ← after_tag tag
        ok ((ciphertext, rest), (text, saw), state')
    ]

  unfoldable pub pull_loop : ℕ → Bytes → c.State → Bytes → Bytes → Bytes → Bool → Pulled
  unfolding next_length pull_record
  pull_loop zero extra state source file plain saw_final = record {
    plain = plain;
    outcome = err out_of_fuel;
  }
  pull_loop (suc fuel) extra state source file plain saw_final =
      elim (next_length saw_final (take 4 source)) [
        | err e ↦ record { plain = plain; outcome = err e }
        | ok none ↦ record { plain = plain; outcome = ok (file, source) }
        | ok (some size) ↦ elim (pull_record state extra (drop 4 source) size) [
          | err e ↦ record { plain = plain; outcome = err e }
          | ok ((ciphertext, rest), (text, saw), state') ↦
              pull_loop fuel extra state' rest (file ++ take 4 source ++ ciphertext) (plain ++ text)
                saw
        ]
      ]

  -- The checks after the last record.
  unfoldable pub check_totals :
      VaultDescriptor → Bytes → Option String → Bytes × Bytes → Result VaultObjectResult
  check_totals d plain expected (file, rest) = do
    raise_if (not (is_empty rest)) (vault_integrity_error "vault object has trailing bytes")
    raise_if
        (not (is_int (length plain) d.content_length) || not (c.sha256 plain == d.content_sha256))
        (vault_integrity_error "vault plaintext length or hash does not match its descriptor")
    raise_if (elim expected [ none ↦ false | some hash ↦ not (c.sha256 file == hash) ])
        (vault_integrity_error "vault ciphertext hash does not match its manifest")
    ok (record {
      descriptor = d;
      ciphertext_sha256 = c.sha256 file;
      plaintext_length = length plain;
    })

  -- From the opened descriptor: the secretstream header, and the state that it starts.
  unfoldable pub start_pull : Opened → Bytes → Result (c.State × Bytes × Bytes)
  unfolding check_key
  start_pull opened key = do
    (header, rest) ← read_exact header_bytes opened.rest
    elim (check_key key) [
      | err e ↦ err (vault_integrity_error "vault key or secretstream header is invalid")
      | ok checked ↦ elim (c.init_pull header checked) [
        | none ↦ err (vault_integrity_error "vault key or secretstream header is invalid")
        | some state ↦ ok (state, opened.consumed ++ header, rest)
      ]
    ]

  -- What the loop writes, record by record, of which `plain` is the sequence: to the temporary file
  -- with `stage_plaintext`, else to the sink, if there is one.
  unfoldable pub write_records : Bool → Bool → Bytes → Files → Files
  write_records has_sink true plain files = record files { staging = files.staging ++ plain }
  write_records true false plain files = record files { sink = files.sink ++ plain }
  write_records false false plain files = files

  -- `shutil.copyfileobj(verified_plaintext, sink)`, with `stage_plaintext`.
  unfoldable pub copy_staged : Bool → Files → Files
  copy_staged true files = record files { sink = files.sink ++ files.staging }
  copy_staged false files = files

  -- The end of the call, after the checks.
  unfoldable pub end_call :
      Bool → Bool → Files → Result VaultObjectResult → Bytes × Result VaultObjectResult
  unfolding copy_staged
  end_call has_sink stage files (err e) = (files.sink, err e)
  end_call has_sink stage files (ok r) =
      if stage && not has_sink
      then (files.sink, err (vault_format_error "verified plaintext sink is missing"))
      else ((copy_staged stage files).sink, ok r)

  unfoldable pub process :
      Codec → Bytes → Bytes → Bool → Option String → Bool → Bytes × Result VaultObjectResult
  unfolding write_records end_call
  process codec source key has_sink expected stage = elim (open_descriptor codec source) [
    | err e ↦ ([], err e)
    | ok opened ↦ elim (start_pull opened key) [
      | err e ↦ ([], err e)
      | ok (state, file, rest) ↦
          let pulled = pull_loop (suc (length rest)) opened.raw state rest file [] false in
          end_call has_sink stage
            (write_records has_sink stage pulled.plain (record { sink = []; staging = [] }))
            (pulled.outcome >>= check_totals opened.descriptor pulled.plain expected)
    ]
  ]

  unfoldable pub decrypt_vault_object :
      Codec → Bytes → Bytes → Option String → Bool → Bytes × Result VaultObjectResult
  unfolding process
  decrypt_vault_object codec source key expected stage =
      process codec source key true expected stage

  unfoldable pub verify_vault_object :
      Codec → Bytes → Bytes → Option String → Result VaultObjectResult
  unfolding process
  verify_vault_object codec source key expected = (process codec source key false expected false).1
