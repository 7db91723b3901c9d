-- ===== src/Vault/Write.antt =====
-- `write_vault_object`: the bytes of the file that it publishes, or the error that it raises first. The
-- checks of the destination's path and the temporary file are left to the operating system.
use work_trace.Prelude.{
  ℕ, zero, suc, ◌+◌, leb, ◌=?◌, String, Bool, true, false, not, ◌&&◌, ◌||◌, List, [], ◌∷◌, ◌++◌,
  if◌then◌else◌, length, take, drop,
}
use work_trace.Prelude.Texts.{◌==◌}
use work_trace.Json.{ℤ, pos, negsuc}
use work_trace.Errors.{
  Result, ok, err, ◌>>=◌, ◌>>◌, raise_if, vault_format_error, vault_integrity_error, out_of_fuel,
}
use work_trace.Vault.Bytes.{Bytes, pack32}
use work_trace.Vault.Stream.{message, final, Crypto}
use work_trace.Vault.Descriptor.{VaultDescriptor, Codec, default_chunk_size, encoded, is_int}

pub record VaultObjectResult : Type 0 where
  pub descriptor : VaultDescriptor
  pub ciphertext_sha256 : String
  pub plaintext_length : ℕ

pub record VaultCheckpoint : Type 0 where
  pub plaintext_length : ℕ
  pub record_count : ℕ
  pub ciphertext_sha256 : String

abbrev pub magic : Bytes
magic = b'W' ∷ b'T' ∷ b'V' ∷ b'A' ∷ []

abbrev pub header_bytes : ℕ
header_bytes = 24

abbrev pub secretstream_overhead : ℕ
secretstream_overhead = 17

abbrev pub max_record_bytes : ℕ
max_record_bytes = default_chunk_size + secretstream_overhead

-- `_key`
unfoldable pub check_key : Bytes → Result Bytes
check_key key =
    if length key =? 32
    then ok key
    else err (vault_format_error "vault keys must be exactly 32 bytes")

-- `source.read(size)`: what is read, and what is left.
unfoldable pub read_chunk : ℤ → Bytes → Bytes × Bytes
read_chunk (pos n) source = (take n source, drop n source)
read_chunk (negsuc n) source = (source, [])

unfoldable pub is_empty : Bytes → Bool
is_empty [] = true
is_empty (b ∷ bs) = false

-- `_write_record`: the file with the record behind it.
unfoldable pub write_record : Bytes → Bytes → Result Bytes
write_record file ciphertext =
    if leb secretstream_overhead (length ciphertext) && leb (length ciphertext) max_record_bytes
    then ok (file ++ pack32 (length ciphertext) ++ ciphertext)
    else err (vault_format_error "encrypted record length is outside the allowed range")

-- What the loop of the writer carries.
pub record Written : Type 0 where
  pub file : Bytes
  pub plain : Bytes
  pub record_count : ℕ
  pub checkpoints : List VaultCheckpoint

module _ (c : Crypto) where
  -- One round after the record is written: the totals and the checkpoint.
  unfoldable pub note_record : Bytes → Bytes → Written → Written
  note_record file current w = record {
    file = file;
    plain = w.plain ++ current;
    record_count = w.record_count + 1;
    checkpoints =
        w.checkpoints
        ++ record {
          plaintext_length = length (w.plain ++ current);
          record_count = w.record_count + 1;
          ciphertext_sha256 = c.sha256 file;
        }
          ∷ [];
  }

  unfoldable pub push_loop : ℕ → ℤ → Bytes → c.State → Bytes → Bytes → Written → Result Written
  unfolding write_record note_record
  push_loop zero size extra state current source w = err out_of_fuel
  push_loop (suc fuel) size extra state current source w =
      let (following, rest) : Bytes × Bytes =
        if is_empty current then ([], source) else read_chunk size source in
      let last = is_empty following in
      let (encrypted, state') = c.push state current extra (if last then final else message) in
      write_record w.file encrypted >>= λ file.
      let w' = note_record file current w in
      let onward = push_loop fuel size extra state' following rest w' in
      if last then ok w' else onward

  unfoldable pub seal :
      Codec → Bytes → VaultDescriptor → Bytes → Result (Written × VaultObjectResult)
  seal codec source d key = do
    extra ← encoded codec d
    checked ← check_key key
    let header = (c.init_push checked).0
    raise_if (not (length header =? header_bytes))
        (vault_format_error "secretstream returned an invalid header")
    let prefix = magic ++ 1 ∷ pack32 (length extra)
    w ←
        push_loop (suc (length source)) d.chunk_size extra (c.init_push checked).1
          (read_chunk d.chunk_size source).0 (read_chunk d.chunk_size source).1
          (record {
            file = prefix ++ extra ++ header;
            plain = [];
            record_count = 0;
            checkpoints = [];
          })
    raise_if
        (not (is_int (length w.plain) d.content_length)
          || not (c.sha256 w.plain == d.content_sha256))
        (vault_integrity_error "vault plaintext length or hash does not match its descriptor")
    ok (
      w,
      record {
        descriptor = d;
        ciphertext_sha256 = c.sha256 w.file;
        plaintext_length = length w.plain;
      },
    )
