-- ===== src/Vault/RoundTrip/Whole.antt =====
-- A whole vault object, through `write_vault_object` and `decrypt_vault_object`.
use mathlib.Core.List.{append_assoc}
use work_trace.Prelude.{
  ℕ, suc, ◌≤◌, ◌≡◌, refl, sym, ◌∙◌, Bool, true, false, none, [], ◌++◌, arith, length,
  length-take-le, take, drop,
}
use work_trace.Prelude.Texts.{◌==◌}
use work_trace.Json.{pos}
use work_trace.Errors.{ok}
use mathlib.Core.Path.{subst}
use work_trace.Vault.Bytes.{Bytes, length-drop}
use work_trace.Vault.Stream.{Crypto, IsSound}
use work_trace.Vault.Descriptor.{
  VaultDescriptor, Codec, max_descriptor_bytes, to_mapping, validate_descriptor, encoded, is_int,
}
use work_trace.Vault.Write.{VaultObjectResult, Written, check_key, read_chunk, push_loop, seal}
use work_trace.Vault.Read.{open_descriptor, pull_loop, process, decrypt_vault_object}
use work_trace.Vault.RoundTrip.Records.{take-append-drop}
use work_trace.Vault.RoundTrip.Loops.{Sealed, push_loop-Sealed, push_loop-total}
use work_trace.Vault.RoundTrip.Codec.{Reads, IsNamed}
use work_trace.Vault.RoundTrip.Head.{
  raw, prefix, header, opened, take-nil, open_descriptor-head, start_pull-header, check_totals-own,
  process-parts, valid-chunk_size,
}

-- What a descriptor must be for an object to be written under it and read back: valid, its texts not
-- empty, its encoding within the limit and readable, and its length and hash those of the source.
pub record Describes (c : Crypto) (codec : Codec) (d : VaultDescriptor) (source : Bytes)
    : Type 0 where
  pub valid : validate_descriptor d ≡ ok tt
  pub named : IsNamed d
  pub reads : Reads codec (to_mapping d)
  pub fits : length (codec.dumps (to_mapping d)) ≤ max_descriptor_bytes
  pub measured : is_int (length source) d.content_length ≡ true
  pub hashed : (c.sha256 source == d.content_sha256) ≡ true

module _ (c : Crypto) (s : IsSound c) (codec : Codec) (key : Bytes) (keyed : length key ≡ 32)
    (d : VaultDescriptor) (source : Bytes) (ds : Describes c codec d source) where
  abbrev chunk : ℕ
  chunk = 1048575

  -- The file before the first record.
  abbrev start : Written
  start = record {
    file = prefix codec d ++ raw codec d ++ header c key;
    plain = [];
    record_count = 0;
    checkpoints = [];
  }

  pushed :
      (w : Written) × (push_loop c
          (suc (length source))
          (pos (suc chunk))
          (codec.dumps (to_mapping d))
          (c.init_push key).1
          (take (suc chunk) source)
          (drop (suc chunk) source)
          start
        ≡ ok w)
  pushed =
      push_loop-total c s (codec.dumps (to_mapping d)) chunk (omega arith) (suc (length source))
        (c.init_push key).1 (take (suc chunk) source) (drop (suc chunk) source) start
        (omega (arith, length-drop (suc chunk) source)) (length-take-le (suc chunk) source)

  emptied : take (suc chunk) source ≡ [] → drop (suc chunk) source ≡ []
  emptied = take-nil chunk source

  sealed : Sealed c s (codec.dumps (to_mapping d)) (c.init_push key).1 source start pushed.0
  sealed = rw take-append-drop at (
      push_loop-Sealed c s (codec.dumps (to_mapping d)) chunk (suc (length source))
        (c.init_push key).1 (take (suc chunk) source) (drop (suc chunk) source) start pushed.0
        emptied pushed.1)

  abbrev result_of : Written → VaultObjectResult
  result_of w = record {
    descriptor = d;
    ciphertext_sha256 = c.sha256 w.file;
    plaintext_length = length source;
  }

  sealed_plain : (pushed.0).plain ≡ source
  sealed_plain = sealed.plain

  written :
      push_loop c
        (suc (length source))
        d.chunk_size
        (codec.dumps (to_mapping d))
        (c.init_push key).1
        (read_chunk d.chunk_size source).0
        (read_chunk d.chunk_size source).1
        start
      ≡ ok pushed.0
  unfolding read_chunk
  written =
      subst
        (λ z.
          push_loop c (suc (length source)) z (codec.dumps (to_mapping d)) (c.init_push key).1
            (read_chunk z source).0 (read_chunk z source).1 start
          ≡ ok pushed.0)
        (sym (valid-chunk_size d ds.valid)) pushed.1

  encodes : encoded codec d ≡ ok (raw codec d)
  unfolding encoded
  encodes = ground (arith, ds.valid, ds.fits)

  key_checked : check_key key ≡ ok key
  unfolding check_key
  key_checked = ground (arith, keyed)

  -- The writer succeeds with what its loop wrote.
  seal-pushed : seal c codec source d key ≡ ok (pushed.0, result_of pushed.0)
  unfolding seal
  seal-pushed =
      rw (encodes, key_checked, s.header_length key, written, sealed_plain, ds.measured, ds.hashed)

  file_shape : (pushed.0).file ≡ prefix codec d ++ (raw codec d ++ (header c key ++ sealed.tail))
  file_shape = sealed.file ∙ simp append_assoc

  pulled_whole :
      (b : c.State)
      → s.Paired (c.init_push key).1 b
      → pull_loop c
          (suc (length sealed.tail))
          (raw codec d)
          b
          sealed.tail
          (prefix codec d ++ raw codec d ++ header c key)
          []
          false
        ≡ record { plain = source; outcome = ok ((pushed.0).file, []) }
  pulled_whole b p =
      (sealed.readable b p).pulled (suc (length sealed.tail))
        (prefix codec d ++ raw codec d ++ header c key) [] (omega arith)
      ∙ rw (← sealed.file)

  process-sealed :
      (stage : Bool)
      → process c codec (pushed.0).file key true none stage ≡ (source, ok (result_of pushed.0))
  unfolding process
  process-sealed stage =
      let (b, started, p) = s.paired key in
      let head =
        open_descriptor-head codec d ds.named ds.reads ds.valid ds.fits
          (header c key ++ sealed.tail) in
      let begun =
        start_pull-header c s key keyed (opened codec d (header c key ++ sealed.tail)) sealed.tail b
          refl started in
      let totals = check_totals-own c d source (pushed.0).file ds.measured ds.hashed in
      let head' : open_descriptor codec (pushed.0).file
          ≡ ok (opened codec d (header c key ++ sealed.tail)) =
        rw file_shape head in
      process-parts c codec (pushed.0).file key stage head' begun (pulled_whole b p) totals

-- Under a sound secretstream and a 32-byte key, a source with a descriptor that describes it is
-- written, and the file decrypts, with or without staging, to exactly the source, with the result
-- that the writer returned.
pub decrypt-seal :
    (c : Crypto) (codec : Codec) (key source : Bytes) (d : VaultDescriptor) (stage : Bool)
    → IsSound c
    → length key ≡ 32
    → Describes c codec d source
    → (w : Written) × (r : VaultObjectResult) × (seal c codec source d key ≡ ok (w, r))
      × (decrypt_vault_object c codec w.file key none stage ≡ (source, ok r))
unfolding decrypt_vault_object
decrypt-seal c codec key source d stage s keyed ds = (
  (pushed c s codec key keyed d source ds).0,
  result_of c s codec key keyed d source ds (pushed c s codec key keyed d source ds).0,
  seal-pushed c s codec key keyed d source ds,
  process-sealed c s codec key keyed d source ds stage,
)
