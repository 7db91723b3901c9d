-- ===== src/Vault/RoundTrip/Head.antt =====
-- The head of a vault object: its prefix, its descriptor and the header of its stream.
use work_trace.Prelude.{
  ℕ, suc, ◌≤◌, ltb, ◌≡◌, refl, Bool, true, false, some, none, [], ◌∷◌, ◌++◌, arith, length, take,
  drop,
}
use work_trace.Prelude.Texts.{◌==◌}
use work_trace.Json.{ℤ, pos}
use work_trace.Errors.{ok}
use work_trace.Vault.Bytes.{Bytes, pack32, unpack32, unpack32-pack32, read_exact, read_exact-append}
use work_trace.Vault.Stream.{Crypto, IsSound}
use work_trace.Vault.Descriptor.{
  VaultDescriptor, Codec, default_chunk_size, max_descriptor_bytes, to_mapping, validate_descriptor,
  is_int, same_bytes,
}
use work_trace.Vault.Write.{VaultObjectResult, magic, header_bytes, is_empty}
use work_trace.Vault.Read.{
  Opened, check_prefix, open_descriptor, start_pull, check_totals, pull_loop, process,
}
use work_trace.Vault.RoundTrip.Codec.{Reads, IsNamed, from_mapping-IsSame, parse-dumps}

pub check_prefix-magic : (n : ℕ) → check_prefix (magic ++ 1 ∷ pack32 n) ≡ ok tt
unfolding check_prefix same_bytes pack32
check_prefix-magic n = refl

abbrev pub raw : Codec → VaultDescriptor → Bytes
raw codec d = codec.dumps (to_mapping d)

abbrev pub prefix : Codec → VaultDescriptor → Bytes
prefix codec d = magic ++ 1 ∷ pack32 (length (raw codec d))

abbrev pub header : Crypto → Bytes → Bytes
header c key = (c.init_push key).0

abbrev pub opened : Codec → VaultDescriptor → Bytes → Opened
opened codec d rest = record {
  descriptor = d;
  raw = raw codec d;
  consumed = prefix codec d ++ raw codec d;
  rest = rest;
}

pub take-nil : (n : ℕ) (xs : Bytes) → take (suc n) xs ≡ [] → drop (suc n) xs ≡ []
take-nil n [] h = refl
take-nil n (x ∷ xs) h = cc

module _ (codec : Codec) (d : VaultDescriptor) (named : IsNamed d)
    (reads : Reads codec (to_mapping d)) (valid : validate_descriptor d ≡ ok tt)
    (fits : length (codec.dumps (to_mapping d)) ≤ max_descriptor_bytes) where
  -- The reader finds the descriptor that the writer put at the head of the file.
  pub open_descriptor-head :
      (rest : Bytes)
      → open_descriptor codec (prefix codec d ++ (raw codec d ++ rest)) ≡ ok (opened codec d rest)
  unfolding open_descriptor
  open_descriptor-head rest =
      let e : read_exact 9 (prefix codec d ++ (raw codec d ++ rest))
          ≡ ok (prefix codec d, raw codec d ++ rest) =
        unfold pack32 in read_exact-append (prefix codec d) (raw codec d ++ rest) in
      let n : unpack32 (drop 5 (prefix codec d)) ≡ length (raw codec d) =
        unpack32-pack32 (length (raw codec d)) (omega arith) in
      let small : ltb max_descriptor_bytes (length (raw codec d)) ≡ false = ground arith in
      let parsed = parse-dumps codec (to_mapping d) reads in
      let mapped = from_mapping-IsSame d reads.back reads.same named valid in
      rw (
        e,
        n,
        check_prefix-magic (length (raw codec d)),
        small,
        read_exact-append (raw codec d) rest,
        parsed,
        mapped,
      )

module _ (c : Crypto) (s : IsSound c) (key : Bytes) (keyed : length key ≡ 32) where
  pub start_pull-header :
      (o : Opened) (rest : Bytes) (b : c.State)
      → o.rest ≡ header c key ++ rest
      → c.init_pull (header c key) key ≡ some b
      → start_pull c o key ≡ ok (b, o.consumed ++ header c key, rest)
  unfolding start_pull
  start_pull-header o rest b e f =
      let n : read_exact header_bytes o.rest ≡ ok (header c key, rest) =
        rw (e, ← s.header_length key) (read_exact-append (header c key) rest) in
      ground (arith, n, f, keyed)

pub check_totals-own :
    (c : Crypto) (d : VaultDescriptor) (plain file : Bytes)
    → is_int (length plain) d.content_length ≡ true
    → (c.sha256 plain == d.content_sha256) ≡ true
    → check_totals c d plain none (file, [])
      ≡ ok (record {
        descriptor = d;
        ciphertext_sha256 = c.sha256 file;
        plaintext_length = length plain;
      })
unfolding check_totals is_empty
check_totals-own c d plain file m h = rw (m, h)

pub is_int-eq : (n : ℕ) (z : ℤ) → is_int n z ≡ true → z ≡ pos n
unfolding is_int
is_int-eq n z h = ground arith

pub process-parts :
    (c : Crypto) (codec : Codec) (source key : Bytes) (stage : Bool) {o : Opened} {b : c.State}
    {file rest plain : Bytes} {totals : Bytes × Bytes} {r : VaultObjectResult}
    → open_descriptor codec source ≡ ok o
    → start_pull c o key ≡ ok (b, file, rest)
    → pull_loop c (suc (length rest)) o.raw b rest file [] false
      ≡ record { plain = plain; outcome = ok totals }
    → check_totals c o.descriptor plain none totals ≡ ok r
    → process c codec source key true none stage ≡ (plain, ok r)
unfolding process
process-parts c codec source key stage h1 h2 h3 h4 = ground (arith, h1, h2, h3, h4)

pub valid-chunk_size :
    (d : VaultDescriptor) → validate_descriptor d ≡ ok tt → d.chunk_size ≡ pos default_chunk_size
unfolding validate_descriptor
valid-chunk_size d h = is_int-eq default_chunk_size d.chunk_size (ground arith)
