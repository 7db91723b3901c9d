-- ===== src/Vault/RoundTrip/Codec.antt =====
-- The descriptor through `to_mapping`, the codec and `from_mapping`.
use work_trace.Prelude.{◌≡◌, refl, String, true, false, some, [], ◌∷◌, arith}
use work_trace.Prelude.Texts.{◌==◌}
use work_trace.Json.{str, obj, Fields, get, size, has_key}
use work_trace.Errors.{ok}
use work_trace.Vault.Bytes.{Bytes}
use work_trace.Vault.Descriptor.{
  VaultDescriptor, Codec, to_mapping, validate_descriptor, string_of, has_exact_fields,
  from_mapping, same_bytes, parse_canonical_json,
}

-- The same dictionary, whatever the order of its keys.
pub record IsSame (fs gs : Fields) : Type 0 where
  pub same_size : size fs ≡ size gs
  pub same_keys : (k : String) → has_key k fs ≡ has_key k gs
  pub same_values : (k : String) → get k fs ≡ get k gs

-- `json.loads` gives back the dictionary that was dumped, and dumping that again gives the same bytes.
pub record Reads (codec : Codec) (fs : Fields) : Type 0 where
  pub back : Fields
  pub loaded : codec.loads (codec.dumps fs) ≡ some (obj back)
  pub same : IsSame back fs
  pub canonical : codec.dumps back ≡ codec.dumps fs

-- The texts that `from_mapping` wants non-empty. The format and the hash are so once validated.
pub record IsNamed (d : VaultDescriptor) : Type 0 where
  pub site_id : (d.site_id == "") ≡ false
  pub collection_id : (d.collection_id == "") ≡ false
  pub revision_id : (d.revision_id == "") ≡ false
  pub object_id : (d.object_id == "") ≡ false
  pub kind : (d.kind == "") ≡ false
  pub content_sha256 : (d.content_sha256 == "") ≡ false
  pub format : (d.format == "") ≡ false

string_of-str : (s : String) → (s == "") ≡ false → string_of (str s) ≡ ok s
unfolding string_of
string_of-str s h = rw h

pub from_mapping-IsSame :
    (d : VaultDescriptor) (fs : Fields)
    → IsSame fs (to_mapping d)
    → IsNamed d
    → validate_descriptor d ≡ ok tt
    → from_mapping fs ≡ ok d
unfolding from_mapping to_mapping has_exact_fields
from_mapping-IsSame d fs same named valid = ground (
  arith,
  same.same_size,
  same.same_keys "collection_id",
  same.same_keys "content_length",
  same.same_keys "content_sha256",
  same.same_keys "format",
  same.same_keys "format_version",
  same.same_keys "key_version",
  same.same_keys "kind",
  same.same_keys "object_id",
  same.same_keys "revision_id",
  same.same_keys "site_id",
  same.same_keys "chunk_size",
  same.same_values "collection_id",
  same.same_values "content_length",
  same.same_values "content_sha256",
  same.same_values "format",
  same.same_values "format_version",
  same.same_values "key_version",
  same.same_values "kind",
  same.same_values "object_id",
  same.same_values "revision_id",
  same.same_values "site_id",
  same.same_values "chunk_size",
  named,
  valid,
)

same_bytes_self : (xs : Bytes) → same_bytes xs xs ≡ true
unfolding same_bytes
same_bytes_self [] = refl
same_bytes_self (x ∷ xs) = ground (arith, same_bytes_self xs)

pub parse-dumps :
    (codec : Codec) (fs : Fields) (r : Reads codec fs)
    → parse_canonical_json codec (codec.dumps fs) ≡ ok r.back
unfolding parse_canonical_json
parse-dumps codec fs r = rw (r.loaded, r.canonical, same_bytes_self)
