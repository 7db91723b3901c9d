-- ===== src/Vault/Descriptor.antt =====
-- `VaultDescriptor`: its mapping, its validation, and the canonical encoding. `Codec` stands for
-- `json.dumps` of `canonical_json` and `json.loads` with `_reject_duplicate_keys`.
use Prim.Native.Char.{code}
use work_trace.Prelude.{
  ℕ, ◌+◌, ltb, leb, any, ◌=?◌, String, Bool, true, false, not, ◌&&◌, ◌||◌, Option, none, some, List,
  [], ◌∷◌, if◌then◌else◌, length,
}
use work_trace.Prelude.Texts.{◌==◌}
use work_trace.Json.{ℤ, pos, negsuc, Json, int, str, obj, Fields, end, field, get, size, has_key}
use work_trace.Errors.{Result, ok, err, ◌>>=◌, ◌>>◌, raise_if, vault_format_error}
use work_trace.Vault.Bytes.{Bytes}

pub record Codec : Type 0 where
  pub dumps : Fields → Bytes
  -- `none` where `json.loads` raises
  pub loads : Bytes → Option Json

pub record VaultDescriptor : Type 0 where
  pub site_id : String
  pub collection_id : String
  pub revision_id : String
  pub object_id : String
  pub kind : String
  pub content_length : ℤ
  pub content_sha256 : String
  pub key_version : ℤ
  pub chunk_size : ℤ
  pub format : String
  pub format_version : ℤ

abbrev pub default_chunk_size : ℕ
default_chunk_size = 1048576

abbrev pub max_descriptor_bytes : ℕ
max_descriptor_bytes = 65536

abbrev pub vault_format : String
vault_format = "worktrace-jira-vault-object"

unfoldable pub to_mapping : VaultDescriptor → Fields
to_mapping d = field "collection_id" (str d.collection_id) (
    field "content_length" (int d.content_length) (
      field "content_sha256" (str d.content_sha256) (
        field "format" (str d.format) (
          field "format_version" (int d.format_version) (
            field "key_version" (int d.key_version) (
              field "kind" (str d.kind) (
                field "object_id" (str d.object_id) (
                  field "revision_id" (str d.revision_id) (
                    field "site_id" (str d.site_id)
                      (field "chunk_size" (int d.chunk_size) end))))))))))

abbrev pub codes : String → List ℕ
codes String.[] = []
codes (String.◌∷◌ c s) = code c ∷ codes s

unfoldable pub is_negative : ℤ → Bool
is_negative (pos n) = false
is_negative (negsuc n) = true

unfoldable pub is_int : ℕ → ℤ → Bool
is_int n (pos m) = m =? n
is_int n (negsuc m) = false

is_upper : ℕ → Bool
is_upper c = leb b'A' c && leb c b'Z'

-- The zeros of the decimal digits of Unicode 15.0 (Python 3.12), each followed by its nine others.
abbrev decimal_zeros : List ℕ
decimal_zeros =
    48 ∷ 1632 ∷ 1776 ∷ 1984 ∷ 2406 ∷ 2534 ∷ 2662 ∷ 2790 ∷ 2918 ∷ 3046 ∷ 3174 ∷ 3302 ∷ 3430 ∷ 3558
    ∷ 3664 ∷ 3792 ∷ 3872 ∷ 4160 ∷ 4240 ∷ 6112 ∷ 6160 ∷ 6470 ∷ 6608 ∷ 6784 ∷ 6800 ∷ 6992 ∷ 7088
    ∷ 7232 ∷ 7248 ∷ 42528 ∷ 43216 ∷ 43264 ∷ 43472 ∷ 43504 ∷ 43600 ∷ 44016 ∷ 65296 ∷ 66720 ∷ 68912
    ∷ 69734 ∷ 69872 ∷ 69942 ∷ 70096 ∷ 70384 ∷ 70736 ∷ 70864 ∷ 71248 ∷ 71360 ∷ 71472 ∷ 71904 ∷ 72016
    ∷ 72784 ∷ 73040 ∷ 73120 ∷ 73552 ∷ 92768 ∷ 92864 ∷ 93008 ∷ 120782 ∷ 120792 ∷ 120802 ∷ 120812
    ∷ 120822 ∷ 123200 ∷ 123632 ∷ 124144 ∷ 125264 ∷ 130032 ∷ []

is_decimal : ℕ → Bool
is_decimal c = any (λ zero_digit. leb zero_digit c && leb c (zero_digit + 9)) decimal_zeros

is_hex : ℕ → Bool
unfolding is_decimal
is_hex c = is_decimal c || leb b'a' c && leb c b'f' || leb b'A' c && leb c b'F'

-- `str.isspace` of a character
is_space : ℕ → Bool
is_space c =
    leb 9 c && leb c 13
    || leb 28 c && leb c 32
    || c =? 133
    || c =? 160
    || c =? 5760
    || leb 8192 c && leb c 8202
    || c =? 8232
    || c =? 8233
    || c =? 8239
    || c =? 8287
    || c =? 12288

-- `text != text.lower()`, for the letters of ASCII: another capital is refused by the next test, with
-- the same error.
unfoldable pub has_upper : List ℕ → Bool
unfolding is_upper
has_upper [] = false
has_upper (c ∷ cs) = is_upper c || has_upper cs

all_spaces : List ℕ → Bool
unfolding is_space
all_spaces [] = true
all_spaces (c ∷ cs) = is_space c && all_spaces cs

-- Digits with single underscores between them, then spaces: what `int(text, 16)` accepts after the
-- sign and the prefix. The flag says that a digit has just been read.
hex_digits : Bool → List ℕ → Bool
unfolding is_hex all_spaces
hex_digits seen [] = seen
hex_digits seen (c ∷ cs) =
    let onward = hex_digits true cs in
    let joined = hex_digits false cs in
    if is_hex c then onward else if c =? b'_' && seen then joined else seen && all_spaces (c ∷ cs)

-- After "0x" one underscore may stand before the first digit.
hex_body : List ℕ → Bool
unfolding hex_digits
hex_body (z ∷ x ∷ cs) =
    if z =? b'0' && (x =? b'x' || x =? b'X')
    then hex_digits true cs && not (all_spaces cs)
    else hex_digits false (z ∷ x ∷ cs)
hex_body cs = hex_digits false cs

hex_signed : List ℕ → Bool
unfolding hex_body
hex_signed [] = false
hex_signed (c ∷ cs) = if c =? b'+' || c =? b'-' then hex_body cs else hex_body (c ∷ cs)

-- `int(text, 16)` does not raise.
unfoldable pub parses_base16 : List ℕ → Bool
unfolding hex_signed is_space
parses_base16 [] = false
parses_base16 (c ∷ cs) = if is_space c then parses_base16 cs else hex_signed (c ∷ cs)

unfoldable pub validate_descriptor : VaultDescriptor → Result (Unit {0})
validate_descriptor d = do
  raise_if (not (d.format == vault_format) || not (is_int 1 d.format_version))
      (vault_format_error "unsupported vault object format")
  raise_if (is_negative d.content_length || is_negative d.key_version || is_int 0 d.key_version)
      (vault_format_error "vault descriptor contains an invalid size or key version")
  raise_if (not (is_int default_chunk_size d.chunk_size))
      (vault_format_error "unsupported vault chunk size")
  raise_if (not (length (codes d.content_sha256) =? 64) || has_upper (codes d.content_sha256))
      (vault_format_error "vault descriptor content hash is invalid")
  raise_if (not (parses_base16 (codes d.content_sha256)))
      (vault_format_error "vault descriptor content hash is invalid")

-- `_string` and `_integer`
unfoldable pub string_of : Json → Result String
string_of (str s) = if s == "" then err (vault_format_error "must be a non-empty string") else ok s
string_of _ = err (vault_format_error "must be a non-empty string")

unfoldable pub integer_of : Json → Result ℤ
integer_of (int n) = ok n
integer_of _ = err (vault_format_error "must be an integer")

has_all : List String → Fields → Bool
has_all [] fs = true
has_all (k ∷ ks) fs = has_key k fs && has_all ks fs

abbrev pub descriptor_keys : List String
descriptor_keys =
    "collection_id" ∷ "content_length" ∷ "content_sha256" ∷ "format" ∷ "format_version"
    ∷ "key_version" ∷ "kind" ∷ "object_id" ∷ "revision_id" ∷ "site_id" ∷ "chunk_size" ∷ []

-- `set(value) == expected`: all of the keys, and as many.
unfoldable pub has_exact_fields : Fields → Bool
unfolding has_all has_key size
has_exact_fields fs = size fs =? 11 && has_all descriptor_keys fs

unfoldable pub from_mapping : Fields → Result VaultDescriptor
unfolding string_of integer_of get
from_mapping fs = do
  raise_if (not (has_exact_fields fs)) (vault_format_error "vault descriptor fields are not exact")
  site_id ← string_of (get "site_id" fs)
  collection_id ← string_of (get "collection_id" fs)
  revision_id ← string_of (get "revision_id" fs)
  object_id ← string_of (get "object_id" fs)
  kind ← string_of (get "kind" fs)
  content_length ← integer_of (get "content_length" fs)
  content_sha256 ← string_of (get "content_sha256" fs)
  key_version ← integer_of (get "key_version" fs)
  chunk_size ← integer_of (get "chunk_size" fs)
  format ← string_of (get "format" fs)
  format_version ← integer_of (get "format_version" fs)
  let d : VaultDescriptor = record {
    site_id = site_id;
    collection_id = collection_id;
    revision_id = revision_id;
    object_id = object_id;
    kind = kind;
    content_length = content_length;
    content_sha256 = content_sha256;
    key_version = key_version;
    chunk_size = chunk_size;
    format = format;
    format_version = format_version;
  }
  validate_descriptor d
  ok d

-- `VaultDescriptor.encoded`
unfoldable pub encoded : Codec → VaultDescriptor → Result Bytes
encoded codec d = do
  validate_descriptor d
  raise_if (ltb max_descriptor_bytes (length (codec.dumps (to_mapping d))))
      (vault_format_error "vault descriptor exceeds the size limit")
  ok (codec.dumps (to_mapping d))

unfoldable pub same_bytes : Bytes → Bytes → Bool
same_bytes [] [] = true
same_bytes (x ∷ xs) (y ∷ ys) = x =? y && same_bytes xs ys
same_bytes _ _ = false

canonical_object : Codec → Bytes → Option Json → Result Fields
unfolding same_bytes
canonical_object codec raw (some (obj fs)) =
    if same_bytes (codec.dumps fs) raw
    then ok fs
    else err (vault_format_error "vault descriptor is not canonically encoded")
canonical_object codec raw (some _) =
    err (vault_format_error "vault descriptor is not canonically encoded")
canonical_object codec raw none = err (vault_format_error "vault descriptor is invalid JSON")

-- `_parse_canonical_json`
unfoldable pub parse_canonical_json : Codec → Bytes → Result Fields
unfolding canonical_object
parse_canonical_json codec raw = canonical_object codec raw (codec.loads raw)
