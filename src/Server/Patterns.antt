-- ===== src/Server/Patterns.antt =====
-- The regular expressions of mcp_server/ that describe whole identifiers, as tests on characters:
-- `_STABLE_IDENTIFIER` of limits.py, the tokens and fingerprints of protocol.py.
use Prim.Native.Char.{code}
use Prim.Native.String.{[], ◌∷◌}
use work_trace.Prelude.{
  ℕ, suc, leb, ◌=?◌, String, Bool, true, false, ◌||◌, ◌&&◌, Option, none, some, if◌then◌else◌,
}
use work_trace.Server.Values.{text_length}

is_digit : ℕ → Bool
is_digit c = leb 48 c && leb c 57

-- `[A-Za-z]`
is_letter : ℕ → Bool
is_letter c = (leb 65 c && leb c 90) || (leb 97 c && leb c 122)

-- `[A-Za-z0-9_-]`
is_name_char : ℕ → Bool
is_name_char c = is_letter c || is_digit c || (c =? 95) || (c =? 45)

is_hex : ℕ → Bool
is_hex c = is_digit c || (leb 97 c && leb c 102)

all_chars : (ℕ → Bool) → String → Bool
all_chars p [] = true
all_chars p (c ∷ s) = p (code c) && all_chars p s

-- `(?::[A-Za-z0-9._-]{1,128})*`, inside a part of which n characters are read.
part : ℕ → String → Bool
part n [] = leb 1 n && leb n 128
part n (c ∷ s) = elim (code c =? 58) [
  | true ↦ leb 1 n && leb n 128 && part 0 s
  | false ↦ (is_name_char (code c) || (code c =? 46)) && part (suc n) s
]

-- `[A-Za-z0-9_-]{1,127}` and the parts.
name : ℕ → String → Bool
name n [] = leb 1 n && leb n 127
name n (c ∷ s) = elim (code c =? 58) [
  | true ↦ leb 1 n && leb n 127 && part 0 s
  | false ↦ is_name_char (code c) && name (suc n) s
]

-- `_STABLE_IDENTIFIER.fullmatch(value)`
unfoldable pub is_stable_identifier : String → Bool
unfolding is_letter name is_name_char is_digit part
is_stable_identifier [] = false
is_stable_identifier (c ∷ s) = is_letter (code c) && name 0 s

-- What follows a prefix, if the text starts with it.
unfoldable pub after_prefix : String → String → Option String
after_prefix [] s = some s
after_prefix (c ∷ p) [] = none
after_prefix (c ∷ p) (d ∷ s) = if code c =? code d then after_prefix p s else none

unfoldable pub starts_with : String → String → Bool
unfolding after_prefix
starts_with s p = elim (after_prefix p s) [ some _ ↦ true | none ↦ false ]

-- `[0-9a-f]{64}`
unfoldable pub is_fingerprint : String → Bool
unfolding is_hex is_digit all_chars
is_fingerprint s = (text_length s =? 64) && all_chars is_hex s

-- `[A-Za-z0-9_-]+`
unfoldable pub is_encoded : String → Bool
unfolding is_name_char is_letter is_digit all_chars
is_encoded s = leb 1 (text_length s) && all_chars is_name_char s

-- `[0-9]{1,9}`
unfoldable pub is_ordinal : String → Bool
unfolding is_digit all_chars
is_ordinal s = leb 1 (text_length s) && leb (text_length s) 9 && all_chars is_digit s

-- `view:1:[0-9a-f]{64}`
unfoldable pub is_view_token : String → Bool
is_view_token s = elim (after_prefix "view:1:" s) [
  | some digest ↦ is_fingerprint digest
  | none ↦ false
]

-- `wtc1:[A-Za-z0-9_-]+`
unfoldable pub is_cursor : String → Bool
is_cursor s = elim (after_prefix "wtc1:" s) [ some encoded ↦ is_encoded encoded | none ↦ false ]

-- `"\x00" in value`
unfoldable pub has_nul : String → Bool
has_nul [] = false
has_nul (c ∷ s) = (code c =? 0) || has_nul s

-- `value.partition(":")[0]`
unfoldable pub before_colon : String → String
before_colon [] = []
before_colon (c ∷ s) = elim (code c =? 58) [ true ↦ [] | false ↦ c ∷ before_colon s ]
