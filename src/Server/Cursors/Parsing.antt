-- ===== src/Server/Cursors/Parsing.antt =====
-- Parsing a cursor that `encode_cursor` of mcp_server/protocol.py made.
use Prim.Native.Char.{Char, code}
use Prim.Native.String.{String, ◌∷◌, ◌++◌}
use Prim.Native.String.append.{cons}
use mathlib.Core.Path.{subst}
use work_trace.Prelude.{
  ltb, ◌=?◌, Bool, true, false, Bool-cases, Option, some, Option-cases, ◌≡◌, inl, inr, refl, ap,
  ◌∙◌, arith,
}
use work_trace.Errors.{ok}
use work_trace.Json.{Json, obj, Fields, get, has_key, size, as_object}
use work_trace.Server.Values.{text_length}
use work_trace.Server.Patterns.{
  after_prefix, starts_with, is_fingerprint, is_encoded, is_view_token,
}
use work_trace.Server.Prefixes.{after_prefix-append}
use work_trace.Server.Cursors.{
  has_keys, text_at, null_or_fingerprint, valid_position, valid_generation, valid_payload, Request,
  fingerprint_json, cursor_payload, parse_cursor, encode_cursor,
}

starts_with-other :
    (c d : Char) (p q s : String)
    → (code d =? code c) ≡ false
    → starts_with ((c ∷ p) ++ s) (d ∷ q) ≡ false
unfolding starts_with after_prefix
starts_with-other c d p q s other =
    ap (λ (t : String). starts_with t (d ∷ q)) (cons c p s) ∙ ground (arith, other)

no_offset : (s : String) → starts_with ("wtc1:" ++ s) "offset:" ≡ false
no_offset s = starts_with-other _ _ _ _ s refl

-- The codec reads a payload back, and writes it in the URL-safe alphabet.
abbrev pub IsReadBack : (Fields → String) → (String → Option Json) → Fields → Type 0
IsReadBack pack unpack payload =
    (unpack (pack payload) ≡ some (obj payload)) × (is_encoded (pack payload) ≡ true)

-- What the tools pass to `encode_cursor`.
abbrev pub IsCursorInput : (String → Bool) → Request → Fields → Option String → Type 0
IsCursorInput has_timezone request position generation =
    (is_view_token request.view ≡ true)
    × (is_fingerprint request.filters ≡ true)
    × (null_or_fingerprint (fingerprint_json request.object_fingerprint) ≡ true)
    × (valid_position has_timezone request.collection (fingerprint_json request.object_fingerprint)
          position
        ≡ true)
    × (valid_generation request.collection (fingerprint_json generation) ≡ true)

module _ (pack : Fields → String) (unpack : String → Option Json)
    (has_timezone : String → Bool) where
  valid_payload-cursor :
      (request : Request) (position : Fields) (generation : Option String)
      → IsCursorInput has_timezone request position generation
      → valid_payload has_timezone (cursor_payload request position generation) ≡ true
  unfolding valid_payload cursor_payload has_keys get has_key size text_at as_object
      fingerprint_json
  valid_payload-cursor request position generation (v, f, d, p, g) =
      let P = λ (o : Option String).
        valid_position has_timezone request.collection (fingerprint_json o) position ≡ true in
      elim (Option-cases request.object_fingerprint) [
        | inl e ↦ let p' = subst P e p in rw (e, v, f, g, p')
        | inr (digest, e) ↦
            let p' = subst P e p in
            let d' =
              subst (λ (o : Option String). null_or_fingerprint (fingerprint_json o) ≡ true) e d in
            rw (e, v, f, g, d', p')
      ]

  parse_cursor-some :
      (value encoded : String) (payload : Fields)
      → after_prefix "wtc1:" value ≡ some encoded
      → is_encoded encoded ≡ true
      → ltb 2048 (text_length value) ≡ false
      → unpack encoded ≡ some (obj payload)
      → valid_payload has_timezone payload ≡ true
      → parse_cursor has_timezone unpack value ≡ some payload
  unfolding parse_cursor
  parse_cursor-some value encoded payload starts fine short unpacked valid =
      rw (parse_cursor, starts, fine, short, unpacked, valid)

  pub parse_cursor-encode :
      (request : Request) (position : Fields) (generation : Option String) {cursor : String}
      → IsCursorInput has_timezone request position generation
      → IsReadBack pack unpack (cursor_payload request position generation)
      → encode_cursor pack request position generation ≡ ok cursor
      → (parse_cursor has_timezone unpack cursor
          ≡ some (cursor_payload request position generation))
        × (starts_with cursor "offset:" ≡ false)
  unfolding encode_cursor
  parse_cursor-encode request position generation {cursor} input codec made =
      let payload = cursor_payload request position generation in
      let text = "wtc1:" ++ pack payload in
      let (unpacked, fine) = codec in
      let valid = valid_payload-cursor request position generation input in
      elim (Bool-cases (ltb 2048 (text_length text))) [
        | inl long ↦ absurd (ground (arith, long, made))
        | inr short ↦
            let same : text ≡ cursor = ground (arith, short, made) in
            subst
              (λ (c : String).
                (parse_cursor has_timezone unpack c ≡ some payload)
                × (starts_with c "offset:" ≡ false))
              same
              (
                parse_cursor-some text (pack payload) payload
                    (after_prefix-append "wtc1:" (pack payload)) fine short unpacked valid,
                no_offset (pack payload),
              )
      ]
