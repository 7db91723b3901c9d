-- ===== src/Server/Cursors/Binding.antt =====
-- What a cursor of mcp_server/protocol.py is bound to.
use Prim.Native.String.{String}
use mathlib.Core.Path.{subst}
use work_trace.Prelude.{
  Bool, true, false, not, ◌||◌, Option, none, some, Option-cases, ◌≡◌, inl, inr, refl, sym, ap, ◌∙◌,
  arith,
}
use work_trace.Errors.{Result, ok, err, ◌>>◌, raise_if, Error, protocol_error}
use work_trace.Prelude.Texts.{◌==◌, eq_iff, eq_refl}
use work_trace.Json.{Json, null, str, Fields, get}
use work_trace.Server.Patterns.{is_view_token}
use work_trace.Server.Cursors.Parsing.{IsReadBack, IsCursorInput, parse_cursor-encode}
use work_trace.Server.Cursors.{
  check_expected, text_at, Request, fingerprint_json, check_request, cursor_payload, decode_cursor,
  encode_cursor, same_json,
}

-- What a payload shares with the request that accepts it.
abbrev pub Agrees : Request → Fields → Type 0
Agrees request payload =
    (text_at "collection" payload ≡ request.collection)
    × (text_at "app" payload ≡ request.app_id)
    × (text_at "filters" payload ≡ request.filters)
    × (text_at "view" payload ≡ request.view)
    × (get "object_fingerprint" payload ≡ fingerprint_json request.object_fingerprint)

raise_if-ok : (b : Bool) (e : Error) → raise_if b e ≡ ok tt → b ≡ false
raise_if-ok true e done = absurd (cc)
raise_if-ok false e done = refl

same_json-eq : (j : Json) (o : Option String) → same_json j o ≡ true → j ≡ fingerprint_json o
unfolding same_json fingerprint_json
same_json-eq null none same = refl
same_json-eq (str s) (some t) same = ap (λ (u : String). str u) ((eq_iff s t).0 same)
same_json-eq j o same = absurd (cc)

four_checks :
    {B : Type 0} (a b c d : Result (Unit {0})) (last : Result B) {given : B}
    → (a >> b >> c >> d >> last) ≡ ok given
    → (a ≡ ok tt) × (b ≡ ok tt) × (c ≡ ok tt) × (d ≡ ok tt)
four_checks (ok _) (ok _) (ok _) (ok _) last done = (refl, refl, refl, refl)
four_checks (ok _) (ok _) (ok _) (err e) last done = absurd (cc)
four_checks (ok _) (ok _) (err e) d last done = absurd (cc)
four_checks (ok _) (err e) c d last done = absurd (cc)
four_checks (err e) b c d last done = absurd (cc)

check_request-Agrees :
    (request : Request) (payload : Fields) {decoded : Option Fields}
    → check_request request payload ≡ ok decoded
    → Agrees request payload
unfolding check_request check_expected
check_request-Agrees request payload done =
    let (scope, filters, object, view) =
      four_checks
        (raise_if
          (not (text_at "collection" payload == request.collection)
            || not (text_at "app" payload == request.app_id))
          (protocol_error "cursor_scope_mismatch" none))
        (raise_if (not (text_at "filters" payload == request.filters))
          (protocol_error "cursor_filter_mismatch" none))
        (raise_if (not (same_json (get "object_fingerprint" payload) request.object_fingerprint))
          (protocol_error "cursor_scope_mismatch" none))
        (check_expected (some (text_at "view" payload)) request.view) (ok (some payload)) done in
    let scope' = raise_if-ok _ _ scope in
    let filters' = raise_if-ok _ _ filters in
    let object' = raise_if-ok _ _ object in
    (
      ground (arith, scope', eq_iff (text_at "collection" payload) request.collection),
      ground (arith, scope', eq_iff (text_at "app" payload) request.app_id),
      ground (arith, filters', eq_iff (text_at "filters" payload) request.filters),
      ground (arith, view, eq_iff (text_at "view" payload) request.view),
      same_json-eq (get "object_fingerprint" payload) request.object_fingerprint
          (ground (arith, object')),
    )

-- Two requests that ask for the same listing, view and object.
abbrev pub SameListing : Request → Request → Type 0
SameListing a b =
    (a.collection ≡ b.collection)
    × (a.app_id ≡ b.app_id)
    × (a.filters ≡ b.filters)
    × (a.view ≡ b.view)
    × (a.object_fingerprint ≡ b.object_fingerprint)

fingerprint_json_injective : (a b : Option String) → fingerprint_json a ≡ fingerprint_json b → a ≡ b
unfolding fingerprint_json
fingerprint_json_injective none none e = refl
fingerprint_json_injective none (some t) e = absurd (cc)
fingerprint_json_injective (some s) none e = absurd (cc)
fingerprint_json_injective (some s) (some t) e = cc

Agrees-payload :
    (request : Request) (position : Fields) (generation : Option String)
    → (text_at "collection" (cursor_payload request position generation) ≡ request.collection)
      × (text_at "app" (cursor_payload request position generation) ≡ request.app_id)
      × (text_at "filters" (cursor_payload request position generation) ≡ request.filters)
      × (text_at "view" (cursor_payload request position generation) ≡ request.view)
      × (get "object_fingerprint" (cursor_payload request position generation)
          ≡ fingerprint_json request.object_fingerprint)
unfolding cursor_payload text_at get fingerprint_json
Agrees-payload request position generation = elim (Option-cases request.object_fingerprint) [
  | inl e ↦ (refl, refl, refl, rw e, rw e)
  | inr (digest, e) ↦ (refl, refl, refl, rw e, rw e)
]

same_json_refl : (o : Option String) → same_json (fingerprint_json o) o ≡ true
unfolding same_json fingerprint_json
same_json_refl none = refl
same_json_refl (some s) = eq_refl s

check_request-same :
    (request : Request) (payload : Fields)
    → Agrees request payload
    → is_view_token request.view ≡ true
    → check_request request payload ≡ ok (some payload)
unfolding check_request check_expected
check_request-same request payload (c, a, f, w, o) token =
    let c' = (eq_iff (text_at "collection" payload) request.collection).1 c in
    let a' = (eq_iff (text_at "app" payload) request.app_id).1 a in
    let f' = (eq_iff (text_at "filters" payload) request.filters).1 f in
    let w' = (eq_iff (text_at "view" payload) request.view).1 w in
    let t' = subst (λ (v : String). is_view_token v ≡ true) (sym w) token in
    let o' =
      ap (λ (j : Json). same_json j request.object_fingerprint) o
      ∙ same_json_refl request.object_fingerprint in
    rw (c', a', f', o', t', w')

module _ (pack : Fields → String) (unpack : String → Option Json)
    (has_timezone : String → Bool) where
  -- A cursor that `encode_cursor` makes for valid arguments, with a codec that reads its payload
  -- back, decodes under the same request to the payload that was encoded.
  pub decode_cursor-encode :
      (request : Request) (position : Fields) (generation : Option String) {cursor : String}
      → IsCursorInput has_timezone request position generation
      → IsReadBack pack unpack (cursor_payload request position generation)
      → encode_cursor pack request position generation ≡ ok cursor
      → decode_cursor has_timezone unpack request (some cursor)
        ≡ ok (some (cursor_payload request position generation))
  unfolding decode_cursor
  decode_cursor-encode request position generation input codec made =
      let (parsed, other) =
        parse_cursor-encode pack unpack has_timezone request position generation input codec made in
      rw (other, parsed)
        (check_request-same request (cursor_payload request position generation)
          (Agrees-payload request position generation) input.0)

  -- If such a cursor decodes under another request, the two requests agree on the collection, the
  -- app, the filters, the view and the context object.
  pub decode_cursor-SameListing :
      (made asked : Request) (position : Fields) (generation : Option String) (cursor : String)
      {decoded : Option Fields}
      → IsCursorInput has_timezone made position generation
      → IsReadBack pack unpack (cursor_payload made position generation)
      → encode_cursor pack made position generation ≡ ok cursor
      → decode_cursor has_timezone unpack asked (some cursor) ≡ ok decoded
      → SameListing made asked
  unfolding decode_cursor
  decode_cursor-SameListing made asked position generation cursor {decoded} input codec encoded
        done =
      let (parsed, other) =
        parse_cursor-encode pack unpack has_timezone made position generation input codec encoded in
      let payload = cursor_payload made position generation in
      let accepted : check_request asked payload ≡ ok decoded = rw (other, parsed) at done in
      let (c, a, f, w, o) = check_request-Agrees asked payload accepted in
      let (c', a', f', w', o') = Agrees-payload made position generation in
      (
        sym c' ∙ c,
        sym a' ∙ a,
        sym f' ∙ f,
        sym w' ∙ w,
        fingerprint_json_injective made.object_fingerprint asked.object_fingerprint (sym o' ∙ o),
      )
