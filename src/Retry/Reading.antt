-- ===== src/Retry/Reading.antt =====
-- `_read_bounded_response` and what it calls. `zlib` and the parsing of headers are parameters: a
-- decoder object is its state, and `decompress` gives the state after it with the bytes it returns.
pub mod Bound
pub mod Ends
use work_trace.Prelude.{
  ℕ, zero, suc, ◌+◌, ◌-◌, ◌*◌, ◌/◌, ◌%◌, min, ltb, leb, ◌=?◌, String, Bool, true, false, not, ◌&&◌,
  ◌||◌, Option, none, some, List, [], ◌∷◌, ◌++◌, if◌then◌else◌, length,
}
use work_trace.Prelude.Texts.{◌==◌, elem}
use work_trace.Errors.{
  Result, ok, err, ◌>>=◌, ◌>>◌, raise_if, permanent_source_error, request_error, out_of_fuel,
}

abbrev pub Bytes : Type 0
Bytes = List ℕ

abbrev pub max_http_response_bytes : ℕ
max_http_response_bytes = 10000000

abbrev pub decode_output_chunk_bytes : ℕ
decode_output_chunk_bytes = 65536

abbrev pub max_wbits : ℕ
max_wbits = 15

-- What is read of a response: the headers that count, and its content, which is consumed before or
-- comes in raw chunks, after which the transport may fail. `declared_length` is the stripped Content-Length where it is decimal.
pub record Response : Type 0 where
  pub status_code : ℕ
  pub declared_length : Option ℕ
  pub content_encodings : List String
  pub retry_after : Option String
  pub is_stream_consumed : Bool
  pub content : Bytes
  pub raw_chunks : List Bytes
  pub is_broken : Bool

-- The window bits that choose a format: raw is the negative argument.
pub data WindowBits : Type 0 where
  gzip_bits zlib_bits raw_bits : WindowBits

-- `zlib.decompressobj`: `none` from `decompress` is `zlib.error`.
pub record Zlib : Type 1 where
  pub State : Type 0
  pub decompressobj : WindowBits → State
  pub decompress : State → Bytes → ℕ → Option (State × Bytes)
  pub unconsumed_tail : State → Bytes
  pub unused_data : State → Bytes
  pub eof : State → Bool

-- The values of Content-Encoding arrive stripped, in lower case, without the empty ones.
unfoldable pub content_encoding : Response → Result String
unfolding elem
content_encoding r = elim r.content_encodings [
  | [] ↦ ok "identity"
  | encoding ∷ [] ↦
      if elem encoding ("identity" ∷ "gzip" ∷ "deflate" ∷ [])
      then ok encoding
      else err (permanent_source_error "unsupported content encoding")
  | encoding ∷ (other ∷ rest) ↦ err (permanent_source_error "unsupported content encoding")
]

-- `_is_zlib_wrapped_deflate` on the two bytes CMF and FLG: `cmf & 0x0F`, `cmf >> 4`, `cmf << 8`.
unfoldable pub is_zlib_wrapped_deflate : ℕ → ℕ → Bool
is_zlib_wrapped_deflate cmf flg =
    (cmf % 16 =? 8) && (leb (cmf / 16) 7 && ((cmf * 256 + flg) % 31 =? 0))

unfoldable pub append_bounded : Bytes → Bytes → Result Bytes
append_bounded content chunk =
    if ltb max_http_response_bytes (length content + length chunk)
    then err (permanent_source_error "response exceeded the safety bound")
    else ok (content ++ chunk)

unfoldable pub is_empty : Bytes → Bool
is_empty [] = true
is_empty (b ∷ bs) = false

module _ (zlib : Zlib) where
  -- `decoder.decode` and the test of the trailing input.
  unfoldable pub decode : zlib.State → Bytes → ℕ → Result (zlib.State × Bytes)
  unfolding is_empty
  decode decoder pending max_output = elim (zlib.decompress decoder pending max_output) [
    | none ↦ err (permanent_source_error "could not be decoded")
    | some (after, chunk) ↦
        if is_empty (zlib.unused_data after)
        then ok (after, chunk)
        else err (permanent_source_error "could not be decoded")
  ]

  -- The loop of `_decode_bounded`: it goes on with what the decoder has not consumed, and where the
  -- output was as long as it may be.
  unfoldable pub decode_bounded : ℕ → Bytes → zlib.State → Bytes → Result (Bytes × zlib.State)
  decode_bounded zero content decoder pending = err out_of_fuel
  decode_bounded (suc fuel) content decoder pending =
      let max_output =
        min decode_output_chunk_bytes ((max_http_response_bytes - length content) + 1) in
      decode decoder pending max_output >>= λ (after, chunk).
      append_bounded content chunk >>= λ extended.
      elim (not (is_empty (zlib.unconsumed_tail after)) || (length chunk =? max_output)) [
        | true ↦ decode_bounded fuel extended after (zlib.unconsumed_tail after)
        | false ↦ ok (extended, after)
      ]

  -- The variables of the loop over the raw chunks.
  pub record Reader : Type 0 where
    pub content : Bytes
    pub encoded_bytes : ℕ
    pub deflate_prefix : Bytes
    pub decoder : Option zlib.State

  -- `_decode_bounded(content, decoder, raw_chunk)` on the reader.
  unfoldable pub decode_into : ℕ → Reader → ℕ → zlib.State → Bytes → Result Reader
  decode_into fuel r encoded decoder chunk =
      decode_bounded fuel r.content decoder chunk >>= λ (content, after). ok (record {
        content = content;
        encoded_bytes = encoded;
        deflate_prefix = [];
        decoder = some after;
      })

  -- A deflate stream waits for two bytes, which tell its format.
  unfoldable pub start_deflate : ℕ → Reader → ℕ → Bytes → Result Reader
  start_deflate fuel r encoded (cmf ∷ (flg ∷ rest)) =
      decode_into fuel r encoded
        (zlib.decompressobj (if is_zlib_wrapped_deflate cmf flg then zlib_bits else raw_bits))
        (cmf ∷ flg ∷ rest)
  start_deflate fuel r encoded prefix = ok (record {
    content = r.content;
    encoded_bytes = encoded;
    deflate_prefix = prefix;
    decoder = none;
  })

  unfoldable pub read_chunk : ℕ → String → Bytes → Reader → Result Reader
  read_chunk fuel encoding chunk r =
      let encoded = r.encoded_bytes + length chunk in
      if ltb max_http_response_bytes encoded
      then err (permanent_source_error "response exceeded the safety bound")
      else elim r.decoder [
        | some decoder ↦ decode_into fuel r encoded decoder chunk
        | none ↦
            if encoding == "deflate"
            then start_deflate fuel r encoded (r.deflate_prefix ++ chunk)
            else append_bounded r.content chunk >>= λ content. ok (record {
              content = content;
              encoded_bytes = encoded;
              deflate_prefix = r.deflate_prefix;
              decoder = none;
            })
      ]

  unfoldable pub read_chunks : ℕ → String → List Bytes → Bool → Reader → Result Reader
  read_chunks fuel encoding [] broken r = raise_if broken request_error >> ok r
  read_chunks fuel encoding (chunk ∷ chunks) broken r =
      read_chunk fuel encoding chunk r >>= λ next. read_chunks fuel encoding chunks broken next

  -- The tests after the loop.
  unfoldable pub finish_reading : String → Reader → Result Bytes
  finish_reading encoding r = elim r.decoder [
    | some decoder ↦
        if not (zlib.eof decoder) || not (is_empty (zlib.unused_data decoder))
        then err (permanent_source_error "could not be decoded")
        else ok r.content
    | none ↦
        if encoding == "deflate"
        then err (permanent_source_error "could not be decoded")
        else ok r.content
  ]

  unfoldable pub exceeds : Option ℕ → Bool
  exceeds none = false
  exceeds (some n) = ltb max_http_response_bytes n

  -- The branch of a response that is not consumed.
  unfoldable pub read_stream : ℕ → String → Response → Result Bytes
  read_stream fuel encoding response =
      read_chunks fuel encoding response.raw_chunks response.is_broken (record {
        content = [];
        encoded_bytes = 0;
        deflate_prefix = [];
        decoder = if encoding == "gzip" then some (zlib.decompressobj gzip_bits) else none;
      })
      >>= finish_reading encoding

  -- A decoded response is given by its content.
  unfoldable pub read_bounded_response : ℕ → Response → Result Bytes
  read_bounded_response fuel response =
      raise_if (exceeds response.declared_length)
        (permanent_source_error "response exceeded the safety bound")
      >> content_encoding response
      >>= λ encoding.
          if response.is_stream_consumed
          then append_bounded [] response.content
          else read_stream fuel encoding response
