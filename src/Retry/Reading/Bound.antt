-- ===== src/Retry/Reading/Bound.antt =====
-- `_read_bounded_response`: the length of what it returns.
use work_trace.Prelude.{
  ℕ, zero, suc, ◌+◌, ◌-◌, ◌≤◌, ◌=?◌, min, String, Bool, true, false, not, ◌||◌, ◌≡◌, List, [], ◌∷◌,
  ◌++◌, length, length-append, arith, Bool-cases, Option-cases, inl, inr,
}
use work_trace.Errors.{ok, >>=-eq-ok, ◌>>◌, raise_if, Result-cases}
use work_trace.Retry.Reading.{
  Bytes, Response, Zlib, append_bounded, decode, decode_bounded, Reader, decode_into, exceeds,
  start_deflate, read_chunk, read_chunks, finish_reading, content_encoding, read_stream,
  read_bounded_response, is_empty,
}

abbrev pub IsBounded : Bytes → Type 0
IsBounded content = length content ≤ 10000000

pub append_bounded-IsBounded :
    (content chunk : Bytes) {extended : Bytes}
    → append_bounded content chunk ≡ ok extended
    → IsBounded extended
unfolding append_bounded
append_bounded-IsBounded content chunk h = ground (arith, h, length-append content chunk)

module _ (zlib : Zlib) where
  decode_bounded-IsBounded :
      (fuel : ℕ) (content : Bytes) (decoder : zlib.State) (pending : Bytes)
      {found : Bytes × zlib.State}
      → decode_bounded zlib fuel content decoder pending ≡ ok found
      → IsBounded found.0
  unfolding decode_bounded
  decode_bounded-IsBounded zero content decoder pending h = cc
  decode_bounded-IsBounded (suc fuel) content decoder pending {found = found} h =
      let max_output = min 65536 ((10000000 - length content) + 1) in
      let ((after, chunk), decoded, h₁) = >>=-eq-ok (decode zlib decoder pending max_output) _ h in
      let (extended, appended, h₂) = >>=-eq-ok (append_bounded content chunk) _ h₁ in
      let bounded = append_bounded-IsBounded content chunk appended in
      let rest = zlib.unconsumed_tail after in
      elim (Bool-cases (not (is_empty rest) || length chunk =? max_output)) [
        | inl e ↦
            decode_bounded-IsBounded fuel extended after rest {found = found}
              (ground (arith, e, h₂))
        | inr e ↦ ground (arith, e, h₂, bounded)
      ]

  decode_into-IsBounded :
      (fuel : ℕ) (r : Reader zlib) (encoded : ℕ) (decoder : zlib.State) (chunk : Bytes)
      {next : Reader zlib}
      → decode_into zlib fuel r encoded decoder chunk ≡ ok next
      → IsBounded next.content
  unfolding decode_into
  decode_into-IsBounded fuel r encoded decoder chunk h =
      let (found, decoded, h₁) = >>=-eq-ok (decode_bounded zlib fuel r.content decoder chunk) _ h in
      ground (arith, h₁, decode_bounded-IsBounded fuel r.content decoder chunk decoded)

  start_deflate-IsBounded :
      (fuel : ℕ) (r : Reader zlib) (encoded : ℕ) (prefix : Bytes) {next : Reader zlib}
      → IsBounded r.content
      → start_deflate zlib fuel r encoded prefix ≡ ok next
      → IsBounded next.content
  unfolding start_deflate
  start_deflate-IsBounded fuel r encoded [] b h = ground (arith, b, h)
  start_deflate-IsBounded fuel r encoded (x ∷ []) b h = ground (arith, b, h)
  start_deflate-IsBounded fuel r encoded (cmf ∷ (flg ∷ rest)) b h =
      decode_into-IsBounded fuel r encoded _ _ h

  pub read_chunk-IsBounded :
      (fuel : ℕ) (encoding : String) (chunk : Bytes) (r : Reader zlib) {next : Reader zlib}
      → IsBounded r.content
      → read_chunk zlib fuel encoding chunk r ≡ ok next
      → IsBounded next.content
  unfolding read_chunk
  read_chunk-IsBounded fuel encoding chunk r {next = next} b h =
      let encoded = r.encoded_bytes + length chunk in
      elim (Option-cases r.decoder) [
        | inr (decoder, e) ↦
            ground (arith, h, e, decode_into-IsBounded fuel r encoded decoder chunk {next = next})
        | inl e ↦ elim (Result-cases (append_bounded r.content chunk)) [
          | inl (content, a) ↦ ground (
            arith,
            h,
            e,
            a,
            append_bounded-IsBounded r.content chunk a,
            start_deflate-IsBounded fuel r encoded (r.deflate_prefix ++ chunk) {next = next} b,
          )
          | inr (error, a) ↦ ground (
            arith,
            h,
            e,
            a,
            start_deflate-IsBounded fuel r encoded (r.deflate_prefix ++ chunk) {next = next} b,
          )
        ]
      ]

  read_chunks-IsBounded :
      (fuel : ℕ) (encoding : String) (chunks : List Bytes) (broken : Bool) (r : Reader zlib)
      {last : Reader zlib}
      → IsBounded r.content
      → read_chunks zlib fuel encoding chunks broken r ≡ ok last
      → IsBounded last.content
  unfolding read_chunks
  read_chunks-IsBounded fuel encoding [] true r b h = cc
  read_chunks-IsBounded fuel encoding [] false r b h = ground (arith, b, h)
  read_chunks-IsBounded fuel encoding (chunk ∷ chunks) broken r b h =
      let (next, read, h₁) = >>=-eq-ok (read_chunk zlib fuel encoding chunk r) _ h in
      read_chunks-IsBounded fuel encoding chunks broken next
        (read_chunk-IsBounded fuel encoding chunk r b read) h₁

  finish_reading-content :
      (encoding : String) (r : Reader zlib) {content : Bytes}
      → finish_reading zlib encoding r ≡ ok content
      → content ≡ r.content
  unfolding finish_reading
  finish_reading-content encoding r h = ground (arith, h)

read_stream-IsBounded :
    (zlib : Zlib) (fuel : ℕ) (encoding : String) (response : Response) {content : Bytes}
    → read_stream zlib fuel encoding response ≡ ok content
    → IsBounded content
unfolding read_stream
read_stream-IsBounded zlib fuel encoding response h =
    let (last, read, h₁) =
      >>=-eq-ok (read_chunks zlib fuel encoding response.raw_chunks response.is_broken _)
        (finish_reading zlib encoding) h in
    ground (
      arith,
      finish_reading-content zlib encoding last h₁,
      read_chunks-IsBounded zlib fuel encoding response.raw_chunks response.is_broken _
          (omega arith) read,
    )

-- Whatever the decoder does, in whatever chunks the response comes and whatever length it declares,
-- the content that is returned has at most 10,000,000 bytes.
pub read_bounded_response-IsBounded :
    (zlib : Zlib) (fuel : ℕ) (response : Response) {content : Bytes}
    → read_bounded_response zlib fuel response ≡ ok content
    → length content ≤ 10000000
unfolding read_bounded_response
read_bounded_response-IsBounded zlib fuel response {content = content} h =
    let (encoding, encoded, h₁) =
      >>=-eq-ok (raise_if (exceeds zlib response.declared_length) _ >> content_encoding response) _
        h in
    elim (Bool-cases response.is_stream_consumed) [
      | inl e ↦
          ground (arith, e, h₁, append_bounded-IsBounded [] response.content {extended = content})
      | inr e ↦ read_stream-IsBounded zlib fuel encoding response (ground (arith, e, h₁))
    ]
