-- ===== src/Retry/Reading/Ends.antt =====
-- `_read_bounded_response`: the fuel of its decoding loops, under the documented limit of a decoder.
use work_trace.Prelude.{
  ℕ, zero, suc, ◌+◌, ◌-◌, ◌≤◌, ◌=?◌, min, String, Bool, true, false, not, ◌||◌, ◌≡◌, ◌≢◌, some,
  List, [], ◌∷◌, ◌++◌, length, length-append, arith, Bool-cases, Option-cases, inl, inr,
}
use work_trace.Errors.{ok, err, >>=-eq-err, ◌>>◌, raise_if, out_of_fuel}
use work_trace.Retry.Reading.{
  Bytes, Response, Zlib, append_bounded, decode, decode_bounded, Reader, decode_into, exceeds,
  start_deflate, read_chunk, read_chunks, finish_reading, content_encoding, read_stream,
  read_bounded_response, is_empty,
}
use work_trace.Retry.Reading.Bound.{IsBounded, append_bounded-IsBounded, read_chunk-IsBounded}

-- `unconsumed_tail` is input that was not consumed because the output reached its limit.
abbrev pub IsLimited : Zlib → Type 0
IsLimited zlib =
    (decoder : zlib.State) (input : Bytes) (limit : ℕ) (after : zlib.State) (chunk : Bytes)
    → zlib.decompress decoder input limit ≡ some (after, chunk)
    → is_empty (zlib.unconsumed_tail after) ≡ false
    → length chunk ≡ limit

append_bounded-length :
    (content chunk : Bytes) {extended : Bytes}
    → append_bounded content chunk ≡ ok extended
    → length extended ≡ length content + length chunk
unfolding append_bounded
append_bounded-length content chunk h = ground (arith, h, length-append content chunk)

append_bounded-ends : (content chunk : Bytes) → append_bounded content chunk ≢ err out_of_fuel
unfolding append_bounded
append_bounded-ends content chunk h = ground (arith, h)

module _ (zlib : Zlib) (limited : IsLimited zlib) where
  decode-ends :
      (d : zlib.State) (input : Bytes) (limit : ℕ) → decode zlib d input limit ≢ err out_of_fuel
  unfolding decode
  decode-ends d input limit h = ground (arith, h)

  decode-full :
      (d : zlib.State) (input : Bytes) (limit : ℕ) (after : zlib.State) (chunk : Bytes)
      → decode zlib d input limit ≡ ok (after, chunk)
      → (not (is_empty (zlib.unconsumed_tail after)) || length chunk =? limit) ≡ true
      → length chunk ≡ limit
  unfolding decode
  decode-full d input limit after chunk h e =
      ground (arith, h, e, limited d input limit after chunk)

  decode_bounded-ends :
      (fuel : ℕ) (content : Bytes) (decoder : zlib.State) (pending : Bytes)
      → IsBounded content
      → 10000001 ≤ fuel + length content
      → decode_bounded zlib fuel content decoder pending ≢ err out_of_fuel
  unfolding decode_bounded
  decode_bounded-ends zero content decoder pending b f h = omega (arith, b, f)
  decode_bounded-ends (suc fuel) content decoder pending b f h =
      let max_output = min 65536 ((10000000 - length content) + 1) in
      elim (>>=-eq-err (decode zlib decoder pending max_output) _ h) [
        | inl e ↦ decode-ends decoder pending max_output e
        | inr ((after, chunk), decoded, h₁) ↦
            elim (>>=-eq-err (append_bounded content chunk) _ h₁) [
              | inl e ↦ append_bounded-ends content chunk e
              | inr (extended, appended, h₂) ↦
                  let rest = zlib.unconsumed_tail after in
                  elim (Bool-cases (not (is_empty rest) || length chunk =? max_output)) [
                    | inl e ↦
                        decode_bounded-ends fuel extended after rest
                          (append_bounded-IsBounded content chunk appended)
                          (omega (
                            arith,
                            f,
                            append_bounded-length content chunk appended,
                            decode-full decoder pending max_output after chunk decoded e,
                          ))
                          (ground (arith, e, h₂))
                    | inr e ↦ ground (arith, e, h₂)
                  ]
            ]
      ]

  module _ (fuel : ℕ) (enough : 10000001 ≤ fuel) where
    decode_into-ends :
        (r : Reader zlib) (encoded : ℕ) (decoder : zlib.State) (chunk : Bytes)
        → IsBounded r.content
        → decode_into zlib fuel r encoded decoder chunk ≢ err out_of_fuel
    unfolding decode_into
    decode_into-ends r encoded decoder chunk b h =
        elim (>>=-eq-err (decode_bounded zlib fuel r.content decoder chunk) _ h) [
          | inl e ↦ decode_bounded-ends fuel r.content decoder chunk b (omega (arith, enough)) e
          | inr (found, e, k) ↦ ground (arith, k)
        ]

    start_deflate-ends :
        (r : Reader zlib) (encoded : ℕ) (prefix : Bytes)
        → IsBounded r.content
        → start_deflate zlib fuel r encoded prefix ≢ err out_of_fuel
    unfolding start_deflate
    start_deflate-ends r encoded [] b h = ground (arith, h)
    start_deflate-ends r encoded (x ∷ []) b h = ground (arith, h)
    start_deflate-ends r encoded (cmf ∷ (flg ∷ rest)) b h = decode_into-ends r encoded _ _ b h

    read_chunk-ends :
        (encoding : String) (chunk : Bytes) (r : Reader zlib)
        → IsBounded r.content
        → read_chunk zlib fuel encoding chunk r ≢ err out_of_fuel
    unfolding read_chunk
    read_chunk-ends encoding chunk r b h =
        let encoded = r.encoded_bytes + length chunk in
        let deflated = start_deflate-ends r encoded (r.deflate_prefix ++ chunk) b in
        elim (Option-cases r.decoder) [
          | inr (decoder, e) ↦ ground (arith, h, e, decode_into-ends r encoded decoder chunk b)
          | inl e ↦ ground (arith, h, e, deflated, append_bounded-ends r.content chunk)
        ]

    read_chunks-ends :
        (encoding : String) (chunks : List Bytes) (broken : Bool) (r : Reader zlib)
        → IsBounded r.content
        → read_chunks zlib fuel encoding chunks broken r ≢ err out_of_fuel
    unfolding read_chunks
    read_chunks-ends encoding [] true r b h = ground (arith, h)
    read_chunks-ends encoding [] false r b h = ground (arith, h)
    read_chunks-ends encoding (chunk ∷ chunks) broken r b h =
        elim (>>=-eq-err (read_chunk zlib fuel encoding chunk r) _ h) [
          | inl e ↦ read_chunk-ends encoding chunk r b e
          | inr (next, read, h₁) ↦
              read_chunks-ends encoding chunks broken next
                (read_chunk-IsBounded zlib fuel encoding chunk r b read) h₁
        ]

    finish_reading-ends :
        (encoding : String) (r : Reader zlib) → finish_reading zlib encoding r ≢ err out_of_fuel
    unfolding finish_reading
    finish_reading-ends encoding r h = ground (arith, h)

    read_stream-ends :
        (encoding : String) (r : Response) → read_stream zlib fuel encoding r ≢ err out_of_fuel
    unfolding read_stream
    read_stream-ends encoding r h =
        elim (>>=-eq-err (read_chunks zlib fuel encoding r.raw_chunks r.is_broken _)
          (finish_reading zlib encoding) h) [
            | inl e ↦ read_chunks-ends encoding r.raw_chunks r.is_broken _ (omega arith) e
            | inr (last, read, h₁) ↦ finish_reading-ends encoding last h₁
          ]

content_encoding-ends : (r : Response) → content_encoding r ≢ err out_of_fuel
unfolding content_encoding
content_encoding-ends r h = ground (arith, h)

-- With a fuel of more than the 10,000,000 bytes of the bound for each decoding loop, reading a
-- response ends, whatever its chunks, where the decoder leaves input over only at its output limit.
pub read_bounded_response-ends :
    (zlib : Zlib) (fuel : ℕ) (response : Response)
    → IsLimited zlib
    → 10000001 ≤ fuel
    → read_bounded_response zlib fuel response ≢ err out_of_fuel
unfolding read_bounded_response
read_bounded_response-ends zlib fuel response limited enough h =
    elim (>>=-eq-err
      (raise_if (exceeds zlib response.declared_length) _ >> content_encoding response) _ h) [
        | inl e ↦ ground (arith, e, content_encoding-ends response)
        | inr (encoding, encoded, h₁) ↦ ground (
          arith,
          h₁,
          append_bounded-ends [] response.content,
          read_stream-ends zlib limited fuel enough encoding response,
        )
      ]
