-- ===== src/Vault/Safety/Coverage.antt =====
-- What the loop of the reader consumes and hashes, and its fuel.
use mathlib.Core.List.{append_assoc, append-nil}
use work_trace.Prelude.{
  ℕ, zero, suc, ◌+◌, ◌-◌, ◌<◌, ◌≡◌, ◌≢◌, refl, ap, ◌∙◌, String, Bool, false, Option, none, some, [],
  ◌∷◌, ◌++◌, arith, length, length-append, length-take-le, take, drop, inl, inr, Option-cases,
}
use work_trace.Errors.{ok, err, out_of_fuel, Result-cases}
use work_trace.Vault.Bytes.{Bytes, unpack32, read_loop, read_exact, read_exact-fuel, length-drop}
use work_trace.Vault.Stream.{Crypto}
use work_trace.Vault.Descriptor.{VaultDescriptor, Codec}
use work_trace.Vault.Write.{VaultObjectResult, header_bytes}
use work_trace.Vault.Read.{
  Opened, open_descriptor, start_pull, next_length, after_tag, pull_record, pull_loop, check_totals,
  process,
}
use work_trace.Vault.RoundTrip.Records.{take-append-drop}
use work_trace.Vault.Safety.Release.{process-eq-ok}

read_loop-split :
    (fuel n : ℕ) (source chunks : Bytes) {xs rest : Bytes}
    → read_loop fuel n source chunks ≡ ok (xs, rest)
    → (xs ++ rest ≡ chunks ++ source) × (length xs ≡ length chunks + n)
unfolding read_loop
read_loop-split zero n source chunks h = absurd (ground arith)
read_loop-split (suc fuel) zero source chunks h = (ground arith, ground arith)
read_loop-split (suc fuel) (suc n) [] chunks h = absurd (ground arith)
read_loop-split (suc fuel) (suc n) (b ∷ source) chunks h =
    let part = take (suc n) (b ∷ source) in
    let (e, l) =
      read_loop-split fuel (suc n - length part) (drop (suc n) (b ∷ source)) (chunks ++ part) h in
    (
      e ∙ append_assoc chunks part (drop (suc n) (b ∷ source)) ∙ rw take-append-drop,
      omega (arith, l, length-append chunks part, length-take-le n source),
    )

read_exact-split :
    (n : ℕ) (source : Bytes) {xs rest : Bytes}
    → read_exact n source ≡ ok (xs, rest)
    → (xs ++ rest ≡ source) × (length xs ≡ n)
unfolding read_exact
read_exact-split n source h =
    let (e, l) = read_loop-split (suc n) n source [] h in (e, omega (arith, l))

next_length-end :
    (saw : Bool) (source : Bytes) → next_length saw (take 4 source) ≡ ok none → source ≡ []
unfolding next_length
next_length-end saw [] h = refl
next_length-end saw (b ∷ source) h = absurd (ground arith)

next_length-four :
    (saw : Bool) (xs : Bytes) (n : ℕ) → next_length saw xs ≡ ok (some n) → length xs ≡ 4
unfolding next_length
next_length-four saw [] n h = absurd (ground arith)
next_length-four saw (b ∷ bs) n h = ground arith

next_length-fuel : (saw : Bool) (xs : Bytes) → next_length saw xs ≢ err out_of_fuel
unfolding next_length
next_length-fuel saw [] = ground arith
next_length-fuel saw (b ∷ bs) = ground arith

module _ (c : Crypto) (extra : Bytes) where
  pull_record-fuel :
      (state : c.State) (source : Bytes) (n : ℕ)
      → pull_record c state extra source n ≢ err out_of_fuel
  unfolding pull_record after_tag
  pull_record-fuel state source n = ground (arith, read_exact-fuel n source)

  pull_record-split :
      (state : c.State) (source : Bytes) (n : ℕ) {ciphertext rest text : Bytes} {saw : Bool}
      {state' : c.State}
      → pull_record c state extra source n ≡ ok ((ciphertext, rest), (text, saw), state')
      → ciphertext ++ rest ≡ source
  unfolding pull_record
  pull_record-split state source n h = elim (Result-cases (read_exact n source)) [
    | inr (e, r) ↦ absurd (ground (arith, r))
    | inl ((xs, ys), r) ↦ elim (Option-cases (c.pull state xs extra)) [
      | inl p ↦ absurd (ground (arith, r, p))
      | inr (((text, tag), state'), p) ↦ elim (Result-cases (after_tag tag)) [
        | inr (e, t) ↦ absurd (ground (arith, r, p, t))
        | inl (saw, t) ↦ ground (arith, r, p, t, read_exact-split n source r)
      ]
    ]
  ]

  pull_loop-split :
      (fuel : ℕ) (state : c.State) (source file plain : Bytes) (saw : Bool) {file' rest : Bytes}
      → (pull_loop c fuel extra state source file plain saw).outcome ≡ ok (file', rest)
      → (file' ≡ file ++ source) × (rest ≡ [])
  unfolding pull_loop
  pull_loop-split zero state source file plain saw h = absurd (ground arith)
  pull_loop-split (suc fuel) state source file plain saw {file'} {rest} h =
      elim (Result-cases (next_length saw (take 4 source))) [
        | inr (e, n) ↦ absurd (ground (arith, n))
        | inl (o, n) ↦ elim (Option-cases o) [
          | inl z ↦
              let empty : source ≡ [] = next_length-end saw source (rw z at n) in
              let same : (file' ≡ file) × (rest ≡ source) =
                (ground (arith, n, z), ground (arith, n, z)) in
              (same.0 ∙ rw (empty, append-nil), same.1 ∙ empty)
          | inr (size, z) ↦ elim (Result-cases (pull_record c state extra (drop 4 source) size)) [
            | inr (e, r) ↦ absurd (ground (arith, n, z, r))
            | inl (((ciphertext, more), (text, saw'), state'), r) ↦
                let file2 = file ++ take 4 source ++ ciphertext in
                let sub : (pull_loop c fuel extra state' more file2 (plain ++ text) saw').outcome
                    ≡ ok (file', rest) =
                  ground (arith, n, z, r, h) in
                let (e, l) = pull_loop-split fuel state' more file2 (plain ++ text) saw' sub in
                let whole : take 4 source ++ (ciphertext ++ more) ≡ source =
                  rw (pull_record-split state (drop 4 source) size r) (take-append-drop 4 source) in
                (e ∙ simp append_assoc (ap (λ t. file ++ t) whole), l)
          ]
        ]
      ]

  -- Each round takes four bytes at least, so the loop ends with fuel above the length of its source.
  pull_loop-fuel :
      (fuel : ℕ) (state : c.State) (source file plain : Bytes) (saw : Bool)
      → length source < fuel
      → (pull_loop c fuel extra state source file plain saw).outcome ≢ err out_of_fuel
  unfolding pull_loop
  pull_loop-fuel zero state source file plain saw l = elim l [ ]
  pull_loop-fuel (suc fuel) state source file plain saw l =
      elim (Result-cases (next_length saw (take 4 source))) [
        | inr (e, n) ↦ ground (arith, n, next_length-fuel saw (take 4 source))
        | inl (o, n) ↦ elim (Option-cases o) [
          | inl z ↦ ground (arith, n, z)
          | inr (size, z) ↦ elim (Result-cases (pull_record c state extra (drop 4 source) size)) [
            | inr (e, r) ↦ ground (arith, n, z, r, pull_record-fuel state (drop 4 source) size)
            | inl (((ciphertext, more), (text, saw'), state'), r) ↦ ground (
              arith,
              n,
              z,
              r,
              pull_loop-fuel fuel state' more (file ++ take 4 source ++ ciphertext) (plain ++ text)
                  saw',
              next_length-four saw (take 4 source) size (rw z at n),
              length-drop 4 source,
              length-append ciphertext more,
              ap length (pull_record-split state (drop 4 source) size r),
            )
          ]
        ]
      ]

open_descriptor-split :
    (codec : Codec) (source : Bytes) {o : Opened}
    → open_descriptor codec source ≡ ok o
    → o.consumed ++ o.rest ≡ source
unfolding open_descriptor
open_descriptor-split codec source {o} h = elim (Result-cases (read_exact 9 source)) [
  | inr (e, r) ↦ absurd (ground (arith, r))
  | inl ((prefix, source'), r) ↦
      elim (Result-cases (read_exact (unpack32 (drop 5 prefix)) source')) [
        | inr (e, q) ↦ absurd (ground (arith, r, q))
        | inl ((raw, rest), q) ↦
            let consumed : o.consumed ≡ prefix ++ raw = ground (arith, r, q) in
            let left : o.rest ≡ rest = ground (arith, r, q) in
            rw (consumed, left)
              (append_assoc prefix raw rest
                ∙ rw (read_exact-split (unpack32 (drop 5 prefix)) source' q).0
                    (read_exact-split 9 source r).0)
      ]
]

start_pull-split :
    (c : Crypto) (o : Opened) (key : Bytes) {b : c.State} {file rest : Bytes}
    → start_pull c o key ≡ ok (b, file, rest)
    → file ++ rest ≡ o.consumed ++ o.rest
unfolding start_pull
start_pull-split c o key {b} {file} {rest} h =
    elim (Result-cases (read_exact header_bytes o.rest)) [
      | inr (e, r) ↦ absurd (ground (arith, r))
      | inl ((header, more), r) ↦
          let same : (file ≡ o.consumed ++ header) × (rest ≡ more) =
            (ground (arith, r), ground (arith, r)) in
          rw (same.0, same.1)
            (append_assoc o.consumed header more ∙ rw (read_exact-split header_bytes o.rest r).0)
    ]

check_totals-hash :
    (c : Crypto) (d : VaultDescriptor) (plain : Bytes) (expected : Option String)
    (file rest : Bytes) {r : VaultObjectResult}
    → check_totals c d plain expected (file, rest) ≡ ok r
    → r.ciphertext_sha256 ≡ c.sha256 file
unfolding check_totals
check_totals-hash c d plain expected file rest h = ground arith

-- The hash in the result of a call that returns is that of the whole file, byte for byte.
pub process-hashes_all :
    (c : Crypto) (codec : Codec) (source key : Bytes) (has_sink : Bool) (expected : Option String)
    (stage : Bool) {out : Bytes} {r : VaultObjectResult}
    → process c codec source key has_sink expected stage ≡ (out, ok r)
    → r.ciphertext_sha256 ≡ c.sha256 source
process-hashes_all c codec source key has_sink expected stage h =
    let p = process-eq-ok c codec source key has_sink expected stage h in
    let (file', rest') = p.totals in
    let (whole, _) =
      pull_loop-split c p.opened.raw (suc (length p.rest)) p.state p.rest p.file [] false p.ends in
    check_totals-hash c p.opened.descriptor _ expected file' rest' p.checks
    ∙ ap c.sha256 (
        whole
        ∙ start_pull-split c p.opened key p.starts
        ∙ open_descriptor-split codec source p.opens)

-- The reader's loop ends for every source and key: the model never runs out of fuel.
pub pull_loop_ends :
    (c : Crypto) (extra : Bytes) (state : c.State) (source file plain : Bytes) (saw : Bool)
    → (pull_loop c (suc (length source)) extra state source file plain saw).outcome
      ≢ err out_of_fuel
pull_loop_ends c extra state source file plain saw =
    pull_loop-fuel c extra (suc (length source)) state source file plain saw (omega arith)
