-- ===== src/Vault/Bytes.antt =====
-- Byte strings, the big-endian length prefix of a record, and reads from a file or a `BytesIO`, whose
-- `read(n)` returns n bytes unless the end comes first.
use work_trace.Prelude.{
  ℕ, zero, suc, ◌+◌, ◌-◌, ◌*◌, ◌/◌, ◌%◌, ◌<◌, ◌≡◌, ◌≢◌, refl, List, [], ◌∷◌, ◌++◌, arith, length,
  take, drop,
}
use work_trace.Errors.{Result, ok, err, vault_integrity_error, out_of_fuel}

abbrev pub Bytes : Type 0
Bytes = List ℕ

-- `struct.pack(">I", n)`
unfoldable pub pack32 : ℕ → Bytes
pack32 n = (n / 16777216 % 256) ∷ (n / 65536 % 256) ∷ (n / 256 % 256) ∷ (n % 256) ∷ []

-- `struct.unpack(">I", data)[0]` of four bytes.
unfoldable pub unpack32 : Bytes → ℕ
unpack32 (a ∷ b ∷ c ∷ d ∷ _) = ((a * 256 + b) * 256 + c) * 256 + d
unpack32 _ = 0

pub unpack32-pack32 : (n : ℕ) → n < 4294967296 → unpack32 (pack32 n) ≡ n
unfolding unpack32 pack32
unpack32-pack32 n h = omega arith

pub length-pack32 : (n : ℕ) → length (pack32 n) ≡ 4
unfolding pack32
length-pack32 n = refl

pub take-append : (xs ys : Bytes) → take (length xs) (xs ++ ys) ≡ xs
take-append [] ys = refl
take-append (x ∷ xs) ys = rw (take-append xs ys)

pub drop-append : (xs ys : Bytes) → drop (length xs) (xs ++ ys) ≡ ys
drop-append [] ys = refl
drop-append (x ∷ xs) ys = drop-append xs ys

-- The loop of `_read_exact`: the bytes read, and the rest of the source.
unfoldable pub read_loop : ℕ → ℕ → Bytes → Bytes → Result (Bytes × Bytes)
read_loop zero remaining source chunks = err out_of_fuel
read_loop (suc fuel) zero source chunks = ok (chunks, source)
read_loop (suc fuel) (suc n) [] chunks = err (vault_integrity_error "truncated")
read_loop (suc fuel) (suc n) (b ∷ source) chunks =
    let part = take (suc n) (b ∷ source) in
    read_loop fuel (suc n - length part) (drop (suc n) (b ∷ source)) (chunks ++ part)

-- `_read_exact(source, length, what)`
unfoldable pub read_exact : ℕ → Bytes → Result (Bytes × Bytes)
unfolding read_loop
read_exact n source = read_loop (suc n) n source []

pub length-drop : (n : ℕ) (xs : Bytes) → length (drop n xs) ≡ length xs - n
length-drop zero xs = omega arith
length-drop (suc n) [] = omega arith
length-drop (suc n) (x ∷ xs) = omega (arith, length-drop n xs)

-- A source with the bytes gives them, and what follows them is left.
pub read_exact-append : (xs ys : Bytes) → read_exact (length xs) (xs ++ ys) ≡ ok (xs, ys)
unfolding read_exact
read_exact-append [] ys = refl
read_exact-append (x ∷ xs) ys = ground (arith, take-append xs ys, drop-append xs ys)

-- `read_exact` never stops for want of fuel: each round reads at least one byte.
read_loop-fuel :
    (fuel remaining : ℕ) (source chunks : Bytes)
    → remaining < fuel
    → read_loop fuel remaining source chunks ≢ err out_of_fuel
unfolding read_loop
read_loop-fuel zero remaining source chunks h = elim h [ ]
read_loop-fuel (suc fuel) zero source chunks h = cc
read_loop-fuel (suc fuel) (suc n) [] chunks h = cc
read_loop-fuel (suc fuel) (suc n) (b ∷ source) chunks h =
    read_loop-fuel fuel (suc n - length (take (suc n) (b ∷ source))) (drop (suc n) (b ∷ source))
      (chunks ++ take (suc n) (b ∷ source)) (omega arith)

pub read_exact-fuel : (n : ℕ) (source : Bytes) → read_exact n source ≢ err out_of_fuel
unfolding read_exact
read_exact-fuel n source = read_loop-fuel (suc n) n source [] (omega arith)
