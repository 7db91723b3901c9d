-- ===== src/Vault/RoundTrip/Loops.antt =====
-- The records of a whole source, through the loops of the writer and of the reader.
use mathlib.Core.List.{append_assoc, append-nil}
use work_trace.Prelude.{
  ℕ, zero, suc, ◌≤◌, ◌<◌, ◌≡◌, refl, ◌∙◌, [], ◌∷◌, ◌++◌, arith, length, length-take-le, take, drop,
}
use work_trace.Json.{pos}
use work_trace.Errors.{ok, ◌>>=◌, >>=-eq-ok}
use work_trace.Vault.Bytes.{Bytes, pack32, length-drop}
use work_trace.Vault.Descriptor.{default_chunk_size}
use work_trace.Vault.Stream.{Tag, message, final, Crypto, IsSound}
use work_trace.Vault.Write.{Written, read_chunk, is_empty, write_record, note_record, push_loop}
use work_trace.Vault.RoundTrip.Records.{
  IsReadable, IsReadable-last, IsReadable-more, take-append-drop, write_record-eq-ok,
}

-- From the state `a` the writer added `tail` to the file and `text` to the plaintext, and a reader in
-- the paired state gets `text` back from `tail`.
pub record Sealed (c : Crypto) (s : IsSound c) (extra : Bytes) (a : c.State) (text : Bytes)
    (w w' : Written) : Type 0 where
  pub tail : Bytes
  pub file : w'.file ≡ w.file ++ tail
  pub plain : w'.plain ≡ w.plain ++ text
  pub readable : (b : c.State) → s.Paired a b → IsReadable c extra b tail text

module _ (c : Crypto) (s : IsSound c) (extra : Bytes) where
  Sealed-last :
      (a : c.State) (current : Bytes) (w w' : Written)
      → (write_record w.file (c.push a current extra final).0 >>= λ file.
          ok (note_record c file current w))
        ≡ ok w'
      → Sealed c s extra a current w w'
  unfolding note_record
  Sealed-last a current w w' h =
      let cipher = (c.push a current extra final).0 in
      let (file', e, e') =
        >>=-eq-ok (write_record w.file cipher) (λ file. ok (note_record c file current w)) h in
      let (lo, hi, f) = write_record-eq-ok w.file cipher e in
      record {
        tail = pack32 (length cipher) ++ (cipher ++ []);
        file =
            ground (
              arith,
              f,
              e',
              append_assoc w.file (pack32 (length cipher)) cipher,
              append-nil cipher,
            );
        plain = ground (arith, e');
        readable = λ b p. IsReadable-last c s extra a b current p hi;
      }

  Sealed-more :
      (a : c.State) (current rest : Bytes) (w w' : Written) (file : Bytes)
      → write_record w.file (c.push a current extra message).0 ≡ ok file
      → Sealed c s extra (c.push a current extra message).1 rest (note_record c file current w) w'
      → Sealed c s extra a (current ++ rest) w w'
  unfolding note_record
  Sealed-more a current rest w w' file e more =
      let cipher = (c.push a current extra message).0 in
      let (lo, hi, f) = write_record-eq-ok w.file cipher e in
      record {
        tail = pack32 (length cipher) ++ (cipher ++ more.tail);
        file = more.file ∙ rw f (simp append_assoc);
        plain = more.plain ∙ append_assoc w.plain current rest;
        readable = λ b p. IsReadable-more c s extra a b current p more.tail rest hi more.readable;
      }

  -- Whatever fuel made the loop succeed, with a positive chunk size.
  pub push_loop-Sealed :
      (k fuel : ℕ) (a : c.State) (current source : Bytes) (w w' : Written)
      → (current ≡ [] → source ≡ [])
      → push_loop c fuel (pos (suc k)) extra a current source w ≡ ok w'
      → Sealed c s extra a (current ++ source) w w'
  unfolding push_loop is_empty read_chunk
  push_loop-Sealed k zero a current source w w' n h = absurd (ground arith)
  push_loop-Sealed k (suc fuel) a [] [] w w' n h = Sealed-last a [] w w' h
  push_loop-Sealed k (suc fuel) a [] (y ∷ source) w w' n h = absurd (ground (arith, n refl))
  push_loop-Sealed k (suc fuel) a (x ∷ xs) [] w w' n h =
      rw append-nil (Sealed-last a (x ∷ xs) w w' h)
  push_loop-Sealed k (suc fuel) a (x ∷ xs) (y ∷ source) w w' n h =
      let current : Bytes = x ∷ xs in
      let (file, e, h') = >>=-eq-ok (write_record w.file (c.push a current extra message).0) _ h in
      let ih =
        push_loop-Sealed k fuel (c.push a current extra message).1 (y ∷ take k source)
          (drop k source) (note_record c file current w) w' (λ z. cc) h' in
      Sealed-more a current (y ∷ source) w w' file e (rw take-append-drop at ih)

write_record-push :
    (c : Crypto) (s : IsSound c) (a : c.State) (extra text : Bytes) (tag : Tag) (file : Bytes)
    → length text ≤ default_chunk_size
    → (file' : Bytes) × (write_record file (c.push a text extra tag).0 ≡ ok file')
unfolding write_record
write_record-push c s a extra text tag file h = (
  file ++ pack32 (length (c.push a text extra tag).0) ++ (c.push a text extra tag).0,
  ground (arith, s.push_length a text extra tag),
)

module _ (c : Crypto) (s : IsSound c) (extra : Bytes) (k : ℕ)
    (small : suc k ≤ default_chunk_size) where
  -- With a chunk of at most the default size the loop succeeds: each round but the last reads a byte.
  pub push_loop-total :
      (fuel : ℕ) (a : c.State) (current source : Bytes) (w : Written)
      → length source < fuel
      → length current ≤ suc k
      → (w' : Written) × (push_loop c fuel (pos (suc k)) extra a current source w ≡ ok w')
  unfolding push_loop is_empty read_chunk
  push_loop-total zero a current source w h l = elim h [ ]
  push_loop-total (suc fuel) a [] source w h l =
      let (file, e) = write_record-push c s a extra [] final w.file (omega arith) in
      (note_record c file [] w, rw e)
  push_loop-total (suc fuel) a (x ∷ xs) [] w h l =
      let (file, e) = write_record-push c s a extra (x ∷ xs) final w.file (omega arith) in
      (note_record c file (x ∷ xs) w, rw e)
  push_loop-total (suc fuel) a (x ∷ xs) (y ∷ source) w h l =
      let (file, e) = write_record-push c s a extra (x ∷ xs) message w.file (omega arith) in
      let (w', e') =
        push_loop-total fuel (c.push a (x ∷ xs) extra message).1 (y ∷ take k source) (drop k source)
          (note_record c file (x ∷ xs) w) (omega (arith, length-drop k source))
          (omega (arith, length-take-le k source)) in
      (w', rw e e')
