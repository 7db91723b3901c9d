-- ===== src/Vault/RoundTrip/Records.antt =====
-- One record: what `push_loop` writes against what `pull_loop` reads.
use mathlib.Core.List.{append_assoc, append-nil}
use work_trace.Prelude.{
  ℕ, zero, suc, ◌≤◌, ◌<◌, ◌≡◌, refl, ◌∙◌, Bool, true, false, some, [], ◌∷◌, ◌++◌, arith, length,
  length-append, take, drop,
}
use work_trace.Errors.{ok}
use work_trace.Vault.Bytes.{
  Bytes, pack32, unpack32, unpack32-pack32, length-pack32, read_exact-append,
}
use work_trace.Vault.Stream.{Tag, message, final, Crypto, IsSound}
use work_trace.Vault.Write.{secretstream_overhead, max_record_bytes, write_record}
use work_trace.Vault.Read.{next_length, after_tag, pull_record, pull_loop}

pub write_record-eq-ok :
    (file cipher : Bytes) {file' : Bytes}
    → write_record file cipher ≡ ok file'
    → (secretstream_overhead ≤ length cipher)
      × (length cipher ≤ max_record_bytes)
      × (file' ≡ file ++ pack32 (length cipher) ++ cipher)
unfolding write_record
write_record-eq-ok file cipher h = ground arith

next_length-pack32 :
    (n : ℕ)
    → secretstream_overhead ≤ n
    → n ≤ max_record_bytes
    → next_length false (pack32 n) ≡ ok (some n)
unfolding next_length pack32
next_length-pack32 n lo hi =
    let e : unpack32 (pack32 n) ≡ n = unpack32-pack32 n (omega arith) in rw e (ground arith)

take-pack32 : (n : ℕ) (xs : Bytes) → take 4 (pack32 n ++ xs) ≡ pack32 n
unfolding pack32
take-pack32 n xs = refl

drop-pack32 : (n : ℕ) (xs : Bytes) → drop 4 (pack32 n ++ xs) ≡ xs
unfolding pack32
drop-pack32 n xs = refl

pull_loop-step :
    (c : Crypto) (fuel : ℕ) (extra : Bytes) (state state' : c.State)
    (source file plain ciphertext rest text : Bytes) (saw saw' : Bool) (n : ℕ)
    → next_length saw (take 4 source) ≡ ok (some n)
    → pull_record c state extra (drop 4 source) n ≡ ok ((ciphertext, rest), (text, saw'), state')
    → pull_loop c (suc fuel) extra state source file plain saw
      ≡ pull_loop c fuel extra state' rest
          (file ++ take 4 source ++ ciphertext)
          (plain ++ text)
          saw'
unfolding pull_loop
pull_loop-step c fuel extra state state' source file plain ciphertext rest text saw saw' n e f =
    ground (arith, e, f)

abbrev tag_of : Bool → Tag
tag_of true = final
tag_of false = message

after_tag-tag_of : (last : Bool) → after_tag (tag_of last) ≡ ok last
unfolding after_tag
after_tag-tag_of true = refl
after_tag-tag_of false = refl

module _ (c : Crypto) (s : IsSound c) where
  -- One record that was pushed is pulled: its text, whether it was the last, and the next states.
  pull_record-pushed :
      (a b : c.State) (text extra rest : Bytes) (last : Bool)
      → s.Paired a b
      → (b' : c.State) × (pull_record c b extra
            ((c.push a text extra (tag_of last)).0 ++ rest)
            (length (c.push a text extra (tag_of last)).0)
          ≡ ok (((c.push a text extra (tag_of last)).0, rest), (text, last), b'))
        × s.Paired (c.push a text extra (tag_of last)).1 b'
  unfolding pull_record
  pull_record-pushed a b text extra rest last p =
      let (b', e, p') = s.pulls a b text extra (tag_of last) p in
      (b', rw (read_exact-append, e, after_tag-tag_of), p')

  -- The same with the length prefix, in front of what follows in the file.
  pull_loop-pushed :
      (a b : c.State) (text extra rest : Bytes) (last : Bool) (fuel : ℕ) (file plain : Bytes)
      → s.Paired a b
      → length (c.push a text extra (tag_of last)).0 ≤ max_record_bytes
      → (b' : c.State) × s.Paired (c.push a text extra (tag_of last)).1 b'
        × (pull_loop c
              (suc fuel)
              extra
              b
              (pack32 (length (c.push a text extra (tag_of last)).0)
                ++ ((c.push a text extra (tag_of last)).0 ++ rest))
              file
              plain
              false
            ≡ pull_loop c fuel extra b' rest
                (file
                  ++ pack32 (length (c.push a text extra (tag_of last)).0)
                  ++ (c.push a text extra (tag_of last)).0)
                (plain ++ text)
                last)
  pull_loop-pushed a b text extra rest last fuel file plain p fits =
      let cipher = (c.push a text extra (tag_of last)).0 in
      let (b', e, p') = pull_record-pushed a b text extra rest last p in
      let lo : secretstream_overhead ≤ length cipher =
        omega (arith, s.push_length a text extra (tag_of last)) in
      (
        b',
        p',
        pull_loop-step c fuel extra b b' (pack32 (length cipher) ++ (cipher ++ rest)) file plain
              cipher rest text false last (length cipher)
              (rw take-pack32 (next_length-pack32 (length cipher) lo fits)) (rw drop-pack32 e)
            ∙ rw take-pack32,
      )

pub take-append-drop : (n : ℕ) (xs : Bytes) → take n xs ++ drop n xs ≡ xs
take-append-drop zero xs = refl
take-append-drop (suc n) [] = refl
take-append-drop (suc n) (x ∷ xs) = rw (take-append-drop n xs)

-- What the writer has put behind `file`, as the reader's loop sees it.
pub record IsReadable (c : Crypto) (extra : Bytes) (state : c.State) (tail text : Bytes)
    : Type 0 where
  pub pulled :
      (m : ℕ) (file plain : Bytes)
      → length tail < m
      → pull_loop c m extra state tail file plain false
        ≡ record { plain = plain ++ text; outcome = ok (file ++ tail, []) }

pull_end :
    (c : Crypto) (extra : Bytes) (b : c.State) (m : ℕ) (file plain : Bytes)
    → 0 < m
    → pull_loop c m extra b [] file plain true ≡ record { plain = plain; outcome = ok (file, []) }
unfolding pull_loop next_length
pull_end c extra b zero file plain h = elim h [ ]
pull_end c extra b (suc m) file plain h = refl

module _ (c : Crypto) (s : IsSound c) (extra : Bytes) (a b : c.State) (text : Bytes)
    (p : s.Paired a b) where
  -- The last record.
  pub IsReadable-last :
      length (c.push a text extra final).0 ≤ max_record_bytes
      → IsReadable c extra b
          (pack32 (length (c.push a text extra final).0) ++ ((c.push a text extra final).0 ++ []))
          text
  IsReadable-last fits = record { pulled = go }
    where
      cipher : Bytes
      cipher = (c.push a text extra final).0

      go :
          (m : ℕ) (file plain : Bytes)
          → length (pack32 (length cipher) ++ (cipher ++ [])) < m
          → pull_loop c m extra b (pack32 (length cipher) ++ (cipher ++ [])) file plain false
            ≡ record {
              plain = plain ++ text;
              outcome = ok (file ++ (pack32 (length cipher) ++ (cipher ++ [])), []);
            }
      go zero file plain h = elim h [ ]
      go (suc m) file plain h =
          let (b', p', e) = pull_loop-pushed c s a b text extra [] true m file plain p fits in
          e
          ∙ pull_end c extra b' m (file ++ pack32 (length cipher) ++ cipher) (plain ++ text) (
              omega (
                arith,
                length-append (pack32 (length cipher)) (cipher ++ []),
                length-pack32 (length cipher),
              ))
          ∙ simp (append_assoc, append-nil)

  -- A record with a readable rest behind it.
  pub IsReadable-more :
      (tail rest : Bytes)
      → length (c.push a text extra message).0 ≤ max_record_bytes
      → ((b' : c.State)
          → s.Paired (c.push a text extra message).1 b'
          → IsReadable c extra b' tail rest)
      → IsReadable c extra b
          (pack32 (length (c.push a text extra message).0)
            ++ ((c.push a text extra message).0 ++ tail))
          (text ++ rest)
  IsReadable-more tail rest fits ih = record { pulled = go }
    where
      cipher : Bytes
      cipher = (c.push a text extra message).0

      go :
          (m : ℕ) (file plain : Bytes)
          → length (pack32 (length cipher) ++ (cipher ++ tail)) < m
          → pull_loop c m extra b (pack32 (length cipher) ++ (cipher ++ tail)) file plain false
            ≡ record {
              plain = plain ++ (text ++ rest);
              outcome = ok (file ++ (pack32 (length cipher) ++ (cipher ++ tail)), []);
            }
      go zero file plain h = elim h [ ]
      go (suc m) file plain h =
          let (b', p', e) = pull_loop-pushed c s a b text extra tail false m file plain p fits in
          e
          ∙ (ih b' p').pulled m (file ++ pack32 (length cipher) ++ cipher) (plain ++ text) (
              omega (
                arith,
                length-append (pack32 (length cipher)) (cipher ++ tail),
                length-append cipher tail,
                length-pack32 (length cipher),
              ))
          ∙ simp append_assoc
