-- ===== src/Server/Prefixes.antt =====
-- The prefix test of Server.Patterns against the texts that start with it.
use Prim.Native.Char.{code}
use Prim.Native.String.{String, [], ◌∷◌, ◌++◌}
use Prim.Native.String.append.{nil, cons}
use text.Mathlib.TextEquality.{Char-path}
use work_trace.Prelude.{◌=?◌, =?_iff, Bool-cases, some, ◌≡◌, inl, inr, sym, ap, ◌∙◌, arith}
use work_trace.Server.Patterns.{after_prefix}

pub after_prefix-append : (p s : String) → after_prefix p (p ++ s) ≡ some s
unfolding after_prefix
after_prefix-append [] s = ap (after_prefix []) (nil s)
after_prefix-append (c ∷ p) s =
    ap (after_prefix (c ∷ p)) (cons c p s) ∙ ground (arith, after_prefix-append p s)

pub append-after_prefix :
    (p s : String) {rest : String} → after_prefix p s ≡ some rest → s ≡ p ++ rest
unfolding after_prefix
append-after_prefix [] s {rest} h = (let same : s ≡ rest = cc in same) ∙ sym (nil rest)
append-after_prefix (c ∷ p) [] h = absurd (cc)
append-after_prefix (c ∷ p) (d ∷ s) {rest} h = elim (Bool-cases (code c =? code d)) [
  | inr other ↦ absurd (ground (arith, h, other))
  | inl same ↦
      let one = Char-path d c (sym ((=?_iff (code c) (code d)).0 same)) in
      let more = append-after_prefix p s (ground (arith, h, same)) in
      ap (λ x. x ∷ s) one ∙ ap (λ (t : String). c ∷ t) more ∙ sym (cons c p rest)
]
