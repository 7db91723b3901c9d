-- ===== src/Prelude/Order.antt =====
-- The strict order of texts, which is that of SQLite's binary collation and of Python's `<`.
use Prim.Native.String.compare.{nil-nil, cons-nil, nil-cons, cons-cons}
use Prim.Native.String.{String, compare, [], ◌∷◌}
use mathlib.Core.Path.{◌≡◌}
use mathlib.Core.Bool.{Bool, true, false}
use native.Mathlib.Omega.{arith}
use text.Mathlib.Text.{is_lt}
use text.Mathlib.TextPositions.{compare_refl}

-- `a < b`
abbrev pub text_lt : String → String → Bool
text_lt a b = is_lt (compare a b)

pub text_lt_irrefl : (a : String) → text_lt a a ≡ false
text_lt_irrefl a = ground (arith, compare_refl a)

pub text_lt_trans : (a b c : String) → text_lt a b ≡ true → text_lt b c ≡ true → text_lt a c ≡ true
text_lt_trans [] [] c p q = ground (arith, nil-nil)
text_lt_trans [] (x ∷ b) [] p q = ground (arith, cons-nil x b)
text_lt_trans [] (x ∷ b) (y ∷ c) p q = ground (arith, nil-cons y c)
text_lt_trans (x ∷ a) [] c p q = ground (arith, cons-nil x a)
text_lt_trans (x ∷ a) (y ∷ b) [] p q = ground (arith, cons-nil y b)
text_lt_trans (x ∷ a) (y ∷ b) (z ∷ c) p q =
    ground (arith, cons-cons x y a b, cons-cons y z b c, cons-cons x z a c, text_lt_trans a b c)
