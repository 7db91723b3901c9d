-- ===== src/Packets/Kinds.antt =====
-- packets/authority.py: the kinds of records, as tests on characters.
use Prim.Native.Char.{code}
use Prim.Native.String.{[], ◌∷◌}
use text.Mathlib.Text.{find?}
use work_trace.Prelude.{◌=?◌, String, Bool, true, false, not, ◌||◌, ◌&&◌, is_some}

-- `part in text`
unfoldable pub contains : String → String → Bool
contains part text = is_some (find? text part)

-- The text up to the next underscore is the given one.
segment_is : String → String → Bool
segment_is [] [] = true
segment_is [] (c ∷ s) = code c =? 95
segment_is (d ∷ t) [] = false
segment_is (d ∷ t) (c ∷ s) = not (code c =? 95) && (code d =? code c) && segment_is t s

later_segment : String → String → Bool
later_segment t [] = false
later_segment t (c ∷ s) = ((code c =? 95) && segment_is t s) || later_segment t s

-- `part in text.split("_")`
unfoldable pub has_segment : String → String → Bool
unfolding segment_is later_segment
has_segment part text = segment_is part text || later_segment part text

-- `is_merge_request_kind`, of a kind after `casefold`
unfoldable pub is_merge_request : String → Bool
is_merge_request kind = contains "merge_request" kind || has_segment "mr" kind
