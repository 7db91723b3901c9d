-- ===== src/Server/Pages/Cuts.antt =====
-- `admit_page` of mcp_server/responses.py as a whole: its envelope, its loop and its last test.
use mathlib.Core.Path.{subst}
use work_trace.Prelude.{
  ℕ, ◌<◌, if-split, String, true, false, Option, none, List, [], ◌≡◌, ◌⊎◌, inl, inr, refl, ap, ◌∙◌,
  All,
}
use work_trace.Prelude.Texts.{◌==◌}
use work_trace.Errors.{Result, ok, >>=-eq-ok}
use work_trace.Json.{null, obj, arr, nil, Fields, get, as_object}
use work_trace.Server.Values.{set, get-same, get-other, get-set_if, truthy}
use work_trace.Server.Envelopes.{
  Position, TextRules, fits_budget, error_of, compact_sources, small_envelope, clean,
}
use work_trace.Server.Pages.{
  ScannedRow, items_of, Admission, refused, admitted, admit_rows, settle_page, has_room, empty_page,
  start_page, admit_page,
}
use work_trace.Server.Pages.Delivery.{IsAhead, HasPosition, IsItemKey, Cut}
use work_trace.Server.Pages.Admitted.{Loop, Cuts, admit_rows-Cut}

-- The keys that `_small_envelope` writes.
abbrev pub IsPlainKey : String → Type 0
IsPlainKey key =
    (("limitations" == key) ≡ false)
    × (("limitation_count" == key) ≡ false)
    × (("has_limitations" == key) ≡ false)
    × (("envelope_compacted" == key) ≡ false)
    × (("source_status" == key) ≡ false)

get-small_envelope :
    (rules : TextRules) (key : String) (value : Fields)
    → IsPlainKey key
    → ("response_truncated" == key) ≡ false
    → get key (small_envelope rules value) ≡ get key value
unfolding small_envelope
get-small_envelope rules key value plain other =
    let sources = as_object (get "source_status" value) in
    get-other key "limitations" _ _ plain.0
    ∙ get-other key "limitation_count" _ _ plain.1
    ∙ get-other key "has_limitations" _ _ plain.2
    ∙ get-other key "envelope_compacted" _ _ plain.3
    ∙ get-other key "response_truncated" _ _ other
    ∙ get-set_if (truthy (obj sources)) key "source_status" (obj (compact_sources rules sources))
        value plain.4

-- An error response, or a page within the budget that stands for a part of the rows.
abbrev pub IsPage :
    TextRules → String → ℕ → (Position → Result String) → List ScannedRow → Fields → Type 0
IsPage rules item_key limit make_cursor rows page =
    ((fs : Fields) × (page ≡ error_of fs))
    ⊎ ((fits_budget page ≡ true) × Cut rules item_key limit make_cursor none rows [] page)

module _ (rules : TextRules) (item_key : String) (limit : ℕ)
    (make_cursor : Position → Result String) (key : IsItemKey item_key) where
  settle_page-IsPage :
      (rows : List ScannedRow) (admission : Admission)
      → ((result : Fields) (items : List Fields) (final : Option Position)
          → admission ≡ admitted result items final
          → Cuts rules item_key limit make_cursor key none rows [] result)
      → IsPage rules item_key limit make_cursor rows
          (settle_page rules item_key limit make_cursor admission)
  unfolding settle_page
  settle_page-IsPage rows (refused result) cut = inl (result, refl)
  settle_page-IsPage rows (admitted result items final) cut =
      if-split (IsPage rules item_key limit make_cursor rows) (fits_budget result) result
        (error_of result) (λ e. inr (e, cut result items final refl)) (λ e. inl (result, refl))

  start_page-Loop :
      (envelope : Fields) (initial : Option Position)
      → IsPlainKey item_key
      → 0 < limit
      → Loop rules item_key limit make_cursor key none
          (start_page rules item_key limit make_cursor envelope)
          []
          initial
  unfolding start_page empty_page items_of
  start_page-Loop envelope initial plain some_room =
      let held = set item_key (arr nil) (clean rules envelope) in
      let empty = set "next_cursor" null held in
      let keeps = λ (k : String) (p : IsPlainKey k) (q : ("response_truncated" == k) ≡ false).
        if-split (λ (fs : Fields). get k fs ≡ get k empty)
          (has_room rules item_key limit make_cursor empty) empty (small_envelope rules empty)
          (λ e. refl) (λ e. get-small_envelope rules k empty p q) in
      record {
        holds =
            keeps item_key plain key.1
            ∙ get-other item_key "next_cursor" null held key.0
            ∙ get-same item_key (arr nil) (clean rules envelope);
        continues =
            keeps "next_cursor" (refl, refl, refl, refl, refl) refl
            ∙ get-same "next_cursor" null held;
        below = some_room;
        placed = tt;
        fresh = refl;
      }

  -- For an item key that no other part of a page uses, rows that know of the rows after them and
  -- have a position, and a limit above zero, a page that `admit_page` returns is an error
  -- response, or it is within the budget and stands for a first part of the rows: it lists the
  -- items of exactly these, at most the limit, its cursor is that of the last of them, and it is
  -- empty only if there is no row.
  pub admit_page-IsPage :
      (envelope : Fields) (rows : List ScannedRow) (initial : Option Position)
      → IsPlainKey item_key
      → IsAhead none rows
      → All HasPosition rows
      → 0 < limit
      → (page : Fields)
      → admit_page rules item_key limit make_cursor envelope rows initial ≡ ok page
      → IsPage rules item_key limit make_cursor rows page
  unfolding admit_page
  admit_page-IsPage envelope rows initial plain ahead placed some_room =
      let start = start_page rules item_key limit make_cursor envelope in
      let P = λ (r : Result Fields).
        (page : Fields) → r ≡ ok page → IsPage rules item_key limit make_cursor rows page in
      if-split P (has_room rules item_key limit make_cursor start) _ _
        (λ roomy page done.
          let (admission, ran, last) =
            >>=-eq-ok (admit_rows rules item_key limit make_cursor rows start [] initial) _ done in
          let same : settle_page rules item_key limit make_cursor admission ≡ page = cc in
          subst (IsPage rules item_key limit make_cursor rows) same (
            settle_page-IsPage rows admission (λ result items final e.
              admit_rows-Cut rules item_key limit make_cursor key none rows start [] initial ahead
                placed (start_page-Loop envelope initial plain some_room)
                (ran ∙ ap (λ (a : Admission). ok a) e))))
        (λ full page done. inl (start, let same : ok (error_of start) ≡ ok page = done in cc))
