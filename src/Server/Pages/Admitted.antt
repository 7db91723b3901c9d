-- ===== src/Server/Pages/Admitted.antt =====
-- The loop of `admit_page` (mcp_server/responses.py), from its first row to the page it returns.
use mathlib.Core.Path.{subst}
use work_trace.Prelude.{
  ℕ, suc, ◌<◌, ◌=?◌, Bool-cases, Option-cases, String, true, false, Option, none, some, List, [],
  ◌∷◌, ◌++◌, length, length-append, ◌≡◌, inl, inr, refl, sym, ap, ◌∙◌, arith, All,
}
use work_trace.Errors.{Result, ok, >>=-eq-ok}
use work_trace.Json.{Json, bool, arr, Fields, get}
use work_trace.Server.Values.{set, get-same, get-other}
use work_trace.Server.Envelopes.{Position, TextRules, fits_budget, clean}
use work_trace.Server.Pages.{
  ScannedRow, items_of, Admission, admitted, cursor_at, cursor_after, fitted, blocked, admit_rows,
}
use work_trace.Server.Pages.Delivery.{
  IsAhead, HasPosition, IsItemKey, Continues, Cut, Fitted, fitted-Fitted, stop, exclude, show,
  cursor_at-after,
}

abbrev pub IsPlaced : Option ScannedRow → Option Position → Type 0
IsPlaced none accepted = Unit
IsPlaced (some row) accepted = (accepted ≡ some row.position) × HasPosition row

abbrev pub IsFresh : Option ScannedRow → List Fields → Type 0
IsFresh none items = items ≡ []
IsFresh (some row) items = Unit

module _ (rules : TextRules) (item_key : String) (limit : ℕ)
    (make_cursor : Position → Result String) (key : IsItemKey item_key) where
  -- What the loop keeps: the page so far, its cursor, and the position that was accepted last.
  pub record Loop (before : Option ScannedRow) (result : Fields) (items : List Fields)
      (accepted : Option Position) : Type 0 where
    pub holds : get item_key result ≡ arr (items_of items)
    pub continues : Continues rules item_key limit make_cursor before result
    pub below : length items < limit
    pub placed : IsPlaced before accepted
    pub fresh : IsFresh before items

  abbrev pub Cuts : Option ScannedRow → List ScannedRow → List Fields → Fields → Type 0
  Cuts = Cut rules item_key limit make_cursor

  blocked-Cut :
      (before : Option ScannedRow) (next : ScannedRow) (rows : List ScannedRow) (result : Fields)
      (items : List Fields) (accepted : Option Position) {page : Fields} {shown : List Fields}
      {final : Option Position}
      → IsAhead before (next ∷ rows)
      → Loop before result items accepted
      → blocked rules item_key limit make_cursor result items accepted
        ≡ ok (admitted page shown final)
      → Cuts before (next ∷ rows) items page
  unfolding blocked
  blocked-Cut before next rows result [] accepted ahead loop done = cc
  blocked-Cut none next rows result (item ∷ items) accepted ahead loop done =
      let no_item = loop.fresh in absurd (cc)
  blocked-Cut (some row) next rows result (item ∷ items) accepted {page} ahead loop done =
      let (cursor, found, rest) =
        >>=-eq-ok (cursor_at rules item_key limit make_cursor accepted) _ done in
      let shape : set "response_truncated" (bool true) (set "next_cursor" cursor result) ≡ page =
        cc in
      let after = cursor_at-after rules item_key limit make_cursor key row ahead.0 loop.placed.1 in
      let same : get "next_cursor" page ≡ cursor =
        ap (λ (fs : Fields). get "next_cursor" fs) (sym shape)
        ∙ get-other "next_cursor" "response_truncated" (bool true) _ refl
        ∙ get-same "next_cursor" cursor result in
      stop rules item_key limit make_cursor key (some row) (next ∷ rows) (item ∷ items) page
        (ap (λ (fs : Fields). get item_key fs) (sym shape)
          ∙ get-other item_key "response_truncated" (bool true) _ key.1
          ∙ get-other item_key "next_cursor" cursor result key.0
          ∙ loop.holds)
        (sym after
          ∙ ap (λ (p : Option Position). cursor_at rules item_key limit make_cursor p)
              (sym loop.placed.0)
          ∙ found
          ∙ ap (λ (c : Json). ok c) (sym same))
        (let room = loop.below in omega arith) (λ e. cc)

  -- One round of the loop on each of its branches.
  module _ (row : ScannedRow) (rows : List ScannedRow) (result : Fields) (items : List Fields)
      (accepted : Option Position) (c : Json) where
    abbrev pub Step : Result Admission → Type 0
    Step next =
        cursor_after rules item_key limit make_cursor row ≡ ok c
        → admit_rows rules item_key limit make_cursor (row ∷ rows) result items accepted ≡ next

    pub hidden_round :
        row.item ≡ none
        → Step (
            admit_rows rules item_key limit make_cursor rows
              (set "next_cursor" c result)
              items
              (some row.position))
    unfolding admit_rows
    hidden_round e found = rw (found, e)

    abbrev pub pair : Fields → Fields × Fields
    pair raw = fitted rules item_key limit make_cursor result items (clean rules raw) c

    pub blocked_round :
        (raw : Fields)
        → row.item ≡ some raw
        → fits_budget (pair raw).1 ≡ false
        → Step (blocked rules item_key limit make_cursor result items accepted)
    unfolding admit_rows
    blocked_round raw e over found = rw (found, e, over)

    pub last_round :
        (raw : Fields)
        → row.item ≡ some raw
        → fits_budget (pair raw).1 ≡ true
        → (suc (length items) =? limit) ≡ true
        → Step (ok (admitted (pair raw).1 (items ++ (pair raw).0 ∷ []) (some row.position)))
    unfolding admit_rows
    last_round raw e under full found = rw (found, e, under, full)

    pub next_round :
        (raw : Fields)
        → row.item ≡ some raw
        → fits_budget (pair raw).1 ≡ true
        → (suc (length items) =? limit) ≡ false
        → Step (
            admit_rows rules item_key limit make_cursor rows
              (pair raw).1
              (items ++ (pair raw).0 ∷ [])
              (some row.position))
    unfolding admit_rows
    next_round raw e under more found = rw (found, e, under, more)

  IsAhead-next :
      (before : Option ScannedRow) (row : ScannedRow) (rows : List ScannedRow)
      → IsAhead before (row ∷ rows)
      → IsAhead (some row) rows
  IsAhead-next none row rows ahead = ahead
  IsAhead-next (some before) row rows ahead = ahead.1

  not_full : (n : ℕ) → n < limit → (suc n =? limit) ≡ false → suc n < limit
  not_full n below more = ground arith

  -- The loop state after a row that is shown.
  Loop-shown :
      (row : ScannedRow) (raw : Fields) (result : Fields) (items : List Fields)
      (accepted : Option Position) (c : Json)
      → HasPosition row
      → length items < limit
      → (suc (length items) =? limit) ≡ false
      → cursor_after rules item_key limit make_cursor row ≡ ok c
      → Loop
          (some row)
          (pair row [] result items accepted c raw).1
          (items ++ (pair row [] result items accepted c raw).0 ∷ [])
          (some row.position)
  unfolding Fitted
  Loop-shown row raw result items accepted c placed below more found =
      let (form, holds, next) =
        fitted-Fitted rules item_key limit make_cursor key raw items c result in
      let shown = (pair row [] result items accepted c raw).0 in
      let grows = length-append items (shown ∷ []) in
      let nearby = not_full (length items) below more in
      record {
        holds = holds;
        continues = found ∙ ap (λ (j : Json). ok j) (sym next);
        below = omega (arith, grows, nearby);
        placed = (refl, placed);
        fresh = tt;
      }

  first_cursor :
      (row : ScannedRow) (rows : List ScannedRow) (result : Fields) (items : List Fields)
      (accepted : Option Position) {admission : Admission}
      → admit_rows rules item_key limit make_cursor (row ∷ rows) result items accepted
        ≡ ok admission
      → (c : Json) × (cursor_after rules item_key limit make_cursor row ≡ ok c)
  unfolding admit_rows
  first_cursor row rows result items accepted done =
      let (c, found, _) = >>=-eq-ok (cursor_after rules item_key limit make_cursor row) _ done in
      (c, found)

  no_row :
      (result : Fields) (items : List Fields) (accepted : Option Position) {page : Fields}
      {shown : List Fields} {final : Option Position}
      → admit_rows rules item_key limit make_cursor [] result items accepted
        ≡ ok (admitted page shown final)
      → result ≡ page
  unfolding admit_rows
  no_row result items accepted done = cc

  last_page :
      {page page' : Fields} {shown shown' : List Fields} {final final' : Option Position}
      → ◌≡◌ {A = Result Admission}
          (ok (admitted page shown final))
          (ok (admitted page' shown' final'))
      → page ≡ page'
  last_page done = cc

  Loop-hidden :
      (before : Option ScannedRow) (row : ScannedRow) (result : Fields) (items : List Fields)
      (accepted : Option Position) (c : Json)
      → HasPosition row
      → Loop before result items accepted
      → cursor_after rules item_key limit make_cursor row ≡ ok c
      → Loop (some row) (set "next_cursor" c result) items (some row.position)
  Loop-hidden before row result items accepted c placed loop found = record {
    holds = get-other item_key "next_cursor" c result key.0 ∙ loop.holds;
    continues = found ∙ ap (λ (j : Json). ok j) (sym (get-same "next_cursor" c result));
    below = loop.below;
    placed = (refl, placed);
    fresh = tt;
  }

  pub admit_rows-Cut :
      (before : Option ScannedRow) (rows : List ScannedRow) (result : Fields) (items : List Fields)
      (accepted : Option Position) {page : Fields} {shown : List Fields} {final : Option Position}
      → IsAhead before rows
      → All HasPosition rows
      → Loop before result items accepted
      → admit_rows rules item_key limit make_cursor rows result items accepted
        ≡ ok (admitted page shown final)
      → Cuts before rows items page
  unfolding Fitted
  admit_rows-Cut before [] result items accepted {page} ahead placed loop done =
      let same : result ≡ page = no_row result items accepted done in
      let below = loop.below in
      subst (λ (fs : Fields). Cuts before [] items fs) same
        (stop rules item_key limit make_cursor key before [] items result loop.holds loop.continues
          (omega arith) (λ e. refl))
  admit_rows-Cut before (row ∷ rows) result items accepted {page} ahead placed loop done =
      let (c, found) = first_cursor row rows result items accepted done in
      let follows = IsAhead-next before row rows ahead in
      elim (Option-cases row.item) [
        | inl e ↦ exclude rules item_key limit make_cursor key before row rows items page e (
            admit_rows-Cut (some row) rows (set "next_cursor" c result) items (some row.position)
              follows placed.1 (Loop-hidden before row result items accepted c placed.0 loop found)
              (sym (hidden_round row rows result items accepted c e found) ∙ done))
        | inr (raw, e) ↦
            let (form, holds, next) =
              fitted-Fitted rules item_key limit make_cursor key raw items c result in
            let (item, shown) = pair row rows result items accepted c raw in
            let below = loop.below in
            elim (Bool-cases (fits_budget shown)) [
              | inr over ↦
                  blocked-Cut before row rows result items accepted ahead loop
                    (sym (blocked_round row rows result items accepted c raw e over found) ∙ done)
              | inl under ↦
                  show rules item_key limit make_cursor key before row raw item rows items page e
                    form
                    (elim (Bool-cases (suc (length items) =? limit)) [
                      | inl full ↦
                          let same : shown ≡ page = last_page (
                            sym (last_round row rows result items accepted c raw e under full found)
                            ∙ done) in
                          subst (λ (fs : Fields). Cuts (some row) rows (items ++ item ∷ []) fs) same
                            (stop rules item_key limit make_cursor key (some row) rows
                              (items ++ item ∷ []) shown holds
                              (found ∙ ap (λ (j : Json). ok j) (sym next))
                              (let grows = length-append items (item ∷ []) in omega arith)
                              (λ e. cc))
                      | inr more ↦
                          admit_rows-Cut (some row) rows shown (items ++ item ∷ [])
                            (some row.position) follows placed.1
                            (Loop-shown row raw result items accepted c placed.0 below more found)
                            (sym
                                (next_round row rows result items accepted c raw e under more found)
                              ∙ done)
                    ])
            ]
      ]
