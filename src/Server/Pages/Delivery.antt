-- ===== src/Server/Pages/Delivery.antt =====
-- The pages of mcp_server/responses.py against the rows that they were made from.
use mathlib.Core.List.{append-nil, append_assoc}
use mathlib.Core.Path.{subst, subst⁻¹}
use work_trace.Prelude.{
  ℕ, ◌≤◌, if-split, String, true, false, Option, none, some, List, [], ◌∷◌, ◌++◌, length, ◌≡◌, ◌≢◌,
  ◌⊎◌, inl, inr, refl, sym, ap, ◌∙◌, arith,
}
use work_trace.Prelude.Texts.{◌==◌}
use work_trace.Errors.{Result, ok}
use work_trace.Json.{Json, null, bool, arr, Fields, get}
use work_trace.Server.Values.{get-same, get-other}
use work_trace.Server.Envelopes.{Position, TextRules, fits_budget, clean}
use work_trace.Server.Pages.{
  ScannedRow, minimal_item, items_of, cursor_at, cursor_after, trial, fitted,
}

-- The items of rows as a page shows them: whole or in their minimal form.
pub data Delivers (rules : TextRules) : List (Option Fields) → List Fields → Type 0 where
  nothing : Delivers rules [] []
  excluded :
      {rows : List (Option Fields)} {items : List Fields}
      → Delivers rules rows items
      → Delivers rules (none ∷ rows) items
  whole :
      (raw : Fields) {rows : List (Option Fields)} {items : List Fields}
      → Delivers rules rows items
      → Delivers rules (some raw ∷ rows) (clean rules raw ∷ items)
  compact :
      (raw : Fields) {rows : List (Option Fields)} {items : List Fields}
      → Delivers rules rows items
      → Delivers rules (some raw ∷ rows) (minimal_item (clean rules raw) ∷ items)

abbrev pub items_at : List ScannedRow → List (Option Fields)
items_at [] = []
items_at (row ∷ rows) = row.item ∷ items_at rows

-- The last row that was taken, after one that may stand before.
abbrev pub last_of : Option ScannedRow → List ScannedRow → Option ScannedRow
last_of before [] = before
last_of before (row ∷ rows) = last_of (some row) rows

-- A row knows that another one comes after it.
abbrev pub IsAhead : Option ScannedRow → List ScannedRow → Type 0
IsAhead before [] = Unit
IsAhead none (row ∷ rows) = IsAhead (some row) rows
IsAhead (some before) (row ∷ rows) = (before.has_more ≡ true) × IsAhead (some row) rows

abbrev pub HasPosition : ScannedRow → Type 0
HasPosition row = row.position ≢ []

abbrev pub IsItemKey : String → Type 0
IsItemKey key = (("next_cursor" == key) ≡ false) × (("response_truncated" == key) ≡ false)

module _ (rules : TextRules) (item_key : String) (limit : ℕ)
    (make_cursor : Position → Result String) where
  abbrev pub Continues : Option ScannedRow → Fields → Type 0
  Continues none page = get "next_cursor" page ≡ null
  Continues (some row) page =
      cursor_after rules item_key limit make_cursor row ≡ ok (get "next_cursor" page)

  -- A page stands for a part of the rows: it shows every item of that part and no other, and its
  -- cursor is the one of the part's last row.
  pub record Cut (before : Option ScannedRow) (rows : List ScannedRow) (items : List Fields)
      (page : Fields) : Type 0 where
    pub taken : List ScannedRow
    pub left : List ScannedRow
    pub delivered : List Fields
    pub splits : rows ≡ taken ++ left
    pub delivers : Delivers rules (items_at taken) delivered
    pub lists : get item_key page ≡ arr (items_of (items ++ delivered))
    pub continues : Continues (last_of before taken) page
    pub bounded : length (items ++ delivered) ≤ limit
    pub advances : last_of before taken ≡ none → rows ≡ []

  module _ (key : IsItemKey item_key) where
    -- What the page of one more item holds, whichever form the item takes.
    unfoldable pub Fitted : Fields → List Fields → Json → Fields → Fields × Fields → Type 0
    Fitted raw items next_cursor result (item, page) =
        ((item ≡ clean rules raw) ⊎ (item ≡ minimal_item (clean rules raw)))
        × (get item_key page ≡ arr (items_of (items ++ item ∷ [])))
        × (get "next_cursor" page ≡ next_cursor)

    get-trial :
        (result : Fields) (items : List Fields) (c : Json)
        → (get item_key (trial rules item_key limit make_cursor result items c)
            ≡ arr (items_of items))
          × (get "next_cursor" (trial rules item_key limit make_cursor result items c) ≡ c)
    unfolding trial
    get-trial result items c = (
      get-other item_key "next_cursor" c _ key.0 ∙ get-same item_key (arr (items_of items)) result,
      get-same "next_cursor" c _,
    )

    pub fitted-Fitted :
        (raw : Fields) (items : List Fields) (c : Json) (result : Fields)
        → Fitted raw items c result
            (fitted rules item_key limit make_cursor result items (clean rules raw) c)
    unfolding fitted Fitted
    fitted-Fitted raw items c result =
        if-split (Fitted raw items c result)
          (fits_budget
            (trial rules item_key limit make_cursor result (items ++ clean rules raw ∷ []) c))
          _ _
          (λ e.
            let holds = get-trial result (items ++ clean rules raw ∷ []) c in
            (inl refl, holds.0, holds.1))
          (λ e.
            let holds = get-trial result (items ++ minimal_item (clean rules raw) ∷ []) c in
            (
              inr refl,
              get-other item_key "response_truncated" (bool true) _ key.1 ∙ holds.0,
              get-other "next_cursor" "response_truncated" (bool true) _ refl ∙ holds.1,
            ))

    last_of-some : (row : ScannedRow) (rows : List ScannedRow) → last_of (some row) rows ≢ none
    last_of-some row [] h = cc
    last_of-some row (next ∷ rows) h = last_of-some next rows h

    -- The page ends before these rows.
    pub stop :
        (before : Option ScannedRow) (rows : List ScannedRow) (items : List Fields) (page : Fields)
        → get item_key page ≡ arr (items_of items)
        → Continues before page
        → length items ≤ limit
        → (before ≡ none → rows ≡ [])
        → Cut before rows items page
    stop before rows items page holds continues bounded advances = record {
      taken = [];
      left = rows;
      delivered = [];
      splits = refl;
      delivers = nothing;
      lists = holds ∙ ap (λ (xs : List Fields). arr (items_of xs)) (sym (append-nil items));
      continues = continues;
      bounded = subst (λ (xs : List Fields). length xs ≤ limit) (sym (append-nil items)) bounded;
      advances = advances;
    }

    pub exclude :
        (before : Option ScannedRow) (row : ScannedRow) (rows : List ScannedRow)
        (items : List Fields) (page : Fields)
        → row.item ≡ none
        → Cut (some row) rows items page
        → Cut before (row ∷ rows) items page
    exclude before row rows items page hidden cut = record {
      taken = row ∷ cut.taken;
      left = cut.left;
      delivered = cut.delivered;
      splits = ap (λ (xs : List ScannedRow). row ∷ xs) cut.splits;
      delivers =
          subst⁻¹ (λ (o : Option Fields). Delivers rules (o ∷ items_at cut.taken) cut.delivered)
            hidden (excluded cut.delivers);
      lists = cut.lists;
      continues = cut.continues;
      bounded = cut.bounded;
      advances = λ none_taken. absurd (last_of-some row cut.taken none_taken);
    }

    pub show :
        (before : Option ScannedRow) (row : ScannedRow) (raw item : Fields) (rows : List ScannedRow)
        (items : List Fields) (page : Fields)
        → row.item ≡ some raw
        → (item ≡ clean rules raw) ⊎ (item ≡ minimal_item (clean rules raw))
        → Cut (some row) rows (items ++ item ∷ []) page
        → Cut before (row ∷ rows) items page
    show before row raw item rows items page shown form cut =
        let joined = append_assoc items (item ∷ []) cut.delivered in
        record {
          taken = row ∷ cut.taken;
          left = cut.left;
          delivered = item ∷ cut.delivered;
          splits = ap (λ (xs : List ScannedRow). row ∷ xs) cut.splits;
          delivers = deliver form;
          lists = cut.lists ∙ ap (λ (xs : List Fields). arr (items_of xs)) joined;
          continues = cut.continues;
          bounded = subst (λ (xs : List Fields). length xs ≤ limit) joined cut.bounded;
          advances = λ none_taken. absurd (last_of-some row cut.taken none_taken);
        }
      where
        deliver :
            (item ≡ clean rules raw) ⊎ (item ≡ minimal_item (clean rules raw))
            → Delivers rules (row.item ∷ items_at cut.taken) (item ∷ cut.delivered)
        deliver (inl e) =
            subst⁻¹
              (λ (x : Fields). Delivers rules (row.item ∷ items_at cut.taken) (x ∷ cut.delivered)) e
              (subst⁻¹
                (λ (o : Option Fields).
                  Delivers rules (o ∷ items_at cut.taken) (clean rules raw ∷ cut.delivered))
                shown (whole raw cut.delivers))
        deliver (inr e) =
            subst⁻¹
              (λ (x : Fields). Delivers rules (row.item ∷ items_at cut.taken) (x ∷ cut.delivered)) e
              (subst⁻¹
                (λ (o : Option Fields).
                  Delivers rules (o ∷ items_at cut.taken)
                    (minimal_item (clean rules raw) ∷ cut.delivered))
                shown (compact raw cut.delivers))

    pub cursor_at-after :
        (row : ScannedRow)
        → row.has_more ≡ true
        → HasPosition row
        → cursor_at rules item_key limit make_cursor (some row.position)
          ≡ cursor_after rules item_key limit make_cursor row
    unfolding cursor_at cursor_after
    cursor_at-after row ahead placed = ground (arith, ahead, placed)
