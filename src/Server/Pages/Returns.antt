-- ===== src/Server/Pages/Returns.antt =====
-- How `admit_page` of mcp_server/responses.py ends: it returns, or a cursor cannot be made.
use work_trace.Prelude.{
  ℕ, suc, ◌=?◌, Bool-cases, Option-cases, if-split, String, Option, none, some, List, [], ◌∷◌, ◌++◌,
  length, ◌≡◌, ◌⊎◌, inl, inr, refl, ap, ◌∙◌,
}
use work_trace.Errors.{Error, Result, ok, err, ◌>>=◌, Result-cases}
use work_trace.Json.{Json, null, str, Fields}
use work_trace.Server.Values.{set}
use work_trace.Server.Envelopes.{Position, TextRules, fits_budget, error_of}
use work_trace.Server.Pages.{
  ScannedRow, refused, admitted, cursor_at, cursor_after, blocked, admit_rows, has_room, start_page,
  admit_page,
}
use work_trace.Server.Pages.Delivery.{IsItemKey}
use work_trace.Server.Pages.Admitted.{hidden_round, blocked_round, last_round, next_round, pair}

-- The result is a value, or an error that the making of a cursor has raised.
abbrev pub Answers {ℓ} : (Position → Result String) → {A : Type ℓ} → Result A → Type ℓ
Answers make_cursor {A} r =
    ((a : A) × (r ≡ ok a)) ⊎ ((e : Error) × (p : Position) × (make_cursor p ≡ err e) × (r ≡ err e))

module _ (make_cursor : Position → Result String) where
  Answers-same :
      {A : Type 0} (r s : Result A) → r ≡ s → Answers make_cursor s → Answers make_cursor r
  Answers-same r s same (inl (a, e)) = inl (a, same ∙ e)
  Answers-same r s same (inr (x, p, raised, e)) = inr (x, p, raised, same ∙ e)

  >>=-Answers :
      {A B : Type 0} (first : Result A) (rest : A → Result B)
      → Answers make_cursor first
      → ((a : A) → Answers make_cursor (rest a))
      → Answers make_cursor (first >>= rest)
  >>=-Answers {A} first rest (inl (a, e)) next =
      Answers-same (first >>= rest) (rest a) (ap (λ (r : Result A). r >>= rest) e) (next a)
  >>=-Answers {A} first rest (inr (x, p, raised, e)) next =
      inr (x, p, raised, ap (λ (r : Result A). r >>= rest) e)

  make_cursor-Answers : (p : Position) → Answers make_cursor (make_cursor p)
  make_cursor-Answers p = elim (Result-cases (make_cursor p)) [
    | inl found ↦ inl found
    | inr (e, raised) ↦ inr (e, p, raised, raised)
  ]

module _ (rules : TextRules) (item_key : String) (limit : ℕ)
    (make_cursor : Position → Result String) (key : IsItemKey item_key) where
  cursor_after-Answers :
      (row : ScannedRow) → Answers make_cursor (cursor_after rules item_key limit make_cursor row)
  unfolding cursor_after
  cursor_after-Answers row =
      if-split (λ (r : Result Json). Answers make_cursor r) row.has_more _ _
        (λ e.
          >>=-Answers make_cursor (make_cursor row.position) _
            (make_cursor-Answers make_cursor row.position) (λ c. inl (str c, refl)))
        (λ e. inl (null, refl))

  cursor_at-Answers :
      (accepted : Option Position)
      → Answers make_cursor (cursor_at rules item_key limit make_cursor accepted)
  unfolding cursor_at
  cursor_at-Answers none = inl (null, refl)
  cursor_at-Answers (some []) = inl (null, refl)
  cursor_at-Answers (some (p ∷ ps)) =
      >>=-Answers make_cursor (make_cursor (p ∷ ps)) _ (make_cursor-Answers make_cursor (p ∷ ps))
        (λ c. inl (str c, refl))

  blocked-Answers :
      (result : Fields) (items : List Fields) (accepted : Option Position)
      → Answers make_cursor (blocked rules item_key limit make_cursor result items accepted)
  unfolding blocked
  blocked-Answers result [] accepted = inl (refused result, refl)
  blocked-Answers result (item ∷ items) accepted =
      >>=-Answers make_cursor (cursor_at rules item_key limit make_cursor accepted) _
        (cursor_at-Answers accepted) (λ c. inl (_, refl))

  raised_round :
      (row : ScannedRow) (rows : List ScannedRow) (result : Fields) (items : List Fields)
      (accepted : Option Position) (e : Error)
      → cursor_after rules item_key limit make_cursor row ≡ err e
      → admit_rows rules item_key limit make_cursor (row ∷ rows) result items accepted ≡ err e
  unfolding admit_rows
  raised_round row rows result items accepted e raised = rw (raised) refl

  admit_rows-Answers :
      (rows : List ScannedRow) (result : Fields) (items : List Fields) (accepted : Option Position)
      → Answers make_cursor (admit_rows rules item_key limit make_cursor rows result items accepted)
  admit_rows-Answers [] result items accepted =
      inl (admitted result items accepted, unfold admit_rows in refl)
  admit_rows-Answers (row ∷ rows) result items accepted = elim (cursor_after-Answers row) [
    | inr (e, p, raised, same) ↦
        inr (e, p, raised, raised_round row rows result items accepted e same)
    | inl (c, found) ↦ elim (Option-cases row.item) [
      | inl e ↦
          Answers-same make_cursor _ _
            (hidden_round rules item_key limit make_cursor key row rows result items accepted c e
              found)
            (admit_rows-Answers rows (set "next_cursor" c result) items (some row.position))
      | inr (raw, e) ↦
          let (item, page) =
            pair rules item_key limit make_cursor key row rows result items accepted c raw in
          elim (Bool-cases (fits_budget page)) [
            | inr over ↦
                Answers-same make_cursor _ _
                  (blocked_round rules item_key limit make_cursor key row rows result items accepted
                    c raw e over found)
                  (blocked-Answers result items accepted)
            | inl under ↦ elim (Bool-cases (suc (length items) =? limit)) [
              | inl full ↦ inl (
                _,
                last_round rules item_key limit make_cursor key row rows result items accepted c raw
                    e under full found,
              )
              | inr more ↦
                  Answers-same make_cursor _ _
                    (next_round rules item_key limit make_cursor key row rows result items accepted
                      c raw e under more found)
                    (admit_rows-Answers rows page (items ++ item ∷ []) (some row.position))
            ]
          ]
    ]
  ]

  pub admit_page-Answers :
      (envelope : Fields) (rows : List ScannedRow) (initial : Option Position)
      → Answers make_cursor (admit_page rules item_key limit make_cursor envelope rows initial)
  unfolding admit_page
  admit_page-Answers envelope rows initial =
      let start = start_page rules item_key limit make_cursor envelope in
      if-split (λ (r : Result Fields). Answers make_cursor r)
        (has_room rules item_key limit make_cursor start) _ _
        (λ e.
          >>=-Answers make_cursor
            (admit_rows rules item_key limit make_cursor rows start [] initial) _
            (admit_rows-Answers rows start [] initial) (λ a. inl (_, refl)))
        (λ e. inl (error_of start, refl))
