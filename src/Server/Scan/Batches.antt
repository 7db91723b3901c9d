-- ===== src/Server/Scan/Batches.antt =====
-- The batches of read_models/agent_pages.py: what `_LazyScannedRows` gives for them.
use mathlib.Core.List.{append_assoc}
use work_trace.Prelude.{
  Bool-cases, ℕ, zero, suc, ◌=?◌, String, Bool, false, not, ◌||◌, ◌&&◌, Option, none, some, List,
  [], ◌∷◌, ◌++◌, map, length, take, drop, All, ◌≡◌, ◌⊎◌, inl, inr, refl, sym, ap, ◌∙◌, arith,
}
use work_trace.Json.{Fields}
use work_trace.Server.Pages.{ScannedRow}
use work_trace.Server.Pages.Delivery.{IsAhead, HasPosition, items_at, last_of}
use work_trace.Server.Scan.{
  CandidateRow, is_empty, candidate_position, project, scanned, lazy_rows, candidates_after,
  raw_candidate_batch, has_raw_candidate_after, last_id,
}
use work_trace.Server.Scan.Order.{IsOrdered, candidates_after-behind}

module _ (calendar_date : String → Option String) (candidate_list_item : String → Option Fields)
    (date_from date_to : Option String) where
  abbrev listed : List CandidateRow → Bool → List ScannedRow
  listed = lazy_rows calendar_date candidate_list_item date_from date_to

  abbrev seen_as : CandidateRow → Bool → ScannedRow
  seen_as = scanned calendar_date candidate_list_item date_from date_to

  pub lazy_rows-IsAhead : (rows : List CandidateRow) (more : Bool) → IsAhead none (listed rows more)
  unfolding lazy_rows is_empty
  lazy_rows-IsAhead [] more = tt
  lazy_rows-IsAhead (row ∷ []) more = tt
  lazy_rows-IsAhead (row ∷ next ∷ rows) more = (refl, lazy_rows-IsAhead (next ∷ rows) more)

  pub lazy_rows-HasPosition :
      (rows : List CandidateRow) (more : Bool) → All HasPosition (listed rows more)
  unfolding lazy_rows candidate_position
  lazy_rows-HasPosition [] more = tt
  lazy_rows-HasPosition (row ∷ rows) more = (λ e. cc, lazy_rows-HasPosition rows more)

  pub lazy_rows-none : (rows : List CandidateRow) (more : Bool) → listed rows more ≡ [] → rows ≡ []
  unfolding lazy_rows
  lazy_rows-none [] more none_scanned = refl
  lazy_rows-none (row ∷ rows) more none_scanned = absurd (cc)

  -- The last row of a part, which knows whether more rows follow it.
  abbrev pub IsLast :
      Option ScannedRow → List ScannedRow → List CandidateRow → List CandidateRow → Bool → Type 0
  IsLast before scans front behind more =
      ((front ≡ []) × (last_of before scans ≡ before))
      ⊎ ((start : List CandidateRow) × (row : CandidateRow) × (front ≡ start ++ row ∷ [])
          × (last_of before scans ≡ some (seen_as row (not (is_empty behind) || more))))

  -- A cut of the scanned rows is a cut of the rows.
  pub lazy_rows-cut :
      (rows : List CandidateRow) (more : Bool) (before : Option ScannedRow)
      (scans rest : List ScannedRow)
      → listed rows more ≡ scans ++ rest
      → (front : List CandidateRow) × (behind : List CandidateRow) × (rows ≡ front ++ behind)
        × (items_at scans ≡ map (project calendar_date candidate_list_item date_from date_to) front)
        × IsLast before scans front behind more
  unfolding lazy_rows
  lazy_rows-cut rows more before [] rest split = ([], rows, refl, refl, inl (refl, refl))
  lazy_rows-cut [] more before (scan ∷ scans) rest split = absurd (cc)
  lazy_rows-cut (row ∷ rows) more before (scan ∷ scans) rest split =
      let head : seen_as row (not (is_empty rows) || more) ≡ scan = cc in
      let tail : listed rows more ≡ scans ++ rest = cc in
      let (front, behind, joined, items, last) =
        lazy_rows-cut rows more (some scan) scans rest tail in
      (
        row ∷ front,
        behind,
        ap (λ (rs : List CandidateRow). row ∷ rs) joined,
        ap (λ (o : Option Fields). o ∷ items_at scans) (sym (ap (λ (s : ScannedRow). s.item) head))
            ∙ ap
                (λ (os : List (Option Fields)).
                  project calendar_date candidate_list_item date_from date_to row ∷ os)
                items,
        elim last [
          | inl (none_front, same) ↦
              let here : rows ≡ behind =
                joined ∙ ap (λ (rs : List CandidateRow). rs ++ behind) none_front in
              inr (
                [],
                row,
                ap (λ (rs : List CandidateRow). row ∷ rs) none_front,
                same
                    ∙ sym (ap (λ (s : ScannedRow). some s) head)
                    ∙ ap
                        (λ (rs : List CandidateRow). some (seen_as row (not (is_empty rs) || more)))
                        here,
              )
          | inr (start, end_row, front_eq, found) ↦
              inr (row ∷ start, end_row, ap (λ (rs : List CandidateRow). row ∷ rs) front_eq, found)
        ],
      )

pub take-drop : (n : ℕ) (rows : List CandidateRow) → rows ≡ take n rows ++ drop n rows
take-drop zero rows = refl
take-drop (suc n) [] = refl
take-drop (suc n) (row ∷ rows) = ap (λ (rs : List CandidateRow). row ∷ rs) (take-drop n rows)

-- A batch below its limit is followed by nothing.
short_take :
    (n : ℕ) (rows : List CandidateRow) → (length (take n rows) =? n) ≡ false → drop n rows ≡ []
short_take zero rows short = ground (arith, short)
short_take (suc n) [] short = refl
short_take (suc n) (row ∷ rows) short =
    let less : (length (take n rows) =? n) ≡ false = ground (arith, short) in short_take n rows less

pub no_take : (n : ℕ) (rows : List CandidateRow) → take (suc n) rows ≡ [] → drop (suc n) rows ≡ []
no_take n [] none_taken = refl
no_take n (row ∷ rows) none_taken = absurd (cc)

split_last :
    (before : String) (row : CandidateRow) (rows : List CandidateRow)
    → (start : List CandidateRow) × (last : CandidateRow) × (row ∷ rows ≡ start ++ last ∷ [])
      × (last_id before (row ∷ rows) ≡ last.id)
unfolding last_id
split_last before row [] = ([], row, refl, refl)
split_last before row (next ∷ rows) =
    let (start, last, joined, same) = split_last row.id next rows in
    (row ∷ start, last, ap (λ (rs : List CandidateRow). row ∷ rs) joined, same)

is_empty-take : (rows : List CandidateRow) → is_empty (take 1 rows) ≡ is_empty rows
unfolding is_empty
is_empty-take [] = refl
is_empty-take (row ∷ rows) = refl

module _ (app_id generated_at after : String) (table : List CandidateRow)
    (ordered : IsOrdered table) where
  probe :
      (start : List CandidateRow) (last : CandidateRow) (rest : List CandidateRow)
      → candidates_after app_id generated_at after table ≡ start ++ last ∷ rest
      → has_raw_candidate_after app_id generated_at last.id table ≡ not (is_empty rest)
  unfolding has_raw_candidate_after raw_candidate_batch
  probe start last rest split =
      ap (λ (rows : List CandidateRow). not (is_empty (take 1 rows)))
        (candidates_after-behind app_id generated_at after table start last rest ordered split)
      ∙ ap not (is_empty-take rest)

  has_more-rest :
      (n : ℕ) (rows rest : List CandidateRow)
      → candidates_after app_id generated_at after table ≡ rows ++ rest
      → (rows ≡ [] → rest ≡ [])
      → ((length rows =? n) ≡ false → rest ≡ [])
      → (not (is_empty rows)
          && (length rows =? n)
          && has_raw_candidate_after app_id generated_at (last_id "" rows) table)
        ≡ not (is_empty rest)
  unfolding is_empty
  has_more-rest n [] rest split none_after short =
      ap (λ (rs : List CandidateRow). not (is_empty rs)) (sym (none_after refl))
  has_more-rest n (row ∷ rows) rest split none_after short =
      let (start, last, joined, same) = split_last "" row rows in
      let whole =
        split
        ∙ ap (λ (rs : List CandidateRow). rs ++ rest) joined
        ∙ append_assoc start (last ∷ []) rest in
      elim (Bool-cases (suc (length rows) =? n)) [
        | inl full ↦ rw (full, same, probe start last rest whole)
        | inr less ↦ rw (less, short less)
      ]

  -- `has_more` after a batch of n + 1 rows says whether rows remain.
  pub has_more-drop :
      (n : ℕ)
      → (let all = candidates_after app_id generated_at after table in
          let rows = take (suc n) all in
          (not (is_empty rows)
            && (length rows =? suc n)
            && has_raw_candidate_after app_id generated_at (last_id "" rows) table)
          ≡ not (is_empty (drop (suc n) all)))
  has_more-drop n =
      let all = candidates_after app_id generated_at after table in
      has_more-rest (suc n) (take (suc n) all) (drop (suc n) all) (take-drop (suc n) all)
        (no_take n all) (short_take (suc n) all)
