-- ===== src/Decisions/Rows.antt =====
-- Lemmas on the rows of `human_decisions`: searches by key, and what the ordering of a query keeps.
use work_trace.Prelude.{
  String, Bool, false, ◌≡◌, refl, ◌∙◌, ◌||◌, Option, none, some, List, [], ◌∷◌, ◌++◌, if◌then◌else◌,
  arith, any, All, keep_if,
}
use work_trace.Prelude.Texts.{◌==◌, eq_iff}
use work_trace.Decisions.Ledger.{DecisionRow, insert_row, order_from, ordered, select_row}

-- No key stands twice, as the primary key demands.
abbrev pub IsKeyed : List DecisionRow → Type 0
IsKeyed [] = Unit
IsKeyed (r ∷ rs) = (select_row r.id rs ≡ none) × IsKeyed rs

order_from-append :
    (sorted rows : List DecisionRow) (r : DecisionRow)
    → order_from sorted (rows ++ r ∷ []) ≡ insert_row r (order_from sorted rows)
unfolding order_from
order_from-append sorted [] r = refl
order_from-append sorted (s ∷ rows) r = order_from-append (insert_row s sorted) rows r

-- The query after an insertion is the query before it with the row put in its place.
pub ordered-append :
    (rows : List DecisionRow) (r : DecisionRow)
    → ordered (rows ++ r ∷ []) ≡ insert_row r (ordered rows)
unfolding ordered
ordered-append rows r = order_from-append [] rows r

pub any-insert_row :
    (p : DecisionRow → Bool) (r : DecisionRow) (rows : List DecisionRow)
    → any p (insert_row r rows) ≡ (p r || any p rows)
unfolding any insert_row
any-insert_row p r [] = refl
any-insert_row p r (s ∷ rows) = ground (arith, any-insert_row p r rows)

pub keep_if-insert_row :
    (p : DecisionRow → Bool) (r : DecisionRow) (rows : List DecisionRow)
    → p r ≡ false
    → keep_if p (insert_row r rows) ≡ keep_if p rows
unfolding keep_if insert_row
keep_if-insert_row p r [] h = ground arith
keep_if-insert_row p r (s ∷ rows) h = ground (arith, keep_if-insert_row p r rows h)

pub select-insert_row :
    (t : String) (r : DecisionRow) (rows : List DecisionRow)
    → select_row r.id rows ≡ none
    → select_row t (insert_row r rows) ≡ (if r.id == t then some r else select_row t rows)
unfolding select_row insert_row
select-insert_row t r [] h = refl
select-insert_row t r (s ∷ rows) h =
    ground (arith, select-insert_row t r rows, eq_iff s.id t, eq_iff r.id t, eq_iff s.id r.id)

pub select-append :
    (t : String) (r : DecisionRow) (rows : List DecisionRow)
    → select_row r.id rows ≡ none
    → select_row t (rows ++ r ∷ []) ≡ (if r.id == t then some r else select_row t rows)
unfolding select_row
select-append t r [] h = refl
select-append t r (s ∷ rows) h =
    ground (arith, select-append t r rows, eq_iff s.id t, eq_iff r.id t, eq_iff s.id r.id)

pub IsKeyed-append :
    (r : DecisionRow) (rows : List DecisionRow)
    → IsKeyed rows
    → select_row r.id rows ≡ none
    → IsKeyed (rows ++ r ∷ [])
unfolding select_row
IsKeyed-append r [] k h = (refl, tt)
IsKeyed-append r (s ∷ rows) k h = (
  ground (arith, select-append s.id r rows, eq_iff s.id r.id, eq_iff r.id s.id),
  IsKeyed-append r rows k.1 (ground arith),
)

-- No row of `rows` has the key of a row of `others`.
abbrev IsFresh : List DecisionRow → List DecisionRow → Type 0
IsFresh rows others = All (λ r. select_row r.id others ≡ none) rows

IsFresh-insert_row :
    (r : DecisionRow) (rows others : List DecisionRow)
    → select_row r.id rows ≡ none
    → select_row r.id others ≡ none
    → IsFresh rows others
    → IsFresh rows (insert_row r others)
unfolding select_row
IsFresh-insert_row r [] others h k f = tt
IsFresh-insert_row r (s ∷ rows) others h k f = (
  ground (arith, select-insert_row s.id r others, eq_iff s.id r.id, eq_iff r.id s.id),
  IsFresh-insert_row r rows others (ground arith) k f.1,
)

abbrev or_else {ℓ} : {A : Type ℓ} → Option A → Option A → Option A
or_else (some a) o = some a
or_else none o = o

select-order_from :
    (t : String) (sorted rows : List DecisionRow)
    → IsKeyed rows
    → IsFresh rows sorted
    → select_row t (order_from sorted rows) ≡ or_else (select_row t rows) (select_row t sorted)
unfolding select_row order_from
select-order_from t sorted [] k f = refl
select-order_from t sorted (r ∷ rows) k f =
    select-order_from t (insert_row r sorted) rows k.1
      (IsFresh-insert_row r rows sorted k.0 f.0 f.1)
    ∙ ground (arith, select-insert_row t r sorted f.0, eq_iff r.id t, k.0)

IsFresh-nil : (rows : List DecisionRow) → IsFresh rows []
unfolding select_row
IsFresh-nil [] = tt
IsFresh-nil (r ∷ rows) = (refl, IsFresh-nil rows)

-- With distinct keys a search finds the same row in the ordered query as in the table.
pub select-ordered :
    (t : String) (rows : List DecisionRow)
    → IsKeyed rows
    → select_row t (ordered rows) ≡ select_row t rows
unfolding ordered
select-ordered t rows k =
    select-order_from t [] rows k (IsFresh-nil rows) ∙ (unfold select_row in ground arith)
