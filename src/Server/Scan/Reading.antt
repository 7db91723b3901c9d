-- ===== src/Server/Scan/Reading.antt =====
-- Following the cursors of `list_contribution_candidates` (mcp_server/tools.py) through the pages.
use work_trace.Prelude.{
  ◌<◌, String, Option, some, List, [], ◌∷◌, ◌++◌, map, ◌≡◌, ◌⊎◌, inl, inr, refl, sym, ap, ◌∙◌,
}
use mathlib.Core.Path.{subst}
use mathlib.Core.List.{append-nil}
use work_trace.Prelude.Texts.{elem}
use work_trace.Errors.{Error, ok, err}
use work_trace.Json.{null, str, arr, Fields, get}
use work_trace.Server.Values.{get-other}
use work_trace.Server.Envelopes.{Position, TextRules, error_of, get-copy_keys}
use work_trace.Server.Pages.{items_of}
use work_trace.Server.Pages.Delivery.{Delivers, nothing, excluded, whole, compact}
use work_trace.Server.Scan.{CandidateRow}
use work_trace.Server.Scan.Order.{IsOrdered}
use work_trace.Server.Scan.Advance.{
  Listing, shown_by, remaining, page_after, cursor_for, Advance, page_after-Advance,
}

-- A reader shows the items of each page and goes on at the page's cursor, which `read_cursor` decodes.
pub data Reads (l : Listing) (read_cursor : String → Option String)
    : Option String → List Fields → Type 0 where
  last_page :
      (after : Option String) (page : Fields) (shown : List Fields)
      → page_after l after ≡ ok page
      → get "candidates" page ≡ arr (items_of shown)
      → get "next_cursor" page ≡ null
      → Reads l read_cursor after shown
  next_page :
      (after : Option String) (page : Fields) (shown : List Fields) (cursor id : String)
      {more : List Fields}
      → page_after l after ≡ ok page
      → get "candidates" page ≡ arr (items_of shown)
      → get "next_cursor" page ≡ str cursor
      → read_cursor cursor ≡ some id
      → Reads l read_cursor (some id) more
      → Reads l read_cursor after (shown ++ more)

-- A reader meets an error response on the way, or an error that the making of a cursor raises.
pub data Refused (l : Listing) (read_cursor : String → Option String) : Option String → Type 0 where
  here :
      (after : Option String) (fs : Fields)
      → page_after l after ≡ ok (error_of fs)
      → Refused l read_cursor after
  unmade :
      (after : Option String) (e : Error) (p : Position)
      → page_after l after ≡ err e
      → l.make_cursor p ≡ err e
      → Refused l read_cursor after
  later :
      (after : Option String) (page : Fields) (cursor id : String)
      → page_after l after ≡ ok page
      → get "next_cursor" page ≡ str cursor
      → read_cursor cursor ≡ some id
      → Refused l read_cursor (some id)
      → Refused l read_cursor after

-- Decoding gives the position that was encoded.
abbrev pub IsCodec : Listing → (String → Option String) → Type 0
IsCodec l read_cursor =
    (id cursor : String) → cursor_for l id ≡ ok cursor → read_cursor cursor ≡ some id

Delivers-append :
    (rules : TextRules) {xs ys : List (Option Fields)} {shown more : List Fields}
    → Delivers rules xs shown
    → Delivers rules ys more
    → Delivers rules (xs ++ ys) (shown ++ more)
Delivers-append rules nothing rest = rest
Delivers-append rules (excluded first) rest = excluded (Delivers-append rules first rest)
Delivers-append rules (whole raw first) rest = whole raw (Delivers-append rules first rest)
Delivers-append rules (compact raw first) rest = compact raw (Delivers-append rules first rest)

map-append :
    (l : Listing) (xs ys : List CandidateRow)
    → map (shown_by l) (xs ++ ys) ≡ map (shown_by l) xs ++ map (shown_by l) ys
map-append l [] ys = refl
map-append l (x ∷ xs) ys =
    ap (λ (os : List (Option Fields)). shown_by l x ∷ os) (map-append l xs ys)

items_of_injective : (xs ys : List Fields) → items_of xs ≡ items_of ys → xs ≡ ys
unfolding items_of
items_of_injective [] [] e = refl
items_of_injective [] (y ∷ ys) e = absurd (cc)
items_of_injective (x ∷ xs) [] e = absurd (cc)
items_of_injective (x ∷ xs) (y ∷ ys) e =
    let head : x ≡ y = cc in
    let tail = items_of_injective xs ys (cc) in
    ap (λ (z : Fields). z ∷ xs) head ∙ ap (λ (zs : List Fields). y ∷ zs) tail

get-error_of : (fs : Fields) → get "candidates" (error_of fs) ≡ null
unfolding error_of elem
get-error_of fs =
    get-other "candidates" "response_truncated" _ _ refl
    ∙ get-other "candidates" "error" _ _ refl
    ∙ get-copy_keys "candidates" ("app_id" ∷ "view_token" ∷ "read_model_version" ∷ []) fs refl

-- A page with a list of items is no error response, so it advances and shows what it took.
advance :
    (l : Listing) (after : Option String) (page : Fields) (shown : List Fields)
    → IsOrdered l.table
    → 0 < l.limit
    → page_after l after ≡ ok page
    → get "candidates" page ≡ arr (items_of shown)
    → (a : Advance l after page) × (Delivers l.rules (map (shown_by l) a.taken) shown)
advance l after page shown ordered some_room done holds =
    elim (page_after-Advance l ordered some_room after page done) [
      | inl (fs, refusal) ↦
          let empty = sym holds ∙ ap (get "candidates") refusal ∙ get-error_of fs in absurd (cc)
      | inr a ↦
          let same = items_of_injective a.delivered shown (let both = sym a.lists ∙ holds in cc) in
          (a, subst (Delivers l.rules (map (shown_by l) a.taken)) same a.delivers)
    ]

-- On a table in the order of its ids, with a limit above zero and a codec that gives positions
-- back, a reader that follows the cursors from a position to the last page is shown exactly the
-- items that the rows after the position have, in order, each whole or in its minimal form: no
-- eligible row is skipped or shown twice.
pub Reads-Delivers :
    (l : Listing) (read_cursor : String → Option String) {after : Option String}
    {items : List Fields}
    → IsOrdered l.table
    → 0 < l.limit
    → IsCodec l read_cursor
    → Reads l read_cursor after items
    → Delivers l.rules (map (shown_by l) (remaining l after)) items
Reads-Delivers l read_cursor ordered some_room codec (last_page after page shown done holds ends) =
    let (a, delivers) = advance l after page shown ordered some_room done holds in
    elim a.goes_on [
      | inl (_, none_left) ↦
          subst (λ (rs : List CandidateRow). Delivers l.rules (map (shown_by l) rs) shown)
            (sym (append-nil a.taken)
              ∙ ap (λ (rs : List CandidateRow). a.taken ++ rs) (sym none_left)
              ∙ sym a.splits)
            delivers
      | inr (id, cursor, _, more, _, _) ↦ let both = sym ends ∙ more in absurd (cc)
    ]
Reads-Delivers l read_cursor ordered some_room codec
      (next_page after page shown cursor id {more} done holds goes decoded rest) =
    let (a, delivers) = advance l after page shown ordered some_room done holds in
    elim a.goes_on [
      | inl (ends, _) ↦ let both = sym ends ∙ goes in absurd (cc)
      | inr (id', cursor', made, goes', left, _) ↦
          let same : cursor' ≡ cursor = let both = sym goes' ∙ goes in cc in
          let here : id' ≡ id =
            let both = sym (codec id' cursor' made) ∙ ap read_cursor same ∙ decoded in cc in
          subst (λ (rs : List (Option Fields)). Delivers l.rules rs (shown ++ more))
            (sym (map-append l a.taken (remaining l (some id)))
              ∙ ap (λ (rs : List CandidateRow). map (shown_by l) (a.taken ++ rs))
                  (ap (λ (i : String). remaining l (some i)) (sym here) ∙ left)
              ∙ ap (map (shown_by l)) (sym a.splits))
            (Delivers-append l.rules delivers
              (Reads-Delivers l read_cursor ordered some_room codec rest))
    ]

abbrev pub Ends : (l : Listing) → (String → Option String) → Option String → Type 0
Ends l read_cursor after =
    ((items : List Fields) × Reads l read_cursor after items) ⊎ Refused l read_cursor after
