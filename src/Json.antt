-- ===== src/Json.antt =====
-- Values of `json.loads`, and how the program reads an object that may lack a key or hold a value
-- of another type there (candidates/decisions.py, packets/, archive/jira/selector.py). An object is
-- the dictionary after parsing, so no key of it repeats; a float is kept as its text.
use work_trace.Prelude.{
  ℕ, suc, ◌||◌, String, Bool, true, false, not, Option, none, some, List, [], ◌∷◌, if◌then◌else◌,
}
use work_trace.Prelude.Texts.{◌==◌}

-- `negsuc n` is -(n + 1).
pub data ℤ : Type 0 where
  pos : ℕ → ℤ
  negsuc : ℕ → ℤ

mutual
  pub data Json : Type 0 where
    null : Json
    bool : Bool → Json
    int : ℤ → Json
    float : String → Json
    str : String → Json
    arr : Items → Json
    obj : Fields → Json

  pub data Items : Type 0 where
    nil : Items
    cons : Json → Items → Items

  pub data Fields : Type 0 where
    end : Fields
    field : String → Json → Fields → Fields

-- `payload.get(key)`, where a missing key and a null are the same.
unfoldable pub get : String → Fields → Json
get k end = null
get k (field j v fs) = if j == k then v else get k fs

-- `dict(parsed) if isinstance(parsed, dict) else {}`
unfoldable pub as_object : Json → Fields
as_object (obj fs) = fs
as_object _ = end

-- `value if isinstance(value, str) and value else None`
unfoldable pub non_empty : String → Option String
non_empty s = if s == "" then none else some s

unfoldable pub as_text : Json → Option String
unfolding non_empty
as_text (str s) = non_empty s
as_text _ = none

-- `[str(v) for v in values if isinstance(v, str) and v] if isinstance(values, list) else []`
item_texts : Items → List String
item_texts nil = []
item_texts (cons v vs) = elim (as_text v) [ some s ↦ s ∷ item_texts vs | none ↦ item_texts vs ]

unfoldable pub texts : Json → List String
unfolding item_texts as_text
texts (arr vs) = item_texts vs
texts _ = []

-- `value is not None and value != text`
unfoldable pub contradicts : Json → String → Bool
contradicts null t = false
contradicts (str s) t = not (s == t)
contradicts _ t = true

-- `len(value)` of a dictionary, and `key in value`.
unfoldable pub size : Fields → ℕ
size end = 0
size (field k v fs) = suc (size fs)

unfoldable pub has_key : String → Fields → Bool
has_key k end = false
has_key k (field j v fs) = j == k || has_key k fs
