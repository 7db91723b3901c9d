-- ===== src/Server/Values.antt =====
-- JSON objects as the responses of mcp_server/ build them: assignment, slices, truth, and the length
-- of `json.dumps(value, ensure_ascii=True, sort_keys=True, separators=(",", ":"))`. A text is a list
-- of characters here.
use Prim.Native.Char.{code}
use Prim.Native.String.{[], ◌∷◌}
use work_trace.Prelude.{
  ℕ, zero, suc, ◌+◌, ◌/◌, leb, ◌=?◌, String, Bool, true, false, not, ◌||◌, ◌&&◌, if◌then◌else◌, ◌≡◌,
  refl, arith,
}
use work_trace.Prelude.Texts.{◌==◌, eq_iff}
use work_trace.Json.{
  pos, negsuc, Json, null, bool, int, float, str, arr, obj, Items, nil, cons, Fields, end, field,
  get, has_key,
}

-- `value[:n]` of a text
unfoldable pub take_text : ℕ → String → String
take_text zero s = []
take_text (suc n) [] = []
take_text (suc n) (c ∷ s) = c ∷ take_text n s

-- `payload[key] = value`
unfoldable pub set : String → Json → Fields → Fields
set k v end = field k v end
set k v (field j w fs) = if j == k then field j v fs else field j w (set k v fs)

-- `{key: value for key, value in item.items() if key in retained}`
unfoldable pub keep_fields : (String → Bool) → Fields → Fields
keep_fields p end = end
keep_fields p (field k v fs) = if p k then field k v (keep_fields p fs) else keep_fields p fs

-- `[*items, item]`
unfoldable pub append_item : Items → Json → Items
append_item nil v = cons v nil
append_item (cons w ws) v = cons w (append_item ws v)

-- `len(items)`
unfoldable pub count_items : Items → ℕ
count_items nil = 0
count_items (cons v vs) = suc (count_items vs)

-- `value if isinstance(value, list) else []`
unfoldable pub list_of : Json → Items
list_of (arr vs) = vs
list_of _ = nil

-- `info.get(key, default)`, where a null that is there is kept.
unfoldable pub get_or : String → Json → Fields → Json
get_or k default fs = if has_key k fs then get k fs else default

-- `bool(value)`
unfoldable pub truthy : Json → Bool
truthy null = false
truthy (bool b) = b
truthy (int (pos zero)) = false
truthy (int _) = true
truthy (float s) = not (s == "0.0" || s == "-0.0")
truthy (str s) = not (s == "")
truthy (arr nil) = false
truthy (arr _) = true
truthy (obj end) = false
truthy (obj _) = true

-- The characters that one character of a text is written with.
escaped : ℕ → ℕ
escaped c =
    if (c =? 34) || (c =? 92)
    then 2
    else if leb 32 c && leb c 126
    then 1
    else if (leb 8 c && leb c 10) || (c =? 12) || (c =? 13)
    then 2
    else if leb c 65535
    then 6
    else 12

escaped_size : String → ℕ
escaped_size [] = 0
escaped_size (c ∷ s) = escaped (code c) + escaped_size s

digits_within : ℕ → ℕ → ℕ
digits_within zero n = 1
digits_within (suc fuel) n =
    let more = digits_within fuel (n / 10) in if leb n 9 then 1 else suc more

-- A number has at most as many digits as it counts, or one.
digits : ℕ → ℕ
digits n = digits_within n n

text_size : String → ℕ
text_size s = escaped_size s + 2

length_of : String → ℕ
length_of [] = 0
length_of (c ∷ s) = suc (length_of s)

-- `serialized_size`: with the commas between the parts of a list or an object.
unfoldable mutual
  unfolding text_size digits length_of digits_within escaped_size escaped

  pub serialized_size : Json → ℕ
  serialized_size null = 4
  serialized_size (bool true) = 4
  serialized_size (bool false) = 5
  serialized_size (int (pos n)) = digits n
  serialized_size (int (negsuc n)) = suc (digits (suc n))
  serialized_size (float s) = length_of s
  serialized_size (str s) = text_size s
  serialized_size (arr nil) = 2
  serialized_size (arr (cons v vs)) = suc (serialized_size v + items_size vs)
  serialized_size (obj end) = 2
  serialized_size (obj (field k v fs)) = suc (text_size k + 1 + serialized_size v + fields_size fs)

  items_size : Items → ℕ
  items_size nil = 1
  items_size (cons v vs) = suc (serialized_size v + items_size vs)

  fields_size : Fields → ℕ
  fields_size end = 1
  fields_size (field k v fs) = suc (text_size k + 1 + serialized_size v + fields_size fs)

-- `len(text)`
unfoldable pub text_length : String → ℕ
unfolding length_of
text_length s = length_of s

pub get-set :
    (j k : String) (v : Json) (fs : Fields) → get j (set k v fs) ≡ (if k == j then v else get j fs)
unfolding get set
get-set j k v end = refl
get-set j k v (field i w fs) = ground (arith, eq_iff k j, eq_iff i k, eq_iff i j, get-set j k v fs)

pub get-same : (k : String) (v : Json) (fs : Fields) → get k (set k v fs) ≡ v
get-same k v fs = ground (arith, get-set k k v fs, eq_iff k k)

pub get-other :
    (j k : String) (v : Json) (fs : Fields) → (k == j) ≡ false → get j (set k v fs) ≡ get j fs
get-other j k v fs other = ground (arith, get-set j k v fs, other)

pub get-set_if :
    (b : Bool) (j k : String) (v : Json) (fs : Fields)
    → (k == j) ≡ false
    → get j (if b then set k v fs else fs) ≡ get j fs
get-set_if true j k v fs other = get-other j k v fs other
get-set_if false j k v fs other = refl
