-- ===== src/Archive/Metadata.antt =====
-- archive/jira/selector.py: the projection of an issue's metadata. `str(value)` of an integer is the
-- parameter `digits`, and `is_digits` is `str.isdigit`.
use work_trace.Prelude.{String, Bool, Option, none, some, List, [], ◌∷◌, ◌++◌, if◌then◌else◌}
use work_trace.Errors.{Result, ok, err, permanent_source_error}
use work_trace.Json.{ℤ, pos, Json, int, str, arr, Items, nil, cons, Fields, get, as_object, as_text}

pub record Relation : Type 0 where
  pub issue_id : Option String
  pub issue_key : Option String

pub record Link : Type 0 where
  pub link_id : Option String
  pub link_type_id : Option String
  pub link_type_name : Option String
  pub direction : String
  pub endpoint : Relation

pub record Attachment : Type 0 where
  pub attachment_id : String
  pub declared_size : Option ℤ
  pub mime_type : Option String

pub record Metadata : Type 0 where
  pub issue_id : String
  pub issue_key : String
  pub project_id : Option String
  pub project_key : String
  pub parent : Option Relation
  pub subtasks : List Relation
  pub issue_links : List Link
  pub attachments : List Attachment

module _ (digits : ℤ → String) (is_digits : String → Bool) where
  -- `_id`
  unfoldable pub id_text : Json → Option String
  id_text (int n) = some (digits n)
  id_text (str s) = if is_digits s then some s else none
  id_text _ = none

  -- `_relation`
  unfoldable pub relation_of : Option String → Option String → Option Relation
  relation_of none none = none
  relation_of id key = some (record { issue_id = id; issue_key = key })

  unfoldable pub relation : Fields → Option Relation
  relation value = relation_of (id_text (get "id" value)) (as_text (get "key" value))

  with_relation : Option Relation → List Relation → List Relation
  with_relation none rest = rest
  with_relation (some r) rest = r ∷ rest

  unfoldable pub relation_items : Items → List Relation
  unfolding with_relation
  relation_items nil = []
  relation_items (cons v vs) = with_relation (relation (as_object v)) (relation_items vs)

  -- `_relations`
  unfoldable pub relations : Json → List Relation
  relations (arr vs) = relation_items vs
  relations _ = []

  -- One direction of a link.
  unfoldable pub link_end : Fields → String → List Link
  link_end link direction = elim (relation (as_object (get direction link))) [
    | none ↦ []
    | some endpoint ↦
        record {
          link_id = as_text (get "id" link);
          link_type_id = as_text (get "id" (as_object (get "type" link)));
          link_type_name = as_text (get "name" (as_object (get "type" link)));
          direction = direction;
          endpoint = endpoint;
        }
        ∷ []
  ]

  unfoldable pub link_items : Items → List Link
  link_items nil = []
  link_items (cons v vs) =
      link_end (as_object v) "outwardIssue"
      ++ (link_end (as_object v) "inwardIssue" ++ link_items vs)

  -- `_links`
  unfoldable pub links : Json → List Link
  links (arr vs) = link_items vs
  links _ = []

  -- `size if isinstance(size, int) and size >= 0 else None`
  size_of : Json → Option ℤ
  size_of (int (pos n)) = some (pos n)
  size_of _ = none

  unfoldable pub attachment_items : Items → List Attachment
  unfolding size_of
  attachment_items nil = []
  attachment_items (cons v vs) =
      let item = as_object v in
      let rest = attachment_items vs in
      elim (id_text (get "id" item)) [
        | none ↦ rest
        | some id ↦
            record {
              attachment_id = id;
              declared_size = size_of (get "size" item);
              mime_type = as_text (get "mimeType" item);
            }
            ∷ rest
      ]

  -- `_attachments`
  unfoldable pub attachments : Json → List Attachment
  attachments (arr vs) = attachment_items vs
  attachments _ = []

  unfoldable pub identified :
      Option String → Option String → Option String → Fields → Result Metadata
  identified (some id) (some key) (some project_key) fields = ok (record {
    issue_id = id;
    issue_key = key;
    project_id = id_text (get "id" (as_object (get "project" fields)));
    project_key = project_key;
    parent = relation (as_object (get "parent" fields));
    subtasks = relations (get "subtasks" fields);
    issue_links = links (get "issuelinks" fields);
    attachments = attachments (get "attachment" fields);
  })
  identified _ _ _ fields =
      err (permanent_source_error "Jira preview issue omitted stable identity")

  unfoldable pub sanitize_metadata : Fields → Result Metadata
  sanitize_metadata raw =
      let fields = as_object (get "fields" raw) in
      identified (id_text (get "id" raw)) (as_text (get "key" raw))
        (as_text (get "key" (as_object (get "project" fields)))) fields
