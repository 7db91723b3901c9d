-- ===== src/Linking/Mappings.antt =====
-- linking/mappings.py: the explicit mapping of GitLab projects to local repositories, with
-- `source_instance_id` of db/repository.py. An object or a reference is its dictionary. The parameters
-- are `str.casefold`, the hexadecimal SHA-256 of texts that are join_texts by "\x1f", and `str` of a
-- project's number.
pub mod Admitted
use Prim.Native.Char.{code}
use Prim.Native.String.{[], ◌∷◌, ◌++◌ as ◌<>◌}
use work_trace.Prelude.{
  ℕ, leb, ◌=?◌, String, Bool, true, false, not, ◌||◌, ◌&&◌, Option, none, some, List, [], ◌∷◌, any,
  if◌then◌else◌,
}
use work_trace.Prelude.Texts.{◌==◌}
use work_trace.Json.{Json, str, Fields, get, contradicts}
use work_trace.Server.Values.{text_length, take_text}
use work_trace.Server.Patterns.{starts_with}

pub record RepositoryMapping : Type 0 where
  pub repo_path : String
  pub gitlab_project_id : ℕ

-- The fields of an app's configuration that linking reads.
pub record AppConfig : Type 0 where
  pub id : String
  pub gitlab_repository_mappings : List RepositoryMapping

-- `[0-9a-fA-F]*`
unfoldable pub all_hex : String → Bool
all_hex [] = true
all_hex (c ∷ s) =
    ((leb 48 (code c) && leb (code c) 57)
      || (leb 97 (code c) && leb (code c) 102)
      || (leb 65 (code c) && leb (code c) 70))
    && all_hex s

-- `_FULL_SHA_RE.fullmatch(value)`
unfoldable pub is_full_sha : String → Bool
unfolding all_hex
is_full_sha s = ((text_length s =? 40) || (text_length s =? 64)) && all_hex s

-- `value == text`
unfoldable pub is_value : Json → String → Bool
is_value (str s) t = s == t
is_value _ t = false

module _ (digest : List String → String) where
  unfoldable pub stable_id : String → List String → String
  stable_id prefix parts = prefix <> (":" <> take_text 24 (digest parts))

  unfoldable pub source_instance_id : String → String → String → String
  source_instance_id app_id source identifier =
      stable_id "source" (app_id ∷ source ∷ identifier ∷ [])

module _ (casefold : String → String) where
  -- `_full_sha`
  unfoldable pub full_sha : Json → Option String
  full_sha (str s) = if is_full_sha (casefold s) then some (casefold s) else none
  full_sha _ = none

module _ (digest : List String → String) (digits : ℕ → String) where
  -- `source_pair in mapped_source_instance_pairs(app)`, one mapping
  unfoldable pub is_pair : AppConfig → String → String → RepositoryMapping → Bool
  is_pair app a b mapping =
      (source_instance_id digest app.id "gitlab" (digits mapping.gitlab_project_id) == a)
      && (source_instance_id digest app.id "git" mapping.repo_path == b)

  unfoldable pub is_mapped_pair : AppConfig → Json → Json → Bool
  is_mapped_pair app (str a) (str b) = any (is_pair app a b) app.gitlab_repository_mappings
  is_mapped_pair app _ _ = false

  -- The tests on the objects, behind those on the SHAs.
  unfoldable pub objects_allowed : AppConfig → Fields → Fields → Bool
  objects_allowed app from_object to_object =
      is_value (get "source" from_object) "gitlab"
      && is_value (get "source" to_object) "git"
      && is_value (get "kind" to_object) "git_commit"
      && not (contradicts (get "app_id" from_object) app.id)
      && not (contradicts (get "app_id" to_object) app.id)
      && is_mapped_pair app (get "source_instance" from_object) (get "source_instance" to_object)

-- The tests on the SHAs: two equal texts have the same length.
unfoldable pub same_sha : Option String → Option String → Bool
same_sha (some sha) (some target_sha) = sha == target_sha
same_sha _ _ = false

-- `isinstance(method, str) and method.startswith(_METHOD_PREFIX)`
unfoldable pub is_mapping_method : Json → Bool
is_mapping_method (str method) = starts_with method "explicit_repo_project_full_sha:"
is_mapping_method _ = false

module _ (casefold : String → String) (digest : List String → String) (digits : ℕ → String) where
  unfoldable pub mapped_commit_sha_allowed : AppConfig → Fields → Fields → Json → Bool
  mapped_commit_sha_allowed app from_object to_object exact_value =
      if same_sha (full_sha casefold exact_value) (full_sha casefold (get "external_id" to_object))
      then objects_allowed digest digits app from_object to_object
      else false

  unfoldable pub reference_mapping_allowed : AppConfig → Fields → Fields → Fields → Bool
  reference_mapping_allowed app reference from_object to_object =
      if not (is_value (get "relationship_type" reference) "mapped_commit_sha")
      then false
      else if not (is_mapping_method (get "extraction_method" reference))
      then false
      else mapped_commit_sha_allowed app from_object to_object (get "exact_value" reference)
