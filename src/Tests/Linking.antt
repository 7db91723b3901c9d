-- ===== src/Tests/Linking.antt =====
-- A merge request whose commit a configured mapping connects with the local clone.
use work_trace.Prelude.{ℕ, String, Bool, true, List, [], ◌∷◌, ◌≡◌, ◌↔◌, ◌=?◌, if◌then◌else◌}
use work_trace.Prelude.Texts.{elem}
use work_trace.Json.{Json, str, Fields, end, field, get}
use work_trace.Linking.Mappings.{AppConfig, reference_mapping_allowed}
use work_trace.Linking.Mappings.Admitted.{
  IsMappingMethod, IsSameSha, AreMapped, reference_mapping_allowed_iff,
}

abbrev same_text : String → String
same_text s = s

abbrev two_digests : List String → String
two_digests parts = if elem "gitlab" parts then "aaaa" else "bbbb"

abbrev one_number : ℕ → String
one_number n = if n =? 7 then "7" else "0"

abbrev app : AppConfig
app = record {
  id = "app";
  gitlab_repository_mappings = record { repo_path = "/clone"; gitlab_project_id = 7 } ∷ [];
}

abbrev full_id : Json
full_id = str "0123456789abcdef0123456789abcdef01234567"

abbrev stored : Fields
stored = field "relationship_type" (str "mapped_commit_sha") (
    field "extraction_method" (str "explicit_repo_project_full_sha:v1")
      (field "exact_value" full_id end))

abbrev merge_request : Fields
merge_request = field "source" (str "gitlab") (field "source_instance" (str "source:aaaa") end)

abbrev commit : Fields
commit = field "source" (str "git") (
    field "kind" (str "git_commit")
      (field "external_id" full_id (field "source_instance" (str "source:bbbb") end)))

abbrev allowed : Bool
allowed = reference_mapping_allowed same_text two_digests one_number app stored merge_request commit

reference_mapping_allowed_iff_example : (allowed ≡ true) ↔ (
    (get "relationship_type" stored ≡ str "mapped_commit_sha")
    × IsMappingMethod (get "extraction_method" stored)
    × IsSameSha same_text (get "exact_value" stored) (get "external_id" commit)
    × AreMapped two_digests one_number app merge_request commit)
reference_mapping_allowed_iff_example =
    reference_mapping_allowed_iff same_text two_digests one_number app stored merge_request commit
