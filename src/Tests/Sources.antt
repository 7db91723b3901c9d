-- ===== src/Tests/Sources.antt =====
-- Concrete inputs of the retry loop, the bounded reader, the roles and the candidate groups.
use mathlib.Core.Bool.{true≢false}
use work_trace.Prelude.{
  ◌||◌, ◌&&◌, not, true, ◌↔◌, ◌&&◌, zero, suc, take, drop, ℕ, ◌≤◌, ◌≡◌, ◌≢◌, refl, false, Option,
  none, some, List, [], ◌∷◌, ◌++◌, length, keep_if, any, if◌then◌else◌, ◌=?◌, not, All, arith,
}
use work_trace.Prelude.Texts.{◌==◌, elem, lookup, add, put, sorted, update}
use work_trace.Json.{pos, end, get, as_text, non_empty, texts}
use work_trace.Errors.{Result, ok, err, out_of_fuel}
use work_trace.Participation.{
  is_implementation_role, canonical_role, canonical_at, supports_category, has_category,
  categories_for, categories_of, same_category, or_none, RoleKey,
}
use work_trace.Participation.Implementation.{
  implementation_roles, authoring_keys, elem_key, same_key, is_implementation_role_iff,
}
use work_trace.Retry.Reading.{
  Bytes, Response, Zlib, read_bounded_response, exceeds, content_encoding, read_stream, read_chunks,
  read_chunk, decode_into, decode_bounded, decode, append_bounded, finish_reading, is_empty,
}
use work_trace.Retry.Reading.Bound.{read_bounded_response-IsBounded}
use work_trace.Retry.Reading.Ends.{IsLimited, read_bounded_response-ends}
use work_trace.Retry.Loop.{
  RetryPolicy, HeaderRules, finite, nan, clamped, parse_retry_after, outcome, request_with_retry,
  attempts_from, is_transient_status, delay_for, parsed_delay, reading,
}
use work_trace.Decisions.Ledger.{bump_revision}
use work_trace.Candidates.Objects.{
  Observed, Reference, RoleRow, qualifies, self_roles, implements, equals_one, find_object,
  has_review_role, is_boundary, is_empty_set, is_historical, linked_ids, mentions, roles_at,
  seed_priority, suggest_contribution_type,
}
use work_trace.Candidates.Search.{
  Search, add_context, add_member, edge_le, edges_at, insert_edge, is_skipped, pop, search,
  search_from, start, visit, visit_all,
}
use work_trace.Candidates.Groups.{
  CandidateGroup, GroupStore, Texts, rebuild_candidates, groups_from, seeds_of, sort_seeds,
  insert_seed, seed_le, group_of, retained_context, retained_members, title_of,
}
use work_trace.Candidates.Search.Path.{IsNear}
use work_trace.Candidates.Groups.Exact.{group_of-IsNear}
use work_trace.Candidates.Groups.Retained.{group_of-whole}
use work_trace.Candidates.Groups.Partition.{IsFit, Apart, rebuild_candidates-Built}

-- A decoder that gives its input back, up to its limit.
abbrev plain : Zlib
plain = record {
  State = Bytes;
  decompressobj = λ bits. [];
  decompress = λ decoder input limit. some (drop limit input, take limit input);
  unconsumed_tail = λ decoder. decoder;
  unused_data = λ decoder. [];
  eof = λ decoder. is_empty decoder;
}

abbrev answer : ℕ → Response
answer status = record {
  status_code = status;
  declared_length = some 3;
  content_encodings = "gzip" ∷ [];
  retry_after = some "7";
  is_stream_consumed = false;
  content = [];
  raw_chunks = (1 ∷ 2 ∷ []) ∷ (3 ∷ []) ∷ [];
  is_broken = false;
}

program : Unit {0}
unfolding read_bounded_response exceeds content_encoding read_stream read_chunks read_chunk
    decode_into decode_bounded decode append_bounded finish_reading is_empty elem lookup
program = tt

reading_run : read_bounded_response plain 10000001 (answer 200) ≡ ok (1 ∷ 2 ∷ 3 ∷ [])
unfolding program
reading_run = refl

read_bounded_response-IsBounded_example : 3 ≤ 10000000
read_bounded_response-IsBounded_example =
    read_bounded_response-IsBounded plain 10000001 (answer 200) reading_run

length-take_of_drop :
    (n : ℕ) (input : Bytes) → is_empty (drop n input) ≡ false → length (take n input) ≡ n
unfolding is_empty
length-take_of_drop zero input h = refl
length-take_of_drop (suc n) [] h = elim (true≢false h) [ ]
length-take_of_drop (suc n) (x ∷ xs) h = omega (arith, length-take_of_drop n xs h)

plain-IsLimited : IsLimited plain
plain-IsLimited decoder input limit after chunk h e =
    ground (arith, h, e, length-take_of_drop limit input)

read_bounded_response-ends_example :
    read_bounded_response plain 10000001 (answer 200) ≢ err out_of_fuel
read_bounded_response-ends_example =
    read_bounded_response-ends plain 10000001 (answer 200) plain-IsLimited (omega arith)

-- The client is busy once, and the random sample is one half.
abbrev policy : RetryPolicy
policy = record { max_attempts = 5; base_delay = 250; max_delay = 4000 }

abbrev busy_once : ℕ → Option Response
busy_once n = if n =? 1 then some (answer 429) else some (answer 200)

abbrev read : Response → Result Bytes
read = read_bounded_response plain 10000001

-- The header "7" is a number, "nan" is NaN.
abbrev header_rules : HeaderRules
header_rules = record {
  to_float = λ text. if text == "nan" then some nan else some (finite (pos 7));
  seconds_until = λ text. none;
}

retry_run :
    request_with_retry read false header_rules (λ n. 500) busy_once policy
    ≡ (record { sent = 2; sleeps = 7 ∷ [] }, ok (1 ∷ 2 ∷ 3 ∷ []))
unfolding program request_with_retry attempts_from outcome is_transient_status delay_for clamped
    parse_retry_after parsed_delay reading
retry_run = refl

abbrev comment_key : RoleKey
comment_key = ("jira", "jira_issue_comment", "git_author")

is_implementation_role_iff_example :
    is_implementation_role (λ s. s) (λ s. s) "jira" "jira_issue_comment" "git_author" ≡ (
      elem_key comment_key authoring_keys
      || (elem "git_author" implementation_roles
          && not (same_key ("git", "git_tag", "git_author") comment_key)))
is_implementation_role_iff_example =
    is_implementation_role_iff (λ s. s) (λ s. s) "jira" "jira_issue_comment" "git_author"

abbrev merge_request : Observed
merge_request = record {
  source_object_id = "mr:1";
  kind = "gitlab_mr";
  external_id = "1";
  title = some "Fix the crash";
  payload = end;
}

abbrev commit : Observed
commit = record {
  source_object_id = "commit:1";
  kind = "git_commit";
  external_id = "abc";
  title = none;
  payload = end;
}

abbrev objects : List Observed
objects = merge_request ∷ commit ∷ []

abbrev references : List Reference
references =
    record {
      from_object_id = "mr:1";
      to_object_id = "commit:1";
      relationship_type = "mr_contains_commit";
    }
    ∷ []

abbrev participations : List RoleRow
participations =
    record { source_object_id = "mr:1"; source = "gitlab"; kind = "gitlab_mr"; role = "author" }
    ∷ record { source_object_id = "commit:1"; source = "git"; kind = "git_commit"; role = "author" }
    ∷ []

abbrev same_texts : Texts
same_texts = record {
  casefold = λ s. s;
  strip = λ s. s;
  lower = λ s. s;
  stable_id = λ app seed. seed;
}

abbrev store : GroupStore
store = record { groups = []; read_revision = ("app", 1) ∷ [] }

rebuild_candidates-Built_example :
    (groups : List CandidateGroup) × (rebuild_candidates same_texts "app" objects references
        participations store
      ≡ ok (
        record {
          groups = keep_if (λ g. not (g.app_id == "app")) store.groups ++ groups;
          read_revision = bump_revision "app" store.read_revision;
        },
        length groups,
      ))
    × All (IsFit objects references "app") groups
    × Apart objects references groups
rebuild_candidates-Built_example =
    rebuild_candidates-Built same_texts "app" objects references participations store

abbrev found : Search
found = record { members = "mr:1" ∷ "commit:1" ∷ []; context = []; queue = []; overflow = false }

search_run : search_from objects references "mr:1" ≡ some found
unfolding program search_from search start find_object visit visit_all edges_at edge_le insert_edge
    is_skipped add_member add_context is_boundary pop get
search_run = refl

group_of-whole_example :
    let group = group_of same_texts "app" objects references merge_request found in
    (group.status ≡ "candidate")
    × (elem "commit:1" group.members ≡ elem "commit:1" found.members)
    × (elem "commit:1" group.context
        ≡ (elem "commit:1" found.context && not (elem "commit:1" found.members)))
group_of-whole_example =
    group_of-whole same_texts "app" objects references merge_request "commit:1" search_run refl

group_of-IsNear_example :
    (elem "commit:1" (group_of same_texts "app" objects references merge_request found).members
      ≡ true)
    ↔ IsNear objects references "mr:1" "commit:1"
group_of-IsNear_example =
    group_of-IsNear same_texts "app" objects references merge_request "commit:1" search_run refl

rebuild_run :
    rebuild_candidates same_texts "app" objects references participations store
    ≡ ok (
      record {
        groups =
            record {
              id = "mr:1";
              app_id = "app";
              seed_object_id = "mr:1";
              suggested_title = "Fix the crash";
              suggested_type = "bug_fix";
              status = "candidate";
              members = "mr:1" ∷ "commit:1" ∷ [];
              context = [];
            }
            ∷ [];
        read_revision = ("app", 2) ∷ [];
      },
      1,
    )
unfolding program rebuild_candidates groups_from seeds_of sort_seeds keep_if qualifies self_roles
    canonical_role canonical_at insert_seed implements supports_category has_category categories_for
    categories_of same_category seed_le group_of retained_context retained_members title_of
    equals_one find_object has_review_role is_boundary is_empty_set is_historical linked_ids
    mentions roles_at seed_priority suggest_contribution_type add_context add_member edge_le
    edges_at insert_edge is_skipped pop search search_from start visit visit_all bump_revision
    as_text get non_empty texts or_none any add put sorted update
rebuild_run = refl
