-- ===== src/Participation.antt =====
-- participation.py: the roles that the sources report, their canonical names, and the categories of
-- contribution that a canonical role supports. `casefold` and `strip` are Python's, over Unicode.
pub mod Implementation
use work_trace.Prelude.{
  String, Bool, true, not, is_some, refl, ◌≡◌, ◌||◌, ◌&&◌, Option, none, some, List, [], ◌∷◌,
  if◌then◌else◌,
}
use work_trace.Prelude.Texts.{◌==◌, eq_iff, elem, lookup}
use work_trace.Prelude.{arith}

pub data ParticipationCategory : Type 0 where
  implemented reviewed assigned merged deployed release_associated context : ParticipationCategory

unfoldable pub same_category : ParticipationCategory → ParticipationCategory → Bool
same_category implemented implemented = Bool.true
same_category reviewed reviewed = Bool.true
same_category assigned assigned = Bool.true
same_category merged merged = Bool.true
same_category deployed deployed = Bool.true
same_category release_associated release_associated = Bool.true
same_category context context = Bool.true
same_category _ _ = Bool.false

-- A source, a kind of object and a role as the source reports it.
abbrev pub RoleKey : Type 0
RoleKey = String × String × String

abbrev pub canonical_by_source_kind_role : List (RoleKey × String)
canonical_by_source_kind_role =
    (("git", "git_commit", "author"), "git_author")
    ∷ (("git", "git_commit", "co_author"), "git_coauthor")
    ∷ (("git", "git_commit", "committer"), "git_committer")
    ∷ (("git", "git_commit", "reviewer"), "git_reviewer")
    ∷ (("git", "git_tag", "author"), "git_tag_author")
    ∷ (("git", "git_tag", "git_author"), "git_tag_author")
    ∷ (("gitlab", "gitlab_mr", "author"), "mr_author")
    ∷ (("gitlab", "gitlab_mr", "assignee"), "mr_assignee")
    ∷ (("gitlab", "gitlab_mr", "reviewer"), "mr_reviewer")
    ∷ (("gitlab", "gitlab_mr", "merger"), "mr_merger")
    ∷ (("gitlab", "gitlab_merge_request_commit", "author"), "gitlab_commit_author")
    ∷ (("gitlab", "gitlab_merge_request_commit", "co_author"), "gitlab_commit_coauthor")
    ∷ (("gitlab", "gitlab_merge_request_commit", "committer"), "gitlab_commit_committer")
    ∷ (("gitlab", "gitlab_merge_request_commit", "reviewer"), "gitlab_commit_reviewer")
    ∷ (("gitlab", "gitlab_discussion", "author"), "gitlab_discussion_author")
    ∷ (("gitlab", "gitlab_merge_request_discussion_note", "author"), "gitlab_discussion_author")
    ∷ (("gitlab", "git_deployment", "deployer"), "gitlab_deployer")
    ∷ (("gitlab", "gitlab_release", "release_author"), "gitlab_release_author")
    ∷ (("gitlab", "gitlab_release", "author"), "gitlab_release_author")
    ∷ (("jira", "jira_issue", "assignee"), "jira_assignee")
    ∷ (("jira", "jira_issue", "reporter"), "jira_reporter")
    ∷ (("jira", "jira_issue", "creator"), "jira_creator")
    ∷ (("jira", "jira_issue_comment", "author"), "jira_comment_author")
    ∷ (("jira", "jira_issue_comment", "editor"), "jira_comment_editor")
    ∷ (("jira", "jira_issue_changelog", "author"), "jira_changelog_author")
    ∷ (("jira", "jira_issue_changelog", "assignee"), "jira_assignee")
    ∷ []

abbrev pub categories_of_role : List (String × List ParticipationCategory)
categories_of_role =
    ("git_author", implemented ∷ [])
    ∷ ("git_tag_author", release_associated ∷ [])
    ∷ ("git_coauthor", implemented ∷ [])
    ∷ ("git_reviewer", reviewed ∷ [])
    ∷ ("mr_author", context ∷ [])
    ∷ ("mr_assignee", assigned ∷ [])
    ∷ ("mr_reviewer", reviewed ∷ [])
    ∷ ("mr_merger", merged ∷ [])
    ∷ ("gitlab_commit_author", implemented ∷ [])
    ∷ ("gitlab_commit_coauthor", implemented ∷ [])
    ∷ ("gitlab_commit_reviewer", reviewed ∷ [])
    ∷ ("gitlab_deployer", deployed ∷ [])
    ∷ ("gitlab_release_author", release_associated ∷ [])
    ∷ ("jira_assignee", assigned ∷ [])
    ∷ []

unfoldable pub canonical_at : RoleKey → List (RoleKey × String) → Option String
canonical_at key [] = none
canonical_at (source, kind, role) (((s, k, r), name) ∷ rest) =
    if s == source && (k == kind && r == role)
    then some name
    else canonical_at (source, kind, role) rest

unfoldable pub has_category : ParticipationCategory → List ParticipationCategory → Bool
has_category c [] = Bool.false
has_category c (d ∷ ds) = same_category d c || has_category c ds

unfoldable pub or_none : Option (List ParticipationCategory) → List ParticipationCategory
or_none none = []
or_none (some cs) = cs

unfoldable pub categories_of : String → List ParticipationCategory
unfolding lookup or_none
categories_of name = or_none (lookup name categories_of_role)

module _ (casefold strip : String → String) where
  -- The test of _KNOWN_CANONICAL has the same result on both branches.
  unfoldable pub canonical_role : String → String → String → String
  canonical_role source kind role =
      let normalized = casefold (strip role) in
      elim (canonical_at (casefold source, casefold kind, normalized)
        canonical_by_source_kind_role) [ some name ↦ name | none ↦ normalized ]

  unfoldable pub categories_for : String → String → String → List ParticipationCategory
  categories_for source kind role = categories_of (canonical_role source kind role)

  unfoldable pub supports_category : String → String → String → ParticipationCategory → Bool
  supports_category source kind role category =
      has_category category (categories_for source kind role)

  unfoldable pub is_implementation_role : String → String → String → Bool
  is_implementation_role source kind role = supports_category source kind role implemented
