-- ===== src/Participation/Implementation.antt =====
-- Which roles, as the sources report them, count as implementation (participation.py).
use mathlib.Core.Path.{subst}
use work_trace.Prelude.{
  String, Bool, true, false, not, is_some, Bool-cases, refl, ◌≡◌, ◌||◌, ◌&&◌, Option, none, some,
  List, [], ◌∷◌, Option-cases, inl, inr, ap, ◌∙◌, arith, if◌then◌else◌,
}
use work_trace.Prelude.Texts.{◌==◌, eq_iff, elem, lookup}
use work_trace.Participation.{
  ParticipationCategory, implemented, same_category, RoleKey, canonical_by_source_kind_role,
  categories_of_role, canonical_at, has_category, or_none, categories_of, canonical_role,
  categories_for, supports_category, is_implementation_role,
}

-- The roles whose holder wrote the change, as the comment on "mr_author" tells them apart.
abbrev pub implementation_roles : List String
implementation_roles =
    "git_author" ∷ "git_coauthor" ∷ "gitlab_commit_author" ∷ "gitlab_commit_coauthor" ∷ []

abbrev CategoryTable : Type 0
CategoryTable = List (String × List ParticipationCategory)

abbrev names_with : ParticipationCategory → CategoryTable → List String
names_with c [] = []
names_with c ((name, cs) ∷ rest) =
    if has_category c cs then name ∷ names_with c rest else names_with c rest

abbrev distinct_names : CategoryTable → Bool
distinct_names [] = Bool.true
distinct_names ((name, cs) ∷ rest) = not (is_some (lookup name rest)) && distinct_names rest

fresh-names_with :
    (c : ParticipationCategory) (name : String) (table : CategoryTable)
    → is_some (lookup name table) ≡ Bool.false
    → elem name (names_with c table) ≡ Bool.false
unfolding lookup elem
fresh-names_with c name [] h = refl
fresh-names_with c name ((n, cs) ∷ rest) h = ground (arith, fresh-names_with c name rest)

lookup-names_with :
    (c : ParticipationCategory) (name : String) (table : CategoryTable)
    → distinct_names table ≡ true
    → has_category c (or_none (lookup name table)) ≡ elem name (names_with c table)
unfolding lookup elem has_category or_none
lookup-names_with c name [] h = refl
lookup-names_with c name ((n, cs) ∷ rest) h =
    ground (arith, eq_iff n name, fresh-names_with c n rest, lookup-names_with c name rest)

has_category-implementation_roles :
    (name : String) → has_category implemented (categories_of name) ≡ elem name implementation_roles
unfolding has_category categories_of lookup same_category
has_category-implementation_roles name = lookup-names_with implemented name categories_of_role refl

abbrev RoleTable : Type 0
RoleTable = List (RoleKey × String)

abbrev pub same_key : RoleKey → RoleKey → Bool
same_key (s, k, r) (source, kind, role) = s == source && (k == kind && r == role)

abbrev pub elem_key : RoleKey → List RoleKey → Bool
elem_key key [] = false
elem_key key (k ∷ ks) = same_key k key || elem_key key ks

same_key-path : (a b : RoleKey) → same_key a b ≡ true → a ≡ b
same_key-path (s, k, r) (source, kind, role) h =
    let p = (eq_iff s source).0 (ground (arith, h)) in
    let q = (eq_iff k kind).0 (ground (arith, h)) in
    let t = (eq_iff r role).0 (ground (arith, h)) in
    ap (λ (x : String). (x, k, r)) p
    ∙ ap (λ (x : String). (source, x, r)) q
    ∙ ap (λ (x : String). (source, kind, x)) t

-- The keys of a table whose canonical name is, or is not, that of an author.
abbrev keys_with : Bool → RoleTable → List RoleKey
keys_with b [] = []
keys_with true ((k, name) ∷ rest) =
    if elem name implementation_roles then k ∷ keys_with true rest else keys_with true rest
keys_with false ((k, name) ∷ rest) =
    if elem name implementation_roles then keys_with false rest else k ∷ keys_with false rest

abbrev elem_table : RoleKey → RoleTable → Bool
elem_table key [] = false
elem_table key ((k, name) ∷ rest) = same_key k key || elem_table key rest

abbrev distinct_keys : RoleTable → Bool
distinct_keys [] = true
distinct_keys ((k, name) ∷ rest) = not (elem_table k rest) && distinct_keys rest

fresh-keys_with :
    (key : RoleKey) (table : RoleTable)
    → elem_table key table ≡ false
    → elem_key key (keys_with true table) ≡ false
fresh-keys_with key [] h = refl
fresh-keys_with key ((k, name) ∷ rest) h = ground (arith, h, fresh-keys_with key rest)

abbrev or_role : Option String → String → String
or_role none role = role
or_role (some name) role = name

canonical-keys_with :
    (key : RoleKey) (role : String) (table : RoleTable)
    → distinct_keys table ≡ true
    → elem (or_role (canonical_at key table) role) implementation_roles ≡ (
        elem_key key (keys_with true table)
        || (elem role implementation_roles && not (elem_key key (keys_with false table))))
unfolding canonical_at
canonical-keys_with key role [] h = ground arith
canonical-keys_with (source, kind, role') role (((s, k, r), name) ∷ rest) h =
    let key : RoleKey = (source, kind, role') in
    elim (Bool-cases (same_key (s, k, r) key)) [
      | inr other ↦
          let next = canonical-keys_with key role rest (ground (arith, h)) in
          ground (arith, other, next)
      | inl here ↦
          let fresh =
            subst (λ (x : RoleKey). elem_key x (keys_with true rest) ≡ false)
              (same_key-path (s, k, r) key here)
              (fresh-keys_with (s, k, r) rest (ground (arith, h))) in
          ground (arith, here, fresh)
    ]

-- The keys whose role is itself the canonical name of an author.
abbrev named_keys : List RoleKey → List RoleKey
named_keys [] = []
named_keys ((s, k, r) ∷ rest) =
    if elem r implementation_roles then (s, k, r) ∷ named_keys rest else named_keys rest

elem-named_keys :
    (source kind role : String) (keys : List RoleKey)
    → (elem role implementation_roles && not (elem_key (source, kind, role) keys))
      ≡ (elem role implementation_roles && not (elem_key (source, kind, role) (named_keys keys)))
elem-named_keys source kind role [] = refl
elem-named_keys source kind role ((s, k, r) ∷ rest) =
    let next = elem-named_keys source kind role rest in
    elim (Bool-cases (r == role)) [
      | inl same ↦
          let as_role = ap (λ (x : String). elem x implementation_roles) ((eq_iff r role).0 same) in
          ground (arith, next, as_role)
      | inr other ↦ ground (arith, next, other)
    ]

or_role-canonical_role :
    (casefold strip : String → String) (source kind role : String)
    → elem (canonical_role casefold strip source kind role) implementation_roles
      ≡ elem
          (or_role
            (canonical_at
              (casefold source, casefold kind, casefold (strip role))
              canonical_by_source_kind_role)
            (casefold (strip role)))
          implementation_roles
unfolding canonical_role
or_role-canonical_role casefold strip source kind role =
    elim (Option-cases (
      canonical_at (casefold source, casefold kind, casefold (strip role))
        canonical_by_source_kind_role)) [
          | inl e ↦ ground (arith, e)
          | inr (name, e) ↦ ground (arith, e)
        ]

-- What the sources report of an author or co-author of a commit.
abbrev pub authoring_keys : List RoleKey
authoring_keys =
    ("git", "git_commit", "author")
    ∷ ("git", "git_commit", "co_author")
    ∷ ("gitlab", "gitlab_merge_request_commit", "author")
    ∷ ("gitlab", "gitlab_merge_request_commit", "co_author")
    ∷ []

authoring_keys-with : keys_with true canonical_by_source_kind_role ≡ authoring_keys
unfolding elem
authoring_keys-with = refl

named_keys-with :
    named_keys (keys_with false canonical_by_source_kind_role)
    ≡ ("git", "git_tag", "git_author") ∷ []
unfolding elem
named_keys-with = refl

-- A role counts as implementation exactly when it is reported of the author or a co-author of a Git
-- commit or of a commit of a GitLab merge request, or when it is spelled like one of the four
-- canonical names of these, whatever source and kind it is reported of, but for "git_author" of a Git
-- tag; source and kind are casefolded, and the role is stripped and casefolded.
pub is_implementation_role_iff :
    (casefold strip : String → String) (source kind role : String)
    → (let key : RoleKey = (casefold source, casefold kind, casefold (strip role)) in
        is_implementation_role casefold strip source kind role ≡ (
          elem_key key authoring_keys
          || (elem (casefold (strip role)) implementation_roles
              && not (same_key ("git", "git_tag", "git_author") key))))
unfolding is_implementation_role supports_category categories_for canonical_role
is_implementation_role_iff casefold strip source kind role =
    let r = casefold (strip role) in
    let key : RoleKey = (casefold source, casefold kind, r) in
    has_category-implementation_roles (canonical_role casefold strip source kind role)
    ∙ or_role-canonical_role casefold strip source kind role
    ∙ canonical-keys_with key r canonical_by_source_kind_role refl
    ∙ ap
        (λ (ks : List RoleKey).
          elem_key key ks
          || (elem r implementation_roles
              && not (elem_key key (keys_with false canonical_by_source_kind_role))))
        authoring_keys-with
    ∙ ap (λ (b : Bool). elem_key key authoring_keys || b)
        (elem-named_keys (casefold source) (casefold kind) r
            (keys_with false canonical_by_source_kind_role)
          ∙ ap (λ (ks : List RoleKey). elem r implementation_roles && not (elem_key key ks))
              named_keys-with
          ∙ ground arith)
