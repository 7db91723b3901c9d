-- ===== src/Linking/Mappings/Admitted.antt =====
-- What an admissible link of a GitLab object to a local commit (linking/mappings.py) rests on.
use Prim.Native.Char.{code}
use Prim.Native.String.{[], ◌∷◌, ◌++◌ as ◌<>◌}
use work_trace.Prelude.{
  ◌≤◌, Option-cases, ℕ, String, true, false, not, Bool-cases, Option, none, some, List, [], ◌∷◌,
  any, ◌≡◌, ◌⊎◌, ◌↔◌, inl, inr, refl, sym, ap, ◌∙◌, arith,
}
use work_trace.Prelude.Texts.{eq_iff, eq_refl}
use work_trace.Json.{Json, null, bool, int, float, str, arr, obj, Fields, get, contradicts}
use work_trace.Server.Values.{text_length, take_text}
use work_trace.Server.Patterns.{after_prefix, starts_with}
use work_trace.Server.Prefixes.{after_prefix-append, append-after_prefix}
use work_trace.Linking.Mappings.{
  all_hex, is_full_sha, stable_id, RepositoryMapping, AppConfig, is_value, source_instance_id,
  full_sha, is_pair, is_mapped_pair, objects_allowed, same_sha, mapped_commit_sha_allowed,
  is_mapping_method, reference_mapping_allowed,
}

-- The app of an object is this one, or not told.
abbrev pub IsOf : String → Json → Type 0
IsOf app_id value = (value ≡ null) ⊎ (value ≡ str app_id)

abbrev pub IsHexDigit : ℕ → Type 0
IsHexDigit n = ((48 ≤ n) × (n ≤ 57)) ⊎ ((97 ≤ n) × (n ≤ 102)) ⊎ ((65 ≤ n) × (n ≤ 70))

abbrev pub IsHex : String → Type 0
IsHex [] = Unit
IsHex (c ∷ s) = IsHexDigit (code c) × IsHex s

-- Forty or sixty-four hexadecimal digits.
abbrev pub IsFullSha : String → Type 0
IsFullSha s = ((text_length s ≡ 40) ⊎ (text_length s ≡ 64)) × IsHex s

-- Both values are texts of the same full SHA, up to case.
abbrev pub IsSameSha : (String → String) → Json → Json → Type 0
IsSameSha casefold value target =
    (a : String) × (b : String) × (value ≡ str a)
    × (target ≡ str b)
    × (casefold a ≡ casefold b)
    × IsFullSha (casefold a)

-- A text that begins as the method of a mapping.
abbrev pub IsMappingMethod : Json → Type 0
IsMappingMethod j = (rest : String) × (j ≡ str ("explicit_repo_project_full_sha:" <> rest))

all_hex-IsHex : (s : String) → all_hex s ≡ true → IsHex s
unfolding all_hex
all_hex-IsHex [] h = tt
all_hex-IsHex (c ∷ s) h = (ground (arith, h), all_hex-IsHex s (ground (arith, h)))

IsHex-all_hex : (s : String) → IsHex s → all_hex s ≡ true
unfolding all_hex
IsHex-all_hex [] h = refl
IsHex-all_hex (c ∷ s) (d, h) = ground (arith, d, IsHex-all_hex s h)

is_full_sha-IsFullSha : (s : String) → is_full_sha s ≡ true → IsFullSha s
unfolding is_full_sha
is_full_sha-IsFullSha s h = (ground (arith, h), all_hex-IsHex s (ground (arith, h)))

IsFullSha-is_full_sha : (s : String) → IsFullSha s → is_full_sha s ≡ true
unfolding is_full_sha
IsFullSha-is_full_sha s (l, h) = ground (arith, l, IsHex-all_hex s h)

is_value-str : (j : Json) (t : String) → is_value j t ≡ true → j ≡ str t
unfolding is_value
is_value-str (str s) t e = ap str ((eq_iff s t).0 e)
is_value-str null t e = absurd (cc)
is_value-str (bool b) t e = absurd (cc)
is_value-str (int n) t e = absurd (cc)
is_value-str (float s) t e = absurd (cc)
is_value-str (arr vs) t e = absurd (cc)
is_value-str (obj fs) t e = absurd (cc)

str-is_value : (j : Json) (t : String) → j ≡ str t → is_value j t ≡ true
unfolding is_value
str-is_value j t e = ap (λ v. is_value v t) e ∙ eq_refl t

contradicts-IsOf : (j : Json) (t : String) → contradicts j t ≡ false → IsOf t j
unfolding contradicts
contradicts-IsOf null t e = inl refl
contradicts-IsOf (str s) t e = inr (ap str ((eq_iff s t).0 (ground (arith, e))))
contradicts-IsOf (bool b) t e = absurd (cc)
contradicts-IsOf (int n) t e = absurd (cc)
contradicts-IsOf (float s) t e = absurd (cc)
contradicts-IsOf (arr vs) t e = absurd (cc)
contradicts-IsOf (obj fs) t e = absurd (cc)

IsOf-contradicts : (j : Json) (t : String) → IsOf t j → contradicts j t ≡ false
unfolding contradicts
IsOf-contradicts j t (inl e) = ap (λ v. contradicts v t) e
IsOf-contradicts j t (inr e) = ap (λ v. contradicts v t) e ∙ ap not (eq_refl t)

same_sha-some :
    (a b : Option String) → same_sha a b ≡ true → (sha : String) × (a ≡ some sha) × (b ≡ some sha)
unfolding same_sha
same_sha-some none b e = absurd (cc)
same_sha-some (some x) none e = absurd (cc)
same_sha-some (some x) (some y) e = (x, refl, ap some (sym ((eq_iff x y).0 e)))

some-same_sha :
    (a b : Option String) (sha : String) → a ≡ some sha → b ≡ some sha → same_sha a b ≡ true
unfolding same_sha
some-same_sha a b sha p q = ap (λ o. same_sha o b) p ∙ ap (same_sha (some sha)) q ∙ eq_refl sha

full_sha-some :
    (casefold : String → String) (j : Json) {sha : String}
    → full_sha casefold j ≡ some sha
    → (a : String) × (j ≡ str a) × (casefold a ≡ sha) × (is_full_sha (casefold a) ≡ true)
unfolding full_sha
full_sha-some casefold null h = absurd (cc)
full_sha-some casefold (bool b) h = absurd (cc)
full_sha-some casefold (int n) h = absurd (cc)
full_sha-some casefold (float s) h = absurd (cc)
full_sha-some casefold (arr vs) h = absurd (cc)
full_sha-some casefold (obj fs) h = absurd (cc)
full_sha-some casefold (str a) h = (a, refl, ground (arith, h), ground (arith, h))

some-full_sha :
    (casefold : String → String) (j : Json) (a : String)
    → j ≡ str a
    → is_full_sha (casefold a) ≡ true
    → full_sha casefold j ≡ some (casefold a)
unfolding full_sha
some-full_sha casefold j a e full = ap (full_sha casefold) e ∙ ground (arith, full)

same_sha-IsSameSha :
    (casefold : String → String) (value target : Json)
    → same_sha (full_sha casefold value) (full_sha casefold target) ≡ true
    → IsSameSha casefold value target
same_sha-IsSameSha casefold value target h =
    let (sha, p, q) = same_sha-some _ _ h in
    let (a, e, folded, full) = full_sha-some casefold value p in
    let (b, f, also, _) = full_sha-some casefold target q in
    (a, b, e, f, folded ∙ sym also, is_full_sha-IsFullSha (casefold a) full)

IsSameSha-same_sha :
    (casefold : String → String) (value target : Json)
    → IsSameSha casefold value target
    → same_sha (full_sha casefold value) (full_sha casefold target) ≡ true
IsSameSha-same_sha casefold value target (a, b, e, f, same, full) =
    let here = IsFullSha-is_full_sha (casefold a) full in
    let there = ap is_full_sha (sym same) ∙ here in
    some-same_sha _ _ (casefold a) (some-full_sha casefold value a e here)
      (some-full_sha casefold target b f there ∙ ap (λ (s : String). some s) (sym same))

is_mapping_method-text : (j : Json) → is_mapping_method j ≡ true → IsMappingMethod j
unfolding is_mapping_method starts_with
is_mapping_method-text null h = absurd (cc)
is_mapping_method-text (bool b) h = absurd (cc)
is_mapping_method-text (int n) h = absurd (cc)
is_mapping_method-text (float s) h = absurd (cc)
is_mapping_method-text (arr vs) h = absurd (cc)
is_mapping_method-text (obj fs) h = absurd (cc)
is_mapping_method-text (str s) h =
    elim (Option-cases (after_prefix "explicit_repo_project_full_sha:" s)) [
      | inl e ↦ absurd (ground (arith, h, e))
      | inr (rest, e) ↦ (rest, ap str (append-after_prefix "explicit_repo_project_full_sha:" s e))
    ]

text-is_mapping_method : (j : Json) → IsMappingMethod j → is_mapping_method j ≡ true
unfolding is_mapping_method starts_with
text-is_mapping_method j (rest, e) =
    let found = after_prefix-append "explicit_repo_project_full_sha:" rest in
    ap is_mapping_method e ∙ ground (arith, found)

module _ (digest : List String → String) (digits : ℕ → String) where
  -- "source:" and 24 digits of the digest of the parts.
  abbrev pub instance_of : List String → String
  instance_of parts = "source" <> (":" <> take_text 24 (digest parts))

  -- One of the mappings connects the two source instances.
  abbrev pub IsMapped : String → Json → Json → List RepositoryMapping → Type 0
  IsMapped app_id a b [] = ⊥
  IsMapped app_id a b (m ∷ ms) =
      ((a ≡ str (source_instance_id digest app_id "gitlab" (digits m.gitlab_project_id)))
        × (b ≡ str (source_instance_id digest app_id "git" m.repo_path)))
      ⊎ IsMapped app_id a b ms

  any-IsMapped :
      (app : AppConfig) (a b : String) (ms : List RepositoryMapping)
      → any (is_pair digest digits app a b) ms ≡ true
      → IsMapped app.id (str a) (str b) ms
  unfolding any is_pair source_instance_id stable_id
  any-IsMapped app a b [] e = absurd (cc)
  any-IsMapped app a b (m ∷ ms) e = elim (Bool-cases (is_pair digest digits app a b m)) [
    | inl p ↦ inl (
      ap str (sym ((eq_iff _ a).0 (ground (arith, p)))),
      ap str (sym ((eq_iff _ b).0 (ground (arith, p)))),
    )
    | inr p ↦ inr (any-IsMapped app a b ms (ground (arith, e, p)))
  ]

  is_mapped_pair-IsMapped :
      (app : AppConfig) (a b : Json)
      → is_mapped_pair digest digits app a b ≡ true
      → IsMapped app.id a b app.gitlab_repository_mappings
  unfolding is_mapped_pair
  is_mapped_pair-IsMapped app (str a) (str b) e =
      any-IsMapped app a b app.gitlab_repository_mappings e
  is_mapped_pair-IsMapped app (str a) null e = absurd (cc)
  is_mapped_pair-IsMapped app (str a) (bool c) e = absurd (cc)
  is_mapped_pair-IsMapped app (str a) (int n) e = absurd (cc)
  is_mapped_pair-IsMapped app (str a) (float s) e = absurd (cc)
  is_mapped_pair-IsMapped app (str a) (arr vs) e = absurd (cc)
  is_mapped_pair-IsMapped app (str a) (obj fs) e = absurd (cc)
  is_mapped_pair-IsMapped app null b e = absurd (cc)
  is_mapped_pair-IsMapped app (bool c) b e = absurd (cc)
  is_mapped_pair-IsMapped app (int n) b e = absurd (cc)
  is_mapped_pair-IsMapped app (float s) b e = absurd (cc)
  is_mapped_pair-IsMapped app (arr vs) b e = absurd (cc)
  is_mapped_pair-IsMapped app (obj fs) b e = absurd (cc)

  mapping_pair :
      (app : AppConfig) (m : RepositoryMapping)
      → is_pair digest digits app
          (source_instance_id digest app.id "gitlab" (digits m.gitlab_project_id))
          (source_instance_id digest app.id "git" m.repo_path)
          m
        ≡ true
  unfolding is_pair source_instance_id stable_id
  mapping_pair app m = ground (
    arith,
    eq_refl (source_instance_id digest app.id "gitlab" (digits m.gitlab_project_id)),
    eq_refl (source_instance_id digest app.id "git" m.repo_path),
  )

  IsMapped-any :
      (app : AppConfig) (a b : Json) (ms : List RepositoryMapping)
      → IsMapped app.id a b ms
      → (a' : String) × (b' : String) × (a ≡ str a')
        × (b ≡ str b')
        × (any (is_pair digest digits app a' b') ms ≡ true)
  unfolding any
  IsMapped-any app a b [] w = elim w [ ]
  IsMapped-any app a b (m ∷ ms) (inl (p, q)) = (_, _, p, q, ground (arith, mapping_pair app m))
  IsMapped-any app a b (m ∷ ms) (inr w) =
      let (x, y, p, q, r) = IsMapped-any app a b ms w in (x, y, p, q, ground (arith, r))

  IsMapped-is_mapped_pair :
      (app : AppConfig) (a b : Json)
      → IsMapped app.id a b app.gitlab_repository_mappings
      → is_mapped_pair digest digits app a b ≡ true
  unfolding is_mapped_pair
  IsMapped-is_mapped_pair app a b w =
      let (x, y, p, q, r) = IsMapped-any app a b app.gitlab_repository_mappings w in
      ap (λ j. is_mapped_pair digest digits app j b) p
      ∙ ap (is_mapped_pair digest digits app (str x)) q
      ∙ r

  -- A GitLab object and a local commit of the app, from source instances that a mapping connects.
  abbrev pub AreMapped : AppConfig → Fields → Fields → Type 0
  AreMapped app from_object to_object =
      (get "source" from_object ≡ str "gitlab")
      × (get "source" to_object ≡ str "git")
      × (get "kind" to_object ≡ str "git_commit")
      × IsOf app.id (get "app_id" from_object)
      × IsOf app.id (get "app_id" to_object)
      × IsMapped app.id (get "source_instance" from_object) (get "source_instance" to_object)
          app.gitlab_repository_mappings

  objects_allowed-AreMapped :
      (app : AppConfig) (a b : Fields)
      → objects_allowed digest digits app a b ≡ true
      → AreMapped app a b
  unfolding objects_allowed
  objects_allowed-AreMapped app a b e = (
    is_value-str _ "gitlab" (ground (arith, e)),
    is_value-str _ "git" (ground (arith, e)),
    is_value-str _ "git_commit" (ground (arith, e)),
    contradicts-IsOf _ app.id (ground (arith, e)),
    contradicts-IsOf _ app.id (ground (arith, e)),
    is_mapped_pair-IsMapped app _ _ (ground (arith, e)),
  )

  AreMapped-objects_allowed :
      (app : AppConfig) (a b : Fields)
      → AreMapped app a b
      → objects_allowed digest digits app a b ≡ true
  unfolding objects_allowed
  AreMapped-objects_allowed app a b (s, t, k, o, p, m) =
      let e1 = str-is_value (get "source" a) "gitlab" s in
      let e2 = str-is_value (get "source" b) "git" t in
      let e3 = str-is_value (get "kind" b) "git_commit" k in
      let e4 = IsOf-contradicts (get "app_id" a) app.id o in
      let e5 = IsOf-contradicts (get "app_id" b) app.id p in
      let e6 = IsMapped-is_mapped_pair app (get "source_instance" a) (get "source_instance" b) m in
      ground (arith, e1, e2, e3, e4, e5, e6)

-- A stored reference is admissible exactly when its type is "mapped_commit_sha", its extraction
-- method begins as a mapping's, its value and the commit's id are texts of the same forty or
-- sixty-four hexadecimal digits up to case, the objects are a GitLab object and a local commit, neither
-- of which belongs to another app, and their source instances are those of a configured mapping.
pub reference_mapping_allowed_iff :
    (casefold : String → String) (digest : List String → String) (digits : ℕ → String)
    (app : AppConfig) (reference from_object to_object : Fields)
    → (reference_mapping_allowed casefold digest digits app reference from_object to_object ≡ true)
      ↔ ((get "relationship_type" reference ≡ str "mapped_commit_sha")
          × IsMappingMethod (get "extraction_method" reference)
          × IsSameSha casefold (get "exact_value" reference) (get "external_id" to_object)
          × AreMapped digest digits app from_object to_object)
unfolding reference_mapping_allowed mapped_commit_sha_allowed
reference_mapping_allowed_iff casefold digest digits app reference from_object to_object = (
  λ e. (
    is_value-str _ "mapped_commit_sha" (ground (arith, e)),
    is_mapping_method-text _ (ground (arith, e)),
    same_sha-IsSameSha casefold _ _ (ground (arith, e)),
    objects_allowed-AreMapped digest digits app from_object to_object (ground (arith, e)),
  ),
  λ (t, m, shas, objects).
      let e1 = str-is_value (get "relationship_type" reference) "mapped_commit_sha" t in
      let e2 = IsSameSha-same_sha casefold _ _ shas in
      let e4 = text-is_mapping_method _ m in
      let e3 = AreMapped-objects_allowed digest digits app from_object to_object objects in
      ground (arith, e1, e4, e2, e3),
)
