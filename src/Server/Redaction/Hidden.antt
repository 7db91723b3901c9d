-- ===== src/Server/Redaction/Hidden.antt =====
-- What `redact_output` of mcp_server/limits.py leaves to be seen.
use work_trace.Prelude.{
  String, true, false, Option, none, some, List, [], ◌∷◌, ◌≤◌, if-split, Bool-cases, ◌≡◌, ◌⊎◌, inl,
  inr, refl, sym, arith,
}
use work_trace.Prelude.Texts.{◌==◌, eq_iff, elem}
use work_trace.Json.{
  Json, null, bool, int, float, str, arr, obj, Items, nil, cons, Fields, end, field,
}
use work_trace.Server.Values.{text_length}
use work_trace.Server.Patterns.{is_stable_identifier, is_view_token, is_cursor, before_colon}
use work_trace.Server.Redaction.{
  OutputPattern, private_key, authorization, secret, email, phone, output_redactions,
  sensitive_output_keys, stable_identifier_keys, stable_identifier_list_keys, internal_id_prefixes,
  view_keys, cursor_keys, is_internal_identifier, is_structured_identifier, redact_string,
  redact_output, redact_fields, redact_items,
}

abbrev pub IsOneOf : String → List String → Type 0
IsOneOf s [] = ⊥
IsOneOf s (t ∷ ts) = (s ≡ t) ⊎ IsOneOf s ts

elem-IsOneOf : (s : String) (ts : List String) → elem s ts ≡ true → IsOneOf s ts
unfolding elem
elem-IsOneOf s [] e = absurd (cc)
elem-IsOneOf s (t ∷ ts) e = elim (Bool-cases (t == s)) [
  | inl same ↦ inl (sym ((eq_iff t s).0 same))
  | inr other ↦ inr (elem-IsOneOf s ts (ground (arith, e, other)))
]

module _ (casefold : String → String) (sub : OutputPattern → String → String → String) where
  -- `text` after the five patterns, in the order of the source.
  abbrev pub redacted : String → String
  redacted text = sub phone "[REDACTED_PHONE]" (
      sub email "[REDACTED_EMAIL]" (
        sub secret "[REDACTED_SECRET]" (
          sub authorization "[REDACTED_AUTHORIZATION]"
            (sub private_key "[REDACTED_PRIVATE_KEY]" text))))

  -- A view token, a cursor or an internal identifier, under a name that holds such a one.
  abbrev pub IsIdentifier : String → String → Type 0
  IsIdentifier s name =
      (IsOneOf name ("view_token" ∷ "expected_view_token" ∷ []) × (is_view_token s ≡ true))
      ⊎ (IsOneOf name (
            "cursor" ∷ "next_cursor" ∷ "detail_cursor" ∷ "relation_cursor" ∷ "membership_cursor"
            ∷ [])
          × (text_length s ≤ 2048)
          × (is_cursor s ≡ true))
      ⊎ ((is_stable_identifier s ≡ true)
          × (IsOneOf (casefold name) stable_identifier_keys
              ⊎ IsOneOf (casefold name) stable_identifier_list_keys
              ⊎ ((casefold name ≡ "id")
                  × IsOneOf (casefold (before_colon s)) internal_id_prefixes)))

  abbrev pub NamedIdentifier : String → Option String → Type 0
  NamedIdentifier s none = ⊥
  NamedIdentifier s (some name) = IsIdentifier s name

  -- A text that may be shown under a field's name.
  abbrev pub IsShowable : String → Option String → Type 0
  IsShowable s name = NamedIdentifier s name ⊎ ((text : String) × (s ≡ redacted text))

  internal_identifier :
      (s name : String)
      → is_internal_identifier casefold s name ≡ true
      → (is_stable_identifier s ≡ true)
        × (IsOneOf (casefold name) stable_identifier_keys
            ⊎ IsOneOf (casefold name) stable_identifier_list_keys
            ⊎ ((casefold name ≡ "id") × IsOneOf (casefold (before_colon s)) internal_id_prefixes))
  unfolding is_internal_identifier
  internal_identifier s name h = (
    ground (arith, h),
    elim (Bool-cases (elem (casefold name) stable_identifier_keys)) [
      | inl e ↦ inl (elem-IsOneOf _ _ e)
      | inr no_key ↦ elim (Bool-cases (elem (casefold name) stable_identifier_list_keys)) [
        | inl e ↦ inr (inl (elem-IsOneOf _ _ e))
        | inr no_list ↦ inr (
            inr (
              (eq_iff (casefold name) "id").0 (ground (arith, h, no_key, no_list)),
              elem-IsOneOf (casefold (before_colon s)) internal_id_prefixes
                  (ground (arith, h, no_key, no_list)),
            ))
      ]
    ],
  )

  identifier :
      (s : String) (name : Option String)
      → is_structured_identifier casefold s name ≡ true
      → NamedIdentifier s name
  unfolding is_structured_identifier
  identifier s none h = absurd (cc)
  identifier s (some name) h = elim (Bool-cases (elem name view_keys)) [
    | inl e ↦ inl (elem-IsOneOf _ _ e, ground (arith, h, e))
    | inr no_view ↦ elim (Bool-cases (elem name cursor_keys)) [
      | inl e ↦
          inr
            (inl (elem-IsOneOf _ _ e, ground (arith, h, no_view, e), ground (arith, h, no_view, e)))
      | inr no_cursor ↦
          inr (inr (internal_identifier s name (ground (arith, h, no_view, no_cursor))))
    ]
  ]

  redact_string-redacted : (s : String) → redact_string casefold sub s ≡ redacted s
  unfolding redact_string output_redactions
  redact_string-redacted s = refl

  abbrev mutual
    pub IsHidden : Option String → Json → Type 0
    IsHidden name null = Unit
    IsHidden name (bool b) = Unit
    IsHidden name (int n) = Unit
    IsHidden name (float x) = Unit
    IsHidden name (str s) = IsShowable s name
    IsHidden name (arr vs) = AreHidden name vs
    IsHidden name (obj fs) = FieldsHidden fs

    pub AreHidden : Option String → Items → Type 0
    AreHidden name nil = Unit
    AreHidden name (cons v vs) = IsHidden name v × AreHidden name vs

    -- A field with a sensitive name holds the placeholder, at any depth.
    pub FieldsHidden : Fields → Type 0
    FieldsHidden end = Unit
    FieldsHidden (field k v fs) =
        (((elem (casefold k) sensitive_output_keys ≡ true) × (v ≡ str "[REDACTED]"))
          ⊎ ((elem (casefold k) sensitive_output_keys ≡ false) × IsHidden (some k) v))
        × FieldsHidden fs

  mutual
    unfolding redact_output redact_fields redact_items

    hide_output :
        (name : Option String) (value : Json)
        → IsHidden name (redact_output casefold sub name value)
    hide_output name null = tt
    hide_output name (bool b) = tt
    hide_output name (int n) = tt
    hide_output name (float x) = tt
    hide_output name (str s) =
        if-split (IsHidden name) (is_structured_identifier casefold s name) (str s)
          (str (redact_string casefold sub s)) (λ e. inl (identifier s name e))
          (λ e. inr (s, redact_string-redacted s))
    hide_output name (arr vs) = hide_items name vs
    hide_output name (obj fs) = hide_fields fs

    hide_items :
        (name : Option String) (vs : Items) → AreHidden name (redact_items casefold sub name vs)
    hide_items name nil = tt
    hide_items name (cons v vs) = (hide_output name v, hide_items name vs)

    hide_fields : (fs : Fields) → FieldsHidden (redact_fields casefold sub fs)
    hide_fields end = tt
    hide_fields (field k v fs) = (
      if-split
          (λ (j : Json).
            ((elem (casefold k) sensitive_output_keys ≡ true) × (j ≡ str "[REDACTED]"))
            ⊎ ((elem (casefold k) sensitive_output_keys ≡ false) × IsHidden (some k) j))
          (elem (casefold k) sensitive_output_keys) (str "[REDACTED]")
          (redact_output casefold sub (some k) v) (λ e. inl (e, refl))
          (λ e. inr (e, hide_output (some k) v)),
      hide_fields fs,
    )

  -- At any depth of a redacted value a field with a sensitive name holds the placeholder, and every
  -- other text either has passed all five patterns, in their order, or is a view token, a cursor of at
  -- most 2,048 characters or a stable identifier under a field name that holds such a one.
  pub redact_output-IsHidden :
      (name : Option String) (value : Json) → IsHidden name (redact_output casefold sub name value)
  redact_output-IsHidden = hide_output
