-- ===== src/ToolArgs/Policies.antt =====
-- What the two policies guarantee of the arguments that reach the client.
use cld_gateway.Base.{
  String, ◌≡◌, refl, sym, ◌∙◌, subst, true, false, Option, none, some, List, str_eq, ◌||◌, not,
  is_none, inl, inr, ◌⊎◌, Bool-cases, eq_iff,
}
use cld_gateway.Base.Result.{Result, ok, err}
use cld_gateway.Json.{Json, Fields, end, field, get_field, remove_field}
use cld_gateway.Codex.Types.{CodexToolCallKind}
use cld_gateway.Codex.Serde.{Serde}
use cld_gateway.ToolArgs.{
  PolicyEdit, agent_policy, read_policy, apply_policies, pages_empty, is_pdf, sanitized,
  parse_tool_args_object_for_kind, sanitized_tool_args_for_kind,
}

pub get_field-remove_field : (k : String) (m : Fields) → get_field k (remove_field k m) ≡ none
unfolding get_field remove_field
get_field-remove_field k end = refl
get_field-remove_field k (field j v m) = elim (Bool-cases (str_eq j k)) [
  | inl same ↦ rw same (get_field-remove_field k m)
  | inr other ↦ rw other (rw other (get_field-remove_field k m))
]

is_none-none : (o : Option Json) → is_none o ≡ true → o ≡ none
is_none-none none h = refl
is_none-none (some v) h = cc

get_field-remove_field_ne :
    (j k : String) (m : Fields)
    → str_eq j k ≡ false
    → get_field k (remove_field j m) ≡ get_field k m
unfolding get_field remove_field
get_field-remove_field_ne j k end h = refl
get_field-remove_field_ne j k (field i v m) h = elim (Bool-cases (str_eq i j)) [
  | inl same ↦
      let k_other : str_eq i k ≡ false =
        subst (λ t. str_eq t k ≡ false) (sym ((eq_iff i j).0 same)) h in
      rw same (rw k_other (get_field-remove_field_ne j k m h))
  | inr other ↦ rw other (elim (Bool-cases (str_eq i k)) [
    | inl found ↦ rw found
    | inr missed ↦ rw missed (get_field-remove_field_ne j k m h)
  ])
]

-- For an `Agent` call.
agent_isolation : (args : Fields) → get_field "isolation" (apply_policies "Agent" args).1 ≡ none
unfolding apply_policies agent_policy read_policy
agent_isolation args = elim (Bool-cases (is_none (get_field "isolation" args))) [
  | inl absent ↦ rw absent (is_none-none (get_field "isolation" args) absent)
  | inr present ↦ rw present (get_field-remove_field "isolation" args)
]

abbrev pub PagesAllowed : Fields → Type 0
PagesAllowed args =
    (get_field "pages" args ≡ none) ⊎ ((pages_empty args ≡ false) × (is_pdf args ≡ true))

read_pages : (args : Fields) → PagesAllowed (apply_policies "Read" args).1
unfolding apply_policies agent_policy read_policy
read_pages args = elim (Bool-cases (is_none (get_field "pages" args))) [
  | inl absent ↦ rw absent (inl (is_none-none (get_field "pages" args) absent))
  | inr present ↦ elim (Bool-cases (pages_empty args)) [
    | inl empty ↦ rw present (rw empty (inl (get_field-remove_field "pages" args)))
    | inr pages ↦ elim (Bool-cases (is_pdf args)) [
      | inl pdf ↦ rw present (rw pages (rw pdf (inr (pages, pdf))))
      | inr other ↦ rw present (rw pages (rw other (inl (get_field-remove_field "pages" args))))
    ]
  ]
]

agent_keeps :
    (tool_name k : String) (m : Fields)
    → str_eq "isolation" k ≡ false
    → get_field k (agent_policy tool_name m).1 ≡ get_field k m
unfolding agent_policy
agent_keeps tool_name k m h =
    elim (Bool-cases (not (str_eq tool_name "Agent") || is_none (get_field "isolation" m))) [
      | inl kept ↦ rw kept refl
      | inr removed ↦ rw removed (get_field-remove_field_ne "isolation" k m h)
    ]

read_keeps :
    (tool_name k : String) (m : Fields)
    → str_eq "pages" k ≡ false
    → get_field k (read_policy tool_name m).1 ≡ get_field k m
unfolding read_policy
read_keeps tool_name k m h = elim (Bool-cases (str_eq tool_name "Read")) [
  | inr other ↦ rw other refl
  | inl read ↦ elim (Bool-cases (is_none (get_field "pages" m))) [
    | inl absent ↦ rw read (rw absent refl)
    | inr present ↦ elim (Bool-cases (pages_empty m)) [
      | inl empty ↦ rw read (rw present (rw empty (get_field-remove_field_ne "pages" k m h)))
      | inr pages ↦ elim (Bool-cases (is_pdf m)) [
        | inl pdf ↦ rw read (rw present (rw pages (rw pdf refl)))
        | inr plain ↦
            rw read (rw present (rw pages (rw plain (get_field-remove_field_ne "pages" k m h))))
      ]
    ]
  ]
]

ok_policies :
    (S : Serde) (tool_name : String) (r : Result String Fields) {obj : Fields}
    {edits : List PolicyEdit}
    → sanitized S tool_name r ≡ ok (obj, edits)
    → (args : Fields) × (r ≡ ok args) × ((apply_policies tool_name args).1 ≡ obj)
ok_policies S tool_name (err e) h = cc
ok_policies S tool_name (ok args) h = (args, refl, cc)

module _ (S : Serde) (kind : CodexToolCallKind) (buf : String) {obj : Fields}
    {edits : List PolicyEdit} where
  -- The arguments of an `Agent` call that pass have no field `isolation`, whatever the backend
  -- sent.
  pub agent_without_isolation :
      sanitized_tool_args_for_kind S "Agent" kind buf ≡ ok (obj, edits)
      → get_field "isolation" obj ≡ none
  unfolding sanitized_tool_args_for_kind
  agent_without_isolation sent =
      let (args, parsed, kept) =
        ok_policies S "Agent" (parse_tool_args_object_for_kind S kind buf) sent in
      subst (λ m. get_field "isolation" m ≡ none) kept (agent_isolation args)

  -- The arguments of a `Read` call that pass have a field `pages` only if it is not the empty
  -- text and the file's path ends in `.pdf`, in any case of the letters.
  pub read_pages_only_for_pdf :
      sanitized_tool_args_for_kind S "Read" kind buf ≡ ok (obj, edits)
      → (get_field "pages" obj ≡ none) ⊎ ((pages_empty obj ≡ false) × (is_pdf obj ≡ true))
  unfolding sanitized_tool_args_for_kind
  read_pages_only_for_pdf sent =
      let (args, parsed, kept) =
        ok_policies S "Read" (parse_tool_args_object_for_kind S kind buf) sent in
      subst PagesAllowed kept (read_pages args)

  -- If the arguments of a tool call pass, then the buffer was parsed to an object, and every
  -- field but `isolation` and `pages` is the same in the arguments that pass as in that object,
  -- for any tool.
  pub policies_keep_fields :
      (tool_name k : String)
      → sanitized_tool_args_for_kind S tool_name kind buf ≡ ok (obj, edits)
      → str_eq "isolation" k ≡ false
      → str_eq "pages" k ≡ false
      → (args : Fields) × (parse_tool_args_object_for_kind S kind buf ≡ ok args)
        × (get_field k obj ≡ get_field k args)
  unfolding sanitized_tool_args_for_kind apply_policies
  policies_keep_fields tool_name k sent isolation pages =
      let (args, parsed, kept) =
        ok_policies S tool_name (parse_tool_args_object_for_kind S kind buf) sent in
      (
        args,
        parsed,
        subst (λ m. get_field k m ≡ get_field k args) kept
            (read_keeps tool_name k (agent_policy tool_name args).1 pages
              ∙ agent_keeps tool_name k args isolation),
      )
