-- ===== src/Protocol/Envelope/Admitted.antt =====
-- packages/protocol/src/envelope.ts: what a frame that is parsed satisfies.
use ai_verse_dashboard.Base.{
  ℕ, ◌≤◌, ◌≡◌, refl, sym, ap, ◌∙◌, subst, inl, inr, Bool, true, false, not, ◌||◌, Option, none,
  some, List, [], ◌∷◌, ◌++◌, ok, Ensures, Ensures-bind, check, bind-ok, ok-injective, Bool-cases,
  leb→le,
}
use ai_verse_dashboard.Base.Text.{Text, text}
use ai_verse_dashboard.Protocol.Ids.{is_system_id, is_workspace_id}
use ai_verse_dashboard.Protocol.Methods.{
  ProtocolFault, system_required, workspace_required, payload_too_large, is_known_method,
  requires_system, requires_workspace,
}
use ai_verse_dashboard.Protocol.Json.{
  Json, null, boolean, number, other_number, string, array, object, Members, check_no_raw_roots,
  is_forbidden,
}
use ai_verse_dashboard.Protocol.Json.Keys.{KeyAt, check_no_raw_roots_lem}
use ai_verse_dashboard.Protocol.Fields.{
  Faults, string_field, optional_field, is_some, unless, accept, field, has_only, malformed,
  is_text, is_sized,
}
use ai_verse_dashboard.Protocol.Envelope.{
  DashboardRequest, request_names, protocol_version, max_params_bytes, raw_roots, params_issues,
  request_issues, request_fields, request_schema,
}

accept-ok {ℓ} : {A : Type ℓ} (a b : A) (fs : Faults) → accept a fs ≡ ok b → (fs ≡ []) × (a ≡ b)
unfolding accept
accept-ok a b [] h = (refl, cc h)
accept-ok a b (f ∷ fs) h = absurd (cc h)

append-empty {ℓ} : {A : Type ℓ} (xs ys : List A) → xs ++ ys ≡ [] → (xs ≡ []) × (ys ≡ [])
append-empty [] ys h = (refl, h)
append-empty (x ∷ xs) ys h = absurd (cc h)

unless-empty : (b : Bool) (f : ProtocolFault) → unless b f ≡ [] → b ≡ true
unfolding unless
unless-empty true f h = refl
unless-empty false f h = absurd (cc h)

given :
    (r : Bool) (o : Option Text)
    → (not r || is_some o) ≡ true
    → r ≡ true
    → (a : Text) × (o ≡ some a)
unfolding is_some
given true (some a) h e = (a, refl)
given true none h e = absurd (cc h)
given false o h e = absurd (cc e)

raw_roots-empty : (o : Option Text) → raw_roots o ≡ [] → o ≡ none
unfolding raw_roots
raw_roots-empty none h = refl
raw_roots-empty (some at) h = absurd (cc h)

-- The params that a frame may carry.
abbrev Allowed : (Json → ℕ) → Json → Type 0
Allowed json_bytes p =
    ((key : Text) (n : ℕ) → KeyAt key n p → n ≤ 8 → is_forbidden key ≡ false)
    × (json_bytes p ≤ max_params_bytes)

params_issues-empty :
    (json_bytes : Json → ℕ) (p : Json)
    → params_issues json_bytes (some p) ≡ []
    → Allowed json_bytes p
unfolding params_issues
params_issues-empty json_bytes p h =
    let (roots, size) = append-empty (raw_roots (check_no_raw_roots p)) _ h in
    (
      (check_no_raw_roots_lem p).0 (raw_roots-empty _ roots),
      leb→le _ _ (unless-empty _ payload_too_large size),
    )

string_field-Ensures :
    (test : Text → Bool) (o : Option Json) → Ensures (λ s. test s ≡ true) (string_field test o)
unfolding string_field
string_field-Ensures test none = tt
string_field-Ensures test (some null) = tt
string_field-Ensures test (some (boolean b)) = tt
string_field-Ensures test (some (number n)) = tt
string_field-Ensures test (some (other_number t)) = tt
string_field-Ensures test (some (array es)) = tt
string_field-Ensures test (some (object ms)) = tt
string_field-Ensures test (some (string s)) = elim (Bool-cases (test s)) [
  | inl passed ↦ rw passed passed
  | inr failed ↦ rw failed tt
]

-- The text, if there is one, passes the test.
abbrev Each : (Text → Bool) → Option Text → Type 0
Each test o = (s : Text) → o ≡ some s → test s ≡ true

optional_field-Ensures :
    (test : Text → Bool) (o : Option Json) → Ensures (Each test) (optional_field test o)
unfolding optional_field
optional_field-Ensures test none = λ s e. absurd (cc e)
optional_field-Ensures test (some j) =
    Ensures-bind (λ s. test s ≡ true) (Each test) (string_field test (some j)) (λ s. ok (some s))
      (string_field-Ensures test (some j))
      (λ a passed s e. let same : a ≡ s = cc e in rw same at passed)

abbrev HasFields : DashboardRequest → Type 0
HasFields frame =
    (is_known_method frame.method ≡ true)
    × Each is_system_id frame.system_id
    × Each is_workspace_id frame.workspace_id

request_fields-HasFields :
    (ms : Members) (frame : DashboardRequest) → request_fields ms ≡ ok frame → HasFields frame
unfolding request_fields
request_fields-HasFields ms frame h =
    let (_, _, h₁) = bind-ok (check (has_only request_names ms) malformed) _ frame h in
    let (_, _, h₂) =
      bind-ok (string_field (is_text (text "req")) (field (text "type") ms)) _ frame h₁ in
    let (_, _, h₃) =
      bind-ok (string_field (is_text protocol_version) (field (text "v") ms)) _ frame h₂ in
    let (_, _, h₄) = bind-ok (string_field (is_sized 128) (field (text "id") ms)) _ frame h₃ in
    let (method, got, h₅) =
      bind-ok (string_field is_known_method (field (text "method") ms)) _ frame h₄ in
    let (system, got', h₆) =
      bind-ok (optional_field is_system_id (field (text "systemId") ms)) _ frame h₅ in
    let (workspace, got'', h₇) =
      bind-ok (optional_field is_workspace_id (field (text "workspaceId") ms)) _ frame h₆ in
    subst HasFields (ok-injective _ frame h₇) (
      subst (Ensures (λ s. is_known_method s ≡ true)) got
          (string_field-Ensures is_known_method (field (text "method") ms)),
      subst (Ensures (Each is_system_id)) got'
          (optional_field-Ensures is_system_id (field (text "systemId") ms)),
      subst (Ensures (Each is_workspace_id)) got''
          (optional_field-Ensures is_workspace_id (field (text "workspaceId") ms)),
    )

abbrev pub IsAdmitted : (Json → ℕ) → DashboardRequest → Type 0
IsAdmitted json_bytes frame =
    HasFields frame
    × (requires_system frame.method ≡ true → (s : Text) × (frame.system_id ≡ some s))
    × (requires_workspace frame.method ≡ true → (w : Text) × (frame.workspace_id ≡ some w))
    × ((p : Json) → frame.params ≡ some p → Allowed json_bytes p)

issues-IsAdmitted :
    (json_bytes : Json → ℕ) (frame : DashboardRequest)
    → HasFields frame
    → request_issues json_bytes frame ≡ []
    → IsAdmitted json_bytes frame
unfolding request_issues
issues-IsAdmitted json_bytes frame right clear =
    let (systems, rest) =
      append-empty
        (unless (not (requires_system frame.method) || is_some frame.system_id) system_required) _
        clear in
    let (workspaces, params) =
      append-empty
        (unless (not (requires_workspace frame.method) || is_some frame.workspace_id)
          workspace_required)
        _ rest in
    (
      right,
      given _ _ (unless-empty _ system_required systems),
      given _ _ (unless-empty _ workspace_required workspaces),
      λ p e. params_issues-empty json_bytes p (ap (params_issues json_bytes) (sym e) ∙ params),
    )

-- A request that parses has a known method and ids that fit their patterns, the system and the
-- workspace that its method requires, no forbidden key in its params under eight arrays and objects
-- or fewer, and params of at most 64 KiB.
pub request_schema-IsAdmitted :
    (json_bytes : Json → ℕ) (j : Json) (frame : DashboardRequest)
    → request_schema json_bytes j ≡ ok frame
    → IsAdmitted json_bytes frame
unfolding request_schema
request_schema-IsAdmitted json_bytes null frame h = absurd (cc h)
request_schema-IsAdmitted json_bytes (boolean b) frame h = absurd (cc h)
request_schema-IsAdmitted json_bytes (number n) frame h = absurd (cc h)
request_schema-IsAdmitted json_bytes (other_number t) frame h = absurd (cc h)
request_schema-IsAdmitted json_bytes (string t) frame h = absurd (cc h)
request_schema-IsAdmitted json_bytes (array es) frame h = absurd (cc h)
request_schema-IsAdmitted json_bytes (object ms) frame h =
    let (read, fields, accepted) = bind-ok (request_fields ms) _ frame h in
    let (clear, same) = accept-ok read frame _ accepted in
    let right = request_fields-HasFields ms read fields in
    subst (IsAdmitted json_bytes) same (issues-IsAdmitted json_bytes read right clear)
