-- ===== src/Client/Runs.antt =====
-- packages/client/src/conversation-run.ts: the projection of a canonical run, read from the JSON that
-- the Gateway answers, and the phase that it shows. A thrown error is its code. `is_date` tells
-- whether `Date.parse` gives a finite number.
pub mod Verified
use ai_verse_dashboard.Base.{
  ℕ, ◌≡◌, Bool, true, false, not, ◌&&◌, ◌||◌, Option, none, some, List, [], ◌∷◌, Outcome, ok, err,
  ◌>>=◌, ◌>>◌, check, leb, ltb, ◌==◌, length, take, all, if◌then◌else◌,
}
use ai_verse_dashboard.Base.Text.{Text, text, ◌===◌, is_alnum, is_digit, is_lower, member}
use ai_verse_dashboard.Protocol.Json.{
  Json, object, null, boolean, number, other_number, string, array, Members, close, member_of,
}
use ai_verse_dashboard.Protocol.Fields.{field, has_only, is_text}

pub record ClientScope : Type 0 where
  pub system_id : Text
  pub workspace_id : Option Text

-- `Required<ClientScope>`
pub record RequiredScope : Type 0 where
  pub system_id : Text
  pub workspace_id : Text

pub record Usage : Type 0 where
  pub input_tokens : ℕ
  pub output_tokens : ℕ
  pub actions : ℕ

pub record ChatRunReceipt : Type 0 where
  pub usage : Option Usage
  pub created_at : Option Text
  pub completed_at : Option Text
  pub runtime_kind : Option Text

pub record Run : Type 0 where
  pub run_id : Text
  pub session_id : Text
  pub status : Text
  pub output : Option Text
  pub output_truncated : Bool
  pub receipt : ChatRunReceipt

pub data ChatRunPhase : Type 0 where
  idle submitting running interrupted completed failed canceled blocked paused : ChatRunPhase
  recovery_required : ChatRunPhase

unfoldable pub safe_unit : ℕ → Bool
unfolding is_alnum
safe_unit c = is_alnum c || c == b'.' || c == b'_' || c == b':' || c == b'-'

-- `/^[A-Za-z0-9][A-Za-z0-9._:-]{0,127}$/`
unfoldable pub is_safe_id : Text → Bool
unfolding is_alnum safe_unit
is_safe_id [] = false
is_safe_id (c ∷ s) = is_alnum c && all safe_unit s && leb (length s) 127

abbrev invalid_projection : Text
invalid_projection = text "INVALID_RUN_PROJECTION"

abbrev invalid_receipt : Text
invalid_receipt = text "INVALID_RUN_RECEIPT"

unfoldable pub is_filled : Text → Bool
is_filled [] = false
is_filled (c ∷ s) = true

-- `requiredScope`: an empty id is a missing one.
unfoldable pub required_scope : ClientScope → Outcome Text RequiredScope
unfolding text is_filled
required_scope scope = go scope.workspace_id
  where
    go : Option Text → Outcome Text RequiredScope
    go none = err (text "CHAT_SCOPE_REQUIRED")
    go (some workspace_id) =
        if is_filled scope.system_id && is_filled workspace_id
        then ok (record { system_id = scope.system_id; workspace_id = workspace_id })
        else err (text "CHAT_SCOPE_REQUIRED")

-- A text field that passes the test; an optional one may be missing.
unfoldable pub required : Text → (Text → Bool) → Option Json → Outcome Text Text
required fault test (some (string s)) = if test s then ok s else err fault
required fault test _ = err fault

unfoldable pub optional : Text → (Text → Bool) → Option Json → Outcome Text (Option Text)
unfolding required
optional fault test none = ok none
optional fault test (some j) = required fault test (some j) >>= λ s. ok (some s)

unfoldable pub optional_flag : Option Json → Outcome Text Bool
optional_flag none = ok false
optional_flag (some (boolean b)) = ok b
optional_flag (some j) = err invalid_projection

-- A safe integer of at most a million million.
unfoldable pub count_of : Option Json → Outcome Text ℕ
count_of (some (number n)) = if leb n 1_000_000_000_000 then ok n else err invalid_receipt
count_of _ = err invalid_receipt

unfoldable pub usage_of : Option Json → Outcome Text (Option Usage)
unfolding text field has_only count_of
usage_of none = ok none
usage_of (some (object ms)) = count_of (field (text "inputTokens") ms) >>= λ input_tokens.
    count_of (field (text "outputTokens") ms) >>= λ output_tokens.
    count_of (field (text "actions") ms) >>= λ actions.
    check (has_only (text "inputTokens" ∷ text "outputTokens" ∷ text "actions" ∷ []) ms)
      invalid_receipt
    >> ok (
        some (record {
          input_tokens = input_tokens;
          output_tokens = output_tokens;
          actions = actions;
        }))
usage_of (some j) = err invalid_receipt

-- `/^\d{4}-\d{2}-\d{2}T/`: `d` in the shape stands for a digit.
unfoldable pub has_shape : Text → Text → Bool
unfolding is_digit
has_shape [] s = true
has_shape (k ∷ shape) [] = false
has_shape (k ∷ shape) (c ∷ s) = (if k == b'd' then is_digit c else k == c) && has_shape shape s

unfoldable pub is_stamp : (Text → Bool) → Text → Bool
unfolding text has_shape
is_stamp is_date s =
    leb 20 (length s) && leb (length s) 35 && has_shape (text "dddd-dd-ddT") s && is_date s

-- `/^[a-z][a-z0-9_-]{0,31}$/`
unfoldable pub is_runtime_kind : Text → Bool
unfolding is_lower is_digit
is_runtime_kind [] = false
is_runtime_kind (c ∷ s) =
    is_lower c
    && all (λ d. is_lower d || is_digit d || d == b'_' || d == b'-') s
    && leb (length s) 31

unfoldable pub receipt_of : (Text → Bool) → Members → Outcome Text ChatRunReceipt
unfolding text field optional usage_of is_stamp is_runtime_kind
receipt_of is_date ms = usage_of (field (text "usage") ms) >>= λ usage.
    optional invalid_receipt (is_stamp is_date) (field (text "createdAt") ms) >>= λ created_at.
    optional invalid_receipt (is_stamp is_date) (field (text "completedAt") ms) >>= λ completed_at.
    optional invalid_receipt is_runtime_kind (field (text "runtimeKind") ms) >>= λ runtime_kind.
    ok (record {
      usage = usage;
      created_at = created_at;
      completed_at = completed_at;
      runtime_kind = runtime_kind;
    })

abbrev pub output_max : ℕ
output_max = 65_536

-- `runId === undefined || value.runId === runId`
unfoldable pub is_asked : Option Text → Text → Bool
unfolding ◌===◌
is_asked none id = true
is_asked (some asked) id = id === asked

unfoldable pub shorten : Option Text → Option Text
shorten none = none
shorten (some s) = some (take output_max s)

unfoldable pub is_long : Option Text → Bool
is_long none = false
is_long (some s) = ltb output_max (length s)

unfoldable pub as_run : (Text → Bool) → Json → RequiredScope → Option Text → Outcome Text Run
unfolding text field is_text required optional optional_flag receipt_of is_safe_id is_filled
    is_asked shorten is_long
as_run is_date (object ms) expected asked =
    required invalid_projection is_safe_id (field (text "runId") ms) >>= λ run_id.
    required invalid_projection is_safe_id (field (text "sessionId") ms) >>= λ session_id.
    required invalid_projection is_filled (field (text "status") ms) >>= λ status.
    required invalid_projection (is_text expected.workspace_id) (field (text "workspaceId") ms)
    >>= λ workspace_id.
        check (is_asked asked run_id) invalid_projection
        >> (required invalid_projection is_filled (field (text "systemId") ms) >>= λ system_id.
            required invalid_projection (is_text (text "canonical-gateway"))
              (field (text "source") ms)
            >>= λ source.
                optional invalid_projection (λ s. true) (field (text "output") ms) >>= λ output.
                optional_flag (field (text "outputTruncated") ms) >>= λ truncated.
                receipt_of is_date ms >>= λ receipt. ok (record {
                  run_id = run_id;
                  session_id = session_id;
                  status = status;
                  output = shorten output;
                  output_truncated = truncated || is_long output;
                  receipt = receipt;
                }))
as_run is_date _ expected asked = err invalid_projection

abbrev pub output_missing : Text
output_missing = text "CHAT_CANONICAL_OUTPUT_MISSING"

abbrev pub output_cut : Text
output_cut = text "CHAT_CANONICAL_OUTPUT_TRUNCATED"

abbrev pub binding_mismatch : Text
binding_mismatch = text "CHAT_SESSION_BINDING_MISMATCH"

unfoldable pub has_output : Option Text → Bool
has_output none = false
has_output (some s) = true

unfoldable pub is_completed : Text → Bool
unfolding text ◌===◌
is_completed status = status === text "completed"

unfoldable pub require_verified_completion : Run → Outcome Text (Unit {0})
unfolding text is_completed has_output
require_verified_completion run =
    if not (is_completed run.status)
    then ok tt
    else if run.output_truncated
    then err output_cut
    else if has_output run.output
    then ok tt
    else err output_missing

unfoldable pub is_readback_fault : Text → Bool
unfolding text ◌===◌
is_readback_fault code = code === output_missing || code === output_cut || code === binding_mismatch

-- What the error of a readback says that the first refusal does not.
unfoldable pub canonical_readback_error : Option Text → Option Text
unfolding is_readback_fault
canonical_readback_error none = none
canonical_readback_error (some code) = if is_readback_fault code then some code else none

unfoldable pub phase : Text → ChatRunPhase
unfolding text ◌===◌ is_completed
phase status =
    if is_completed status
    then completed
    else if status === text "failed"
    then failed
    else if status === text "canceled"
    then canceled
    else if member status (text "blocked" ∷ text "budget_limited" ∷ text "parked" ∷ [])
    then blocked
    else if member status (text "paused" ∷ text "paused_no_progress" ∷ [])
    then paused
    else if status === text "paused_recovery_required"
    then recovery_required
    else running

-- `TERMINAL`
unfoldable pub is_terminal : ChatRunPhase → Bool
is_terminal completed = true
is_terminal failed = true
is_terminal canceled = true
is_terminal blocked = true
is_terminal idle = false
is_terminal submitting = false
is_terminal running = false
is_terminal interrupted = false
is_terminal paused = false
is_terminal recovery_required = false
