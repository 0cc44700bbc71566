-- ===== src/Protocol/Envelope.antt =====
-- packages/protocol/src/envelope.ts: the frames that a client and the Gateway exchange. Of `zod` the
-- documented behaviour is written out: a strict object has no other keys, and the refinement of a
-- frame runs once its fields are right. `is_date` tells whether `Date.parse` gives a number and
-- `json_bytes` counts the bytes of a value's JSON text. A refused frame comes with its issues; those
-- of its fields are not told apart.
pub mod Admitted
use ai_verse_dashboard.Base.{
  ◌||◌, ◌>>◌, ℕ, ◌*◌, Bool, true, false, not, ◌&&◌, Option, none, some, List, [], ◌∷◌, ◌++◌,
  Outcome, ok, err, ◌>>=◌, check, leb, ◌==◌, length, any, if◌then◌else◌,
}
use ai_verse_dashboard.Base.Text.{Text, text, ◌===◌, member}
use ai_verse_dashboard.Protocol.Ids.{is_system_id, is_workspace_id}
use ai_verse_dashboard.Protocol.Methods.{
  ProtocolFault, invalid_envelope, system_required, workspace_required, raw_root_forbidden,
  payload_too_large, version_mismatch, is_known_method, requires_system, requires_workspace,
}
use ai_verse_dashboard.Protocol.Json.{
  Json, object, boolean, number, string, Members, close, member_of, check_no_raw_roots,
}
use ai_verse_dashboard.Protocol.Fields.{
  field, has_only, Faults, malformed, string_field, optional_field, boolean_field, number_field,
  is_sized, is_some, unless, accept, is_text,
}

abbrev pub protocol_version : Text
protocol_version = text "1.0"

abbrev pub supported_majors : List ℕ
supported_majors = 1 ∷ []

abbrev pub max_params_bytes : ℕ
max_params_bytes = 64 * 1024

pub record DashboardRequest : Type 0 where
  pub id : Text
  pub method : Text
  pub system_id : Option Text
  pub workspace_id : Option Text
  pub params : Option Json

pub record ProtocolError : Type 0 where
  pub code : Text
  pub message : Text

pub record DashboardResponse : Type 0 where
  pub id : Text
  pub is_ok : Bool
  pub system_id : Option Text
  pub result : Option Json
  pub error : Option ProtocolError
  pub observed_at : Text
  pub source_version : Option Text

pub record DashboardEvent : Type 0 where
  pub event : Text
  pub system_id : Text
  pub workspace_id : Option Text
  pub seq : ℕ
  pub observed_at : Text
  pub payload : Option Json

pub data Frame : Type 0 where
  request : DashboardRequest → Frame
  response : DashboardResponse → Frame
  event : DashboardEvent → Frame

unfoldable pub raw_roots : Option Text → Faults
raw_roots none = []
raw_roots (some at) = raw_root_forbidden at ∷ []

module _ (json_bytes : Json → ℕ) where
  unfoldable pub params_issues : Option Json → Faults
  unfolding unless raw_roots check_no_raw_roots
  params_issues none = []
  params_issues (some p) =
      raw_roots (check_no_raw_roots p)
      ++ unless (leb (json_bytes p) max_params_bytes) payload_too_large

  -- The refinement of a request.
  unfoldable pub request_issues : DashboardRequest → Faults
  unfolding unless is_some params_issues requires_system requires_workspace
  request_issues frame =
      unless (not (requires_system frame.method) || is_some frame.system_id) system_required
      ++ (unless (not (requires_workspace frame.method) || is_some frame.workspace_id)
            workspace_required
          ++ params_issues frame.params)

abbrev pub request_names : List Text
request_names =
    text "type"
    ∷ text "v"
    ∷ text "id"
    ∷ text "method"
    ∷ text "systemId"
    ∷ text "workspaceId"
    ∷ text "params"
    ∷ []

unfoldable pub request_fields : Members → Outcome Faults DashboardRequest
unfolding text field has_only string_field optional_field is_sized is_text is_known_method
    is_system_id is_workspace_id
request_fields ms =
    check (has_only request_names ms) malformed
    >> (string_field (is_text (text "req")) (field (text "type") ms) >>= λ type.
        string_field (is_text protocol_version) (field (text "v") ms) >>= λ v.
        string_field (is_sized 128) (field (text "id") ms) >>= λ id.
        string_field is_known_method (field (text "method") ms) >>= λ method.
        optional_field is_system_id (field (text "systemId") ms) >>= λ system_id.
        optional_field is_workspace_id (field (text "workspaceId") ms) >>= λ workspace_id.
        ok (record {
          id = id;
          method = method;
          system_id = system_id;
          workspace_id = workspace_id;
          params = field (text "params") ms;
        }))

unfoldable pub error_field : Option Json → Outcome Faults (Option ProtocolError)
unfolding text field string_field is_sized
error_field none = ok none
error_field (some (object ms)) = string_field (is_sized 64) (field (text "code") ms) >>= λ code.
    string_field (is_sized 1024) (field (text "message") ms) >>= λ message.
    ok (some (record { code = code; message = message }))
error_field (some j) = err malformed

-- The refinement of a response: a plain error, with no code of the protocol.
unfoldable pub response_issues : DashboardResponse → Faults
unfolding unless is_some
response_issues frame =
    unless (not (frame.is_ok && is_some frame.error)) invalid_envelope
    ++ unless (frame.is_ok || is_some frame.error) invalid_envelope

module _ (is_date : Text → Bool) where
  unfoldable pub is_date_time : Text → Bool
  unfolding is_sized
  is_date_time s = is_sized 64 s && is_date s

  unfoldable pub response_fields : Members → Outcome Faults DashboardResponse
  unfolding text field has_only string_field optional_field boolean_field error_field is_sized
      is_text is_system_id is_date_time
  response_fields ms =
      check
        (has_only
          (text "type"
            ∷ text "v"
            ∷ text "id"
            ∷ text "ok"
            ∷ text "systemId"
            ∷ text "result"
            ∷ text "error"
            ∷ text "observedAt"
            ∷ text "sourceVersion"
            ∷ [])
          ms)
        malformed
      >> (string_field (is_text (text "res")) (field (text "type") ms) >>= λ type.
          string_field (is_text protocol_version) (field (text "v") ms) >>= λ v.
          string_field (is_sized 128) (field (text "id") ms) >>= λ id.
          boolean_field (field (text "ok") ms) >>= λ is_ok.
          optional_field is_system_id (field (text "systemId") ms) >>= λ system_id.
          error_field (field (text "error") ms) >>= λ error.
          string_field is_date_time (field (text "observedAt") ms) >>= λ observed_at.
          optional_field (is_sized 128) (field (text "sourceVersion") ms) >>= λ source_version.
          ok (record {
            id = id;
            is_ok = is_ok;
            system_id = system_id;
            result = field (text "result") ms;
            error = error;
            observed_at = observed_at;
            source_version = source_version;
          }))

  unfoldable pub event_fields : Members → Outcome Faults DashboardEvent
  unfolding text field has_only string_field optional_field number_field is_sized is_text
      is_system_id is_workspace_id is_date_time
  event_fields ms =
      check
        (has_only
          (text "type"
            ∷ text "v"
            ∷ text "event"
            ∷ text "systemId"
            ∷ text "workspaceId"
            ∷ text "seq"
            ∷ text "observedAt"
            ∷ text "payload"
            ∷ [])
          ms)
        malformed
      >> (string_field (is_text (text "event")) (field (text "type") ms) >>= λ type.
          string_field (is_text protocol_version) (field (text "v") ms) >>= λ v.
          string_field (is_sized 128) (field (text "event") ms) >>= λ event.
          string_field is_system_id (field (text "systemId") ms) >>= λ system_id.
          optional_field is_workspace_id (field (text "workspaceId") ms) >>= λ workspace_id.
          number_field (field (text "seq") ms) >>= λ seq.
          string_field is_date_time (field (text "observedAt") ms) >>= λ observed_at. ok (record {
            event = event;
            system_id = system_id;
            workspace_id = workspace_id;
            seq = seq;
            observed_at = observed_at;
            payload = field (text "payload") ms;
          }))

unfoldable pub request_schema : (Json → ℕ) → Json → Outcome Faults DashboardRequest
unfolding request_fields request_issues accept
request_schema json_bytes (object ms) =
    request_fields ms >>= λ frame. accept frame (request_issues json_bytes frame)
request_schema json_bytes _ = err malformed

unfoldable pub response_schema : (Text → Bool) → Json → Outcome Faults DashboardResponse
unfolding response_fields response_issues accept
response_schema is_date (object ms) =
    response_fields is_date ms >>= λ frame. accept frame (response_issues frame)
response_schema is_date _ = err malformed

unfoldable pub event_schema : (Text → Bool) → Json → Outcome Faults DashboardEvent
unfolding event_fields
event_schema is_date (object ms) = event_fields is_date ms
event_schema is_date _ = err malformed

-- The text of the tag, if the value is an object with one.
tag_of : Json → Option Text
unfolding text field
tag_of (object ms) = text_only (field (text "type") ms)
  where
    text_only : Option Json → Option Text
    text_only (some (string s)) = some s
    text_only _ = none
tag_of _ = none

unfoldable pub parse_frame : (Json → ℕ) → (Text → Bool) → Json → Outcome Faults Frame
unfolding text ◌===◌ tag_of request_schema response_schema event_schema
parse_frame json_bytes is_date data' = by_tag (tag_of data')
  where
    by_tag : Option Text → Outcome Faults Frame
    by_tag none = err malformed
    by_tag (some tag) =
        if tag === text "req"
        then (request_schema json_bytes data' >>= λ frame. ok (request frame))
        else if tag === text "res"
        then (response_schema is_date data' >>= λ frame. ok (response frame))
        else if tag === text "event"
        then (event_schema is_date data' >>= λ frame. ok (event frame))
        else err malformed

pub record HandshakeResult : Type 0 where
  pub server_protocol : Text
  pub supported : List ℕ
  pub phase : Text

-- The client's major is any JSON value.
unfoldable pub negotiate_handshake : Json → Outcome Faults HandshakeResult
unfolding text number_field
negotiate_handshake client_major = number_field (some client_major) >>= λ major.
    if any (λ m. m == major) supported_majors
    then ok (record {
      server_protocol = protocol_version;
      supported = supported_majors;
      phase = text "phase-2-live";
    })
    else err (version_mismatch ∷ [])

unfoldable pub subscription_request_schema : Json → Outcome Faults Text
unfolding text field has_only string_field is_text is_workspace_id
subscription_request_schema (object ms) =
    check (has_only (text "type" ∷ text "workspaceId" ∷ []) ms) malformed
    >> (string_field (is_text (text "subscribe")) (field (text "type") ms) >>= λ type.
        string_field is_workspace_id (field (text "workspaceId") ms))
subscription_request_schema _ = err malformed
