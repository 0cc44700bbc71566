-- ===== src/Live/Timeline.antt =====
-- packages/live/src/timeline.ts: typed timeline entries and their validation.
-- A field of an untrusted record is a `Value`; `other` stands for what is neither a string, `null`
-- nor `undefined`. `Date.parse` enters as the test `is_date`, the clock as the text `now`.
pub mod Laws
use Prim.Native.String.{String}
use ai_verse_dashboard.Base.{
  ℕ, ◌≡◌, Bool, true, false, ◌||◌, Option, none, some, List, [], ◌∷◌, Outcome, ok, err, ◌>>=◌, ltb,
  length, take, if◌then◌else◌,
}
use ai_verse_dashboard.Base.Text.{Text, text, ◌===◌}
use ai_verse_dashboard.Protocol.Ids.{is_record_id}

pub data Value : Type 0 where
  undefined null other : Value
  str : Text → Value

pub data Kind : Type 0 where
  message tool_call approval task_card handoff file_card diff_card preview_card : Kind
  run_event error_event command_confirm : Kind

pub data Role : Type 0 where
  user agent system : Role

unfoldable pub kind_name : Kind → Text
kind_name message = text "message"
kind_name tool_call = text "tool-call"
kind_name approval = text "approval"
kind_name task_card = text "task-card"
kind_name handoff = text "handoff"
kind_name file_card = text "file-card"
kind_name diff_card = text "diff-card"
kind_name preview_card = text "preview-card"
kind_name run_event = text "run-event"
kind_name error_event = text "error-event"
kind_name command_confirm = text "command-confirm"

-- `TIMELINE_KINDS`
abbrev pub timeline_kinds : List Kind
timeline_kinds =
    message ∷ tool_call ∷ approval ∷ task_card ∷ handoff ∷ file_card ∷ diff_card ∷ preview_card
    ∷ run_event ∷ error_event ∷ command_confirm ∷ []

-- The kind of that name among the listed ones.
unfoldable pub kind_among : List Kind → Text → Option Kind
unfolding kind_name
kind_among [] name = none
kind_among (k ∷ ks) name = if kind_name k === name then some k else kind_among ks name

unfoldable pub role_of : Text → Option Role
role_of name =
    if name === text "user"
    then some user
    else if name === text "agent"
    then some agent
    else if name === text "system"
    then some system
    else none

pub record Ref : Type 0 where
  pub kind : Text
  pub id : Text

-- `raw.ref`: reading a field of `null` throws a TypeError; a primitive has no `kind` and no `id`.
pub data RawRef : Type 0 where
  undefined null : RawRef
  object : (kind id : Value) → RawRef

pub record RawEntry : Type 0 where
  pub id : Value
  pub kind : Value
  pub role : Value
  pub body : Value
  pub ref : RawRef
  pub created_at : Value

pub record Scope : Type 0 where
  pub system_id : Text
  pub workspace_id : Text
  pub session_id : Text

pub record TimelineEntry : Type 0 where
  pub id : Text
  pub kind : Kind
  pub role : Role
  pub system_id : Text
  pub workspace_id : Text
  pub session_id : Text
  pub body : Text
  pub ref : Option Ref
  pub created_at : Text

pub data TimelineFault : Type 0 where
  bad_id bad_kind bad_role bad_body bad_ref type_error : TimelineFault

abbrev pub max_body : ℕ
max_body = 8192

check_id : Value → Outcome TimelineFault Text
check_id (str s) = if is_record_id s then ok s else err bad_id
check_id _ = err bad_id

found_kind : Option Kind → Outcome TimelineFault Kind
found_kind none = err bad_kind
found_kind (some k) = ok k

-- `raw.kind ?? "message"`
check_kind : Value → Outcome TimelineFault Kind
unfolding found_kind
check_kind undefined = ok message
check_kind null = ok message
check_kind other = err bad_kind
check_kind (str s) = found_kind (kind_among timeline_kinds s)

found_role : Option Role → Outcome TimelineFault Role
found_role none = err bad_role
found_role (some r) = ok r

-- `raw.role ?? "user"`
check_role : Value → Outcome TimelineFault Role
unfolding found_role
check_role undefined = ok user
check_role null = ok user
check_role other = err bad_role
check_role (str s) = found_role (role_of s)

check_body : Value → Outcome TimelineFault Text
check_body (str []) = err bad_body
check_body (str (c ∷ s)) = if ltb max_body (length (c ∷ s)) then err bad_body else ok (c ∷ s)
check_body _ = err bad_body

check_ref : RawRef → Outcome TimelineFault (Option Ref)
check_ref undefined = ok none
check_ref null = err type_error
check_ref (object (str kind) (str id)) =
    ok (some (record { kind = take 64 kind; id = take 128 id }))
check_ref (object _ _) = err bad_ref

module _ (is_date : Text → Bool) (now : Text) where
  stamp : Value → Text
  stamp (str s) = if is_date s then s else now
  stamp _ = now

  unfoldable pub normalize_timeline_entry : Scope → RawEntry → Outcome TimelineFault TimelineEntry
  unfolding check_id check_kind check_role check_body check_ref stamp
  normalize_timeline_entry scope raw = do
    id ← check_id raw.id
    kind ← check_kind raw.kind
    role ← check_role raw.role
    body ← check_body raw.body
    ref ← check_ref raw.ref
    ok (record {
      id = id;
      kind = kind;
      role = role;
      system_id = scope.system_id;
      workspace_id = scope.workspace_id;
      session_id = scope.session_id;
      body = body;
      ref = ref;
      created_at = stamp raw.created_at;
    })
