-- ===== src/Client/Chat.antt =====
-- packages/client/src/conversation-run.ts: the controller of one conversation. Its methods await the
-- Gateway, so a method is the part up to its request, which is left as a `Call`, and the part after
-- the answer is in Chat/Answers. The selection of the client that it shares is part of the state. A
-- missing `contextLimited` counts as false. A cursor into a session's history is told from another by its
-- serial number, in the place of the identity of its object.
pub mod Stream
pub mod Answers
pub mod Checks
pub mod Methods
pub mod Pages
pub mod Moves
mod Examples
use ai_verse_dashboard.Base.{
  ℕ, ◌+◌, ◌≡◌, Bool, true, false, not, ◌&&◌, ◌||◌, Option, none, some, List, [], ◌∷◌, ◌++◌, ltb,
  ◌==◌, length, if◌then◌else◌,
}
use ai_verse_dashboard.Base.Text.{Text, text, ◌===◌}
use ai_verse_dashboard.Client.Runs.{
  ClientScope, RequiredScope, ChatRunReceipt, Run, ChatRunPhase, idle, submitting, running,
  interrupted, completed, canceled, is_completed, phase,
}
use ai_verse_dashboard.Client.History.{Turn, TurnRole, user, assistant, bounded_history}

pub record ChatRunView : Type 0 where
  pub scope : RequiredScope
  pub phase : ChatRunPhase
  pub run_id : Option Text
  pub session_id : Option Text
  pub output : Text
  pub error_code : Option Text
  pub canonical_status : Option Text
  pub context_limited : Bool
  pub receipt : Option ChatRunReceipt

pub record ActiveRequest : Type 0 where
  pub content : Text
  pub key : Text
  pub session_id : Option Text
  pub messages : List Turn

-- What an awaiting method and a stream remember: `epoch`, `scope` and `selection`.
pub record Fence : Type 0 where
  pub epoch : ℕ
  pub scope : RequiredScope
  pub selection : ℕ

-- The stream that is subscribed, with its own epoch.
pub record Subscription : Type 0 where
  pub fence : Fence
  pub stream_epoch : ℕ
  pub run_id : Text

-- Where the older pages of an opened session begin.
pub record Cursor : Type 0 where
  pub session_id : Text
  pub offset : ℕ
  pub total : ℕ
  pub seen : List Text
  pub serial : ℕ

-- `client_scope` and `selection` are the client's; `resume_markers_seen` belongs to the newest stream.
pub record PersonalChatRunController : Type 0 where
  pub client_scope : ClientScope
  pub selection : ℕ
  pub epoch : ℕ
  pub stream_epoch : ℕ
  pub status_refresh_epoch : ℕ
  pub resume_markers_required : ℕ
  pub awaiting_resume_marker : Bool
  pub resume_markers_seen : ℕ
  pub historical_older : Option Cursor
  pub cursors : ℕ
  pub stream : Option Subscription
  pub seen : List Text
  pub last_seq : ℕ
  pub active_request : Option ActiveRequest
  pub confirmed_turns : List Turn
  pub context_limited : Bool
  pub confirmed_run_id : Option Text
  pub view : ChatRunView

pub data Action : Type 0 where
  pause resume : Action

-- A request to the Gateway that a method awaits.
pub data Call : Type 0 where
  create_run : Fence → ActiveRequest → Call
  reconnect_run : Fence → Text → Call
  cancel_run : Fence → Text → Text → Text → Call
  checkpoint_run : Fence → Action → Text → Text → Text → Call
  read_back : Fence → Text → Text → Text → Call
  refresh_run : Fence → ℕ → Text → Text → Call
  reconcile_run : Fence → Text → Call
  recover_run : Fence → Text → Call

abbrev pub fresh_view : RequiredScope → ChatRunView
fresh_view scope = record {
  scope = scope;
  phase = idle;
  run_id = none;
  session_id = none;
  output = [];
  error_code = none;
  canonical_status = none;
  context_limited = false;
  receipt = none;
}

-- The constructor, for a client whose scope is complete.
pub new_controller : ClientScope → RequiredScope → ℕ → PersonalChatRunController
new_controller client_scope scope selection = record {
  client_scope = client_scope;
  selection = selection;
  epoch = 0;
  stream_epoch = 0;
  status_refresh_epoch = 0;
  resume_markers_required = 0;
  awaiting_resume_marker = false;
  resume_markers_seen = 0;
  historical_older = none;
  cursors = 0;
  stream = none;
  seen = [];
  last_seq = 0;
  active_request = none;
  confirmed_turns = [];
  context_limited = false;
  confirmed_run_id = none;
  view = fresh_view scope;
}

pub is_scope : RequiredScope → RequiredScope → Bool
unfolding ◌===◌
is_scope a b = a.system_id === b.system_id && a.workspace_id === b.workspace_id

pub is_given : Text → Option Text → Bool
unfolding ◌===◌
is_given id none = false
is_given id (some given) = given === id

-- A new stream ends the old one: the end of `reconcile`, `stop` and the like.
pub end_stream : PersonalChatRunController → PersonalChatRunController
end_stream s = record s { stream_epoch = s.stream_epoch + 1; stream = none }

pub show : ChatRunView → PersonalChatRunController → PersonalChatRunController
show view s = record s { view = view }

-- `{phase: "interrupted", errorCode: code}`
pub interrupt : Text → PersonalChatRunController → PersonalChatRunController
unfolding show
interrupt code s = show (record s.view { phase = interrupted; error_code = some code }) s

-- `reset`, without the epoch that it returns.
pub reset : RequiredScope → PersonalChatRunController → PersonalChatRunController
reset scope s = record s {
  epoch = s.epoch + 1;
  stream_epoch = s.stream_epoch + 1;
  stream = none;
  seen = [];
  last_seq = 0;
  active_request = none;
  resume_markers_required = 0;
  awaiting_resume_marker = false;
  historical_older = none;
  confirmed_turns = [];
  context_limited = false;
  confirmed_run_id = none;
  view = fresh_view scope;
}

pub fence_of : RequiredScope → PersonalChatRunController → Fence
fence_of scope s = record { epoch = s.epoch; scope = scope; selection = s.selection }

-- `current`
pub is_selected : RequiredScope → ClientScope → Bool
unfolding is_given ◌===◌
is_selected scope client_scope =
    scope.system_id === client_scope.system_id
    && is_given scope.workspace_id client_scope.workspace_id

-- `valid`
pub is_valid : Fence → PersonalChatRunController → Bool
unfolding is_selected
is_valid fence s =
    fence.epoch == s.epoch
    && is_selected fence.scope s.client_scope
    && s.selection == fence.selection

-- `valid` for a method that is about a run.
pub is_current : Fence → Text → PersonalChatRunController → Bool
unfolding is_valid is_given
is_current fence run_id s = is_valid fence s && is_given run_id s.view.run_id

-- What is left to do where `run` may be a confirmed answer to the active request.
confirm : Run → Option Text → ActiveRequest → PersonalChatRunController → PersonalChatRunController
unfolding is_completed is_given bounded_history
confirm run none request s = s
confirm run (some output) request s =
    let before = length s.confirmed_turns in
    let asked : Turn = record { role = user; content = request.content } in
    let answered : Turn = record { role = assistant; content = output } in
    let turns = bounded_history (s.confirmed_turns ++ asked ∷ answered ∷ []) in
    if not (is_completed run.status)
      || run.output_truncated
      || is_given run.run_id s.confirmed_run_id
    then s
    else record s {
      confirmed_run_id = some run.run_id;
      confirmed_turns = turns;
      context_limited = s.context_limited || ltb (length turns) (before + 2);
    }

confirm_request : Option ActiveRequest → Run → PersonalChatRunController → PersonalChatRunController
unfolding confirm
confirm_request none run s = s
confirm_request (some request) run s = confirm run run.output request s

pub confirm_canonical_output : Run → PersonalChatRunController → PersonalChatRunController
unfolding confirm_request
confirm_canonical_output run s = confirm_request s.active_request run s
