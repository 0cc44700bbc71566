-- ===== src/Client/Chat/Methods.antt =====
-- packages/client/src/conversation-run.ts: the methods of the controller, up to the request that they
-- await. A method that refuses throws a code.
use ai_verse_dashboard.Base.{
  ℕ, ◌+◌, Bool, true, false, not, ◌&&◌, ◌||◌, Option, none, some, List, [], ◌∷◌, ◌++◌, Outcome, ok,
  err, attempt, check, ◌>>◌, leb, ◌==◌, all, length, if◌then◌else◌,
}
use ai_verse_dashboard.Base.Text.{Text, text}
use ai_verse_dashboard.Client.Runs.{
  ClientScope, RequiredScope, required_scope, is_safe_id, is_filled, ChatRunPhase, idle, submitting,
  running, interrupted, completed, canceled, paused, recovery_required,
}
use ai_verse_dashboard.Client.History.{Turn, user, bounded_history}
use ai_verse_dashboard.Client.Chat.{
  PersonalChatRunController, ChatRunView, ActiveRequest, Fence, Call, Action, pause, resume,
  create_run, reconnect_run, cancel_run, checkpoint_run, refresh_run, recover_run, end_stream, show,
  reset, fence_of, fresh_view,
}

-- A throw, or the request that the method awaits, with the state that is left.
abbrev pub Started : Type 0
Started = Outcome Text Call × PersonalChatRunController

-- White space and line ends of JavaScript.
unfoldable pub is_space : ℕ → Bool
is_space c =
    (leb 9 c && leb c 13)
    || c == 32
    || c == 160
    || c == 5760
    || (leb 8192 c && leb c 8202)
    || c == 8232
    || c == 8233
    || c == 8239
    || c == 8287
    || c == 12_288
    || c == 65_279

-- `!text.trim()`
unfoldable pub is_blank : Text → Bool
unfolding is_space
is_blank s = all is_space s

-- `sessionId && !SAFE_ID.test(sessionId)`
unfoldable pub is_unsafe : Option Text → Bool
unfolding is_filled is_safe_id
is_unsafe none = false
is_unsafe (some id) = is_filled id && not (is_safe_id id)

unfoldable pub has_id : Option Text → Bool
unfolding is_filled
has_id none = false
has_id (some id) = is_filled id

-- An empty id counts as none.
unfoldable pub given_id : Option Text → Option Text
unfolding is_filled
given_id none = none
given_id (some id) = if is_filled id then some id else none

unfoldable pub is_canceled : ChatRunPhase → Bool
is_canceled canceled = true
is_canceled _ = false

unfoldable pub is_interrupted : ChatRunPhase → Bool
is_interrupted interrupted = true
is_interrupted _ = false

unfoldable pub may_send : ChatRunPhase → Bool
may_send idle = true
may_send completed = true
may_send canceled = true
may_send _ = false

-- The session that a message continues.
unfoldable pub selected_session : Option Text → ChatRunView → Option Text
unfolding given_id
selected_session (some id) view = given_id (some id)
selected_session none view = continued view.phase
  where
    continued : ChatRunPhase → Option Text
    continued completed = given_id view.session_id
    continued canceled = given_id view.session_id
    continued _ = none

unfoldable pub is_empty : List Turn → Bool
is_empty [] = true
is_empty (t ∷ ts) = false

-- `send`, after its tests.
unfoldable pub sent :
    Text → Text → Option Text → RequiredScope → PersonalChatRunController → Started
unfolding bounded_history selected_session is_canceled has_id is_empty reset show fence_of
sent content key session_id scope s =
    let confirmed = bounded_history s.confirmed_turns in
    let limited =
      s.context_limited || is_canceled s.view.phase || (has_id session_id && is_empty confirmed) in
    let request : ActiveRequest = record {
      content = content;
      key = key;
      session_id = selected_session session_id s.view;
      messages = confirmed ++ record { role = user; content = content } ∷ [];
    } in
    let fresh = reset scope s in
    let ready = record fresh {
      confirmed_turns = confirmed;
      confirmed_run_id = s.confirmed_run_id;
      context_limited = limited;
      active_request = some request;
    } in
    (
      ok (create_run (fence_of scope ready) request),
      show (record ready.view { phase = submitting; context_limited = limited }) ready,
    )

unfoldable pub send : Text → Text → Option Text → PersonalChatRunController → Started
unfolding text is_blank is_safe_id is_unsafe may_send required_scope sent
send content key session_id s =
    attempt
      (check (not (is_blank content) && leb (length content) 32_768) (text "CHAT_MESSAGE_INVALID")
        >> (check (is_safe_id key && not (is_unsafe session_id)) (text "CHAT_REQUEST_ID_INVALID")
            >> (check (may_send s.view.phase) (text "CHAT_PREVIOUS_RUN_UNRESOLVED")
                >> required_scope s.client_scope)))
      s (λ scope. sent content key session_id scope s)

unfoldable pub resubmit : Option ActiveRequest → RequiredScope → PersonalChatRunController → Started
unfolding text show fence_of
resubmit none scope s = (err (text "CHAT_NOT_RETRYABLE"), s)
resubmit (some request) scope s = (
  ok (create_run (fence_of scope s) request),
  show (record s.view { phase = submitting; error_code = none }) s,
)

unfoldable pub is_present : Option ActiveRequest → Bool
is_present none = false
is_present (some request) = true

unfoldable pub retry_submission : PersonalChatRunController → Started
unfolding text is_interrupted is_present has_id required_scope resubmit
retry_submission s =
    attempt
      (check
          (is_interrupted s.view.phase && is_present s.active_request && not (has_id s.view.run_id))
          (text "CHAT_NOT_RETRYABLE")
        >> required_scope s.client_scope)
      s (λ scope. resubmit s.active_request scope s)

-- The view while a method about the run waits.
unfoldable pub waiting : PersonalChatRunController → PersonalChatRunController
unfolding show end_stream
waiting s =
    let ended = end_stream s in
    show (record ended.view { phase = submitting; output = []; error_code = none }) ended

-- A method about the run that is shown, and about its session.
unfoldable pub about_run :
    Option Text → Text → PersonalChatRunController → (Text → Started) → Started
unfolding is_filled
about_run none fault s go = (err fault, s)
about_run (some id) fault s go = if is_filled id then go id else (err fault, s)

unfoldable pub reconnect : PersonalChatRunController → Started
unfolding text is_interrupted is_safe_id required_scope about_run fence_of waiting
reconnect s = about_run s.view.run_id (text "CHAT_RECONNECT_UNAVAILABLE") s λ run_id.
    attempt
      (check (is_interrupted s.view.phase && is_safe_id run_id) (text "CHAT_RECONNECT_UNAVAILABLE")
        >> required_scope s.client_scope)
      s (λ scope. (ok (reconnect_run (fence_of scope s) run_id), waiting s))

unfoldable pub may_stop : ChatRunPhase → Bool
may_stop running = true
may_stop paused = true
may_stop recovery_required = true
may_stop _ = false

unfoldable pub may_act : Action → ChatRunPhase → Bool
may_act pause running = true
may_act pause _ = false
may_act resume paused = true
may_act resume recovery_required = true
may_act resume _ = false

-- `const epoch = ++this.epoch`
unfoldable pub next_epoch : PersonalChatRunController → PersonalChatRunController
next_epoch s = record s { epoch = s.epoch + 1 }

-- A control of the run that is shown, if the phase allows it.
unfoldable pub control :
    Bool → Text → (Fence → Text → Text → Call) → Text → PersonalChatRunController → Started
unfolding text is_safe_id required_scope about_run fence_of waiting next_epoch
control allowed fault call operation s =
    attempt (check (is_safe_id operation) (text "CHAT_CONTROL_ID_INVALID") >> check allowed fault) s
      λ _. about_run s.view.run_id fault s λ run_id.
        about_run s.view.session_id fault s λ session_id.
          attempt (required_scope s.client_scope) s λ scope.
            let moved = next_epoch s in
            (ok (call (fence_of scope moved) run_id session_id), waiting moved)

unfoldable pub stop : Text → PersonalChatRunController → Started
unfolding text control may_stop
stop operation s =
    control (may_stop s.view.phase) (text "CHAT_STOP_UNAVAILABLE")
      (λ fence run_id session_id. cancel_run fence run_id session_id operation) operation s

unfoldable pub unavailable : Action → Text
unfolding text
unavailable pause = text "CHAT_PAUSE_UNAVAILABLE"
unavailable resume = text "CHAT_RESUME_UNAVAILABLE"

unfoldable pub checkpoint : Action → Text → PersonalChatRunController → Started
unfolding control may_act unavailable
checkpoint action operation s =
    control (may_act action s.view.phase) (unavailable action)
      (λ fence run_id session_id. checkpoint_run fence action run_id session_id operation) operation
      s

unfoldable pub refresh_status : PersonalChatRunController → Started
unfolding text is_safe_id required_scope about_run fence_of
refresh_status s = about_run s.view.run_id fault s λ run_id.
    about_run s.view.session_id fault s λ session_id.
      attempt (check (is_safe_id run_id) fault >> required_scope s.client_scope) s λ scope.
        let check_epoch = s.status_refresh_epoch + 1 in
        (
          ok (refresh_run (fence_of scope s) check_epoch run_id session_id),
          record s { status_refresh_epoch = check_epoch },
        )
  where
    fault : Text
    fault = text "CHAT_REFRESH_UNAVAILABLE"

unfoldable pub recover : Text → PersonalChatRunController → Started
unfolding text is_safe_id required_scope reset show fence_of
recover run_id s =
    attempt
      (check (is_safe_id run_id) (text "CHAT_RUN_ID_INVALID") >> required_scope s.client_scope) s
      λ scope.
        let fresh = reset scope s in
        (
          ok (recover_run (fence_of scope fresh) run_id),
          show (record fresh.view { phase = submitting }) fresh,
        )

-- The client's `retarget`, which another pane may call too.
unfoldable pub select : ClientScope → PersonalChatRunController → PersonalChatRunController
select scope s = record s { client_scope = scope; selection = s.selection + 1 }

unfoldable pub retarget :
    ClientScope → PersonalChatRunController → Outcome Text (Unit {0}) × PersonalChatRunController
unfolding required_scope select reset
retarget scope s = attempt (required_scope scope) s λ selected. (
  ok tt,
  reset selected (
      select (record { system_id = selected.system_id; workspace_id = some selected.workspace_id })
        s),
)

unfoldable pub close : PersonalChatRunController → PersonalChatRunController
close s = record s {
  epoch = s.epoch + 1;
  stream = none;
  seen = [];
  active_request = none;
  resume_markers_required = 0;
  awaiting_resume_marker = false;
  historical_older = none;
  confirmed_turns = [];
  context_limited = false;
  confirmed_run_id = none;
  view = fresh_view s.view.scope;
}
