-- ===== src/Client/Chat/Answers.antt =====
-- packages/client/src/conversation-run.ts: what a method does with the answer that it awaited. An
-- answer is JSON or a thrown error, with its code where that is a string. `is_date` tells whether
-- `Date.parse` gives a finite number.
use ai_verse_dashboard.Base.{
  ◌+◌, Bool, true, false, not, ◌&&◌, Option, none, some, List, [], ◌∷◌, Outcome, ok, err, ◌>>=◌,
  ◌>>◌, check, if◌then◌else◌,
}
use ai_verse_dashboard.Base.Text.{Text, text, ◌===◌, member}
use ai_verse_dashboard.Protocol.Json.{Json}
use ai_verse_dashboard.Client.Runs.{
  RequiredScope, Run, as_run, require_verified_completion, canonical_readback_error,
  binding_mismatch, is_completed, is_terminal, phase, ChatRunPhase, running, completed,
}
use ai_verse_dashboard.Client.Chat.{
  PersonalChatRunController, ChatRunView, Fence, Call, Action, pause, resume, read_back,
  ActiveRequest, show, interrupt, is_valid, is_current, is_given, confirm_canonical_output,
}
use ai_verse_dashboard.Client.Chat.Stream.{subscribe, reconcile}

abbrev pub Answer : Type 0
Answer = Outcome (Option Text) Json

abbrev pub Next : Type 0
Next = PersonalChatRunController × Option Call

unfoldable pub is_running : ChatRunPhase → Bool
is_running running = true
is_running _ = false

unfoldable pub is_finished : ChatRunPhase → Bool
is_finished completed = true
is_finished _ = false

unfoldable pub text_or : Text → Option Text → Text
text_or t none = t
text_or t (some s) = s

-- `errorCode: typeof error.code === "string" ? error.code : fallback`
unfoldable pub refuse : Text → Option Text → PersonalChatRunController → PersonalChatRunController
unfolding text_or interrupt
refuse fallback code s = interrupt (text_or fallback code) s

-- `next === "completed" ? run.output ?? "" : ""`
unfoldable pub final_output : Run → Text
unfolding is_finished phase text_or
final_output run = if is_finished (phase run.status) then text_or [] run.output else []

-- The view of a run that the owner has answered with.
unfoldable pub owner_view : Run → PersonalChatRunController → ChatRunView
unfolding phase final_output
owner_view run s = record s.view {
  phase = phase run.status;
  canonical_status = some run.status;
  receipt = some run.receipt;
  output = final_output run;
  error_code = none;
  context_limited = s.context_limited;
}

-- `request.sessionId && run.sessionId !== request.sessionId`, refused where it is true.
unfoldable pub is_bound : Option Text → Run → Bool
unfolding is_given
is_bound none run = true
is_bound (some id) run = is_given run.session_id (some id)

-- What is left of `stop` and `checkpoint` where the owner's answer is taken.
unfoldable pub settle : Fence → Run → PersonalChatRunController → PersonalChatRunController
unfolding subscribe is_running phase
settle fence run s = if is_running (phase run.status) then subscribe fence run.run_id s else s

-- `confirmCanonicalOutput` and `show`, with the session of the run or without.
unfoldable pub adopt : Run → PersonalChatRunController → PersonalChatRunController
unfolding show owner_view confirm_canonical_output
adopt run s =
    let confirmed = confirm_canonical_output run s in
    show (record (owner_view run confirmed) { session_id = some run.session_id }) confirmed

unfoldable pub adopt_in_place : Run → PersonalChatRunController → PersonalChatRunController
unfolding show owner_view confirm_canonical_output
adopt_in_place run s =
    let confirmed = confirm_canonical_output run s in show (owner_view run confirmed) confirmed

-- `submit`
unfoldable pub created_view : Run → PersonalChatRunController → ChatRunView
unfolding phase is_completed text_or
created_view run s = record s.view {
  run_id = some run.run_id;
  session_id = some run.session_id;
  receipt = some run.receipt;
  phase = if is_completed run.status then running else phase run.status;
  canonical_status = some run.status;
  output = if is_completed run.status then [] else text_or [] run.output;
}

unfoldable pub bound_run : Option Text → Run → Outcome Text Run
unfolding is_bound
bound_run session run = if is_bound session run then ok run else err binding_mismatch

unfoldable pub attach : Fence → Run → PersonalChatRunController → PersonalChatRunController
unfolding subscribe is_terminal
attach fence run s = if is_terminal s.view.phase then s else subscribe fence run.run_id s

unfoldable pub follow : Fence → Run → PersonalChatRunController → Next
unfolding show created_view reconcile attach is_completed
follow fence run s =
    let shown = show (created_view run s) s in
    if is_completed run.status
    then reconcile fence run.run_id shown
    else (attach fence run shown, none)

-- A run that is resumed replays one more cycle.
unfoldable pub count_marker : Action → PersonalChatRunController → Run → PersonalChatRunController
unfolding is_running phase
count_marker pause s run = s
count_marker resume s run =
    if is_running (phase run.status)
    then record s { resume_markers_required = s.resume_markers_required + 1 }
    else s

unfoldable pub is_refusal : List Text → Option Text → Bool
unfolding ◌===◌
is_refusal codes none = false
is_refusal codes (some code) = member code codes

abbrev pub stop_refusals : List Text
stop_refusals = text "RUN_NOT_CANCELABLE" ∷ []

abbrev pub checkpoint_refusals : List Text
checkpoint_refusals = text "RUN_NOT_PAUSABLE" ∷ text "RUN_NOT_RESUMABLE" ∷ []

module _ (is_date : Text → Bool) where
  -- A run of the right session, with its output if it is completed.
  unfoldable pub verified : Json → RequiredScope → Text → Option Text → Outcome Text Run
  unfolding as_run is_bound require_verified_completion
  verified j scope run_id session = as_run is_date j scope (some run_id) >>= λ run.
      check (is_bound session run) binding_mismatch >> (require_verified_completion run >> ok run)

  unfoldable pub on_created : Fence → ActiveRequest → Answer → PersonalChatRunController → Next
  unfolding text refuse as_run bound_run follow is_valid
  on_created fence request answer s = if is_valid fence s then react answer else (s, none)
    where
      taken : Outcome Text Run → Next
      taken (err code) = (refuse (text "CHAT_SUBMISSION_UNCERTAIN") (some code) s, none)
      taken (ok run) = follow fence run s

      react : Answer → Next
      react (err code) = (refuse (text "CHAT_SUBMISSION_UNCERTAIN") code s, none)
      react (ok j) = taken (as_run is_date j fence.scope none >>= bound_run request.session_id)

  -- `reconnect`
  unfoldable pub on_reconnected : Fence → Text → Answer → PersonalChatRunController → Next
  unfolding text refuse verified adopt settle is_current is_terminal
  on_reconnected fence run_id answer s =
      if is_current fence run_id s && not (is_terminal s.view.phase)
      then react answer
      else (s, none)
    where
      taken : Outcome Text Run → Next
      taken (err code) = (refuse (text "CHAT_RECONNECT_FAILED") (some code) s, none)
      taken (ok run) = (settle fence run (adopt run s), none)

      react : Answer → Next
      react (err code) = (refuse (text "CHAT_RECONNECT_FAILED") code s, none)
      react (ok j) = taken (verified j fence.scope run_id s.view.session_id)

  -- `stop`, `checkpoint`: after the refusal of the owner the run is read back.
  unfoldable pub controlled :
      (PersonalChatRunController → Run → PersonalChatRunController)
      → List Text
      → Text
      → Fence
      → Text
      → Text
      → Answer
      → PersonalChatRunController
      → Next
  unfolding refuse verified adopt settle is_current is_refusal text_or
  controlled mark refusals fallback fence run_id session_id answer s = react answer
    where
      failed_with : Option Text → Next
      failed_with code =
          if is_current fence run_id s then (refuse fallback code s, none) else (s, none)

      taken : Outcome Text Run → Next
      taken (err code) = failed_with (some code)
      taken (ok run) = (settle fence run (adopt run (mark s run)), none)

      react : Answer → Next
      react (ok j) =
          if is_current fence run_id s
          then taken (verified j fence.scope run_id (some session_id))
          else (s, none)
      react (err code) =
          if is_refusal refusals code
          then (s, some (read_back fence run_id session_id (text_or fallback code)))
          else failed_with code

  unfoldable pub on_canceled : Fence → Text → Text → Answer → PersonalChatRunController → Next
  unfolding text controlled
  on_canceled = controlled (λ s run. s) stop_refusals (text "CHAT_STOP_UNCERTAIN")

  unfoldable pub on_checkpoint :
      Action → Fence → Text → Text → Answer → PersonalChatRunController → Next
  unfolding text controlled count_marker
  on_checkpoint action =
      controlled (count_marker action) checkpoint_refusals (text "CHAT_CONTROL_UNCERTAIN")

  unfoldable pub on_read_back :
      Fence → Text → Text → Text → Answer → PersonalChatRunController → Next
  unfolding verified adopt_in_place settle is_current canonical_readback_error interrupt text_or
  on_read_back fence run_id session_id code answer s =
      if is_current fence run_id s then react answer else (s, none)
    where
      failed_with : Option Text → Next
      failed_with issue = (interrupt (text_or code (canonical_readback_error issue)) s, none)

      taken : Outcome Text Run → Next
      taken (err issue) = failed_with (some issue)
      taken (ok run) = (settle fence run (adopt_in_place run s), none)

      react : Answer → Next
      react (err issue) = failed_with issue
      react (ok j) = taken (verified j fence.scope run_id (some session_id))
