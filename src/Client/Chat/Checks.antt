-- ===== src/Client/Chat/Checks.antt =====
-- packages/client/src/conversation-run.ts: what the controller does with the answers to its own reads
-- of a run: the check that a user asks for, the read after a terminal event, and a recovery.
use ai_verse_dashboard.Base.{
  ℕ, Bool, true, not, ◌&&◌, ◌||◌, Option, none, some, [], Outcome, ok, err, ◌>>=◌, ◌>>◌, ◌==◌,
  if◌then◌else◌,
}
use ai_verse_dashboard.Base.Text.{Text, text, ◌===◌}
use ai_verse_dashboard.Client.Runs.{
  Run, as_run, require_verified_completion, is_readback_fault, output_cut, output_missing,
  has_output, is_completed, is_terminal, phase, ChatRunPhase, interrupted, paused,
  recovery_required,
}
use ai_verse_dashboard.Client.Chat.{
  PersonalChatRunController, Fence, Call, create_run, reconnect_run, cancel_run, checkpoint_run,
  read_back, refresh_run, reconcile_run, recover_run, end_stream, show, is_valid, is_current,
}
use ai_verse_dashboard.Client.Chat.Stream.{subscribe}
use ai_verse_dashboard.Client.Chat.Answers.{
  Answer, is_running, text_or, verified, bound_run, settle, adopt, on_created, on_reconnected,
  on_canceled, on_checkpoint, on_read_back, refuse,
}

-- `Number.MAX_SAFE_INTEGER`
abbrev pub max_safe_integer : ℕ
max_safe_integer = 9_007_199_254_740_991

unfoldable pub hold_markers : Run → PersonalChatRunController → PersonalChatRunController
unfolding is_running phase
hold_markers run s =
    if is_running (phase run.status)
    then record s { resume_markers_required = max_safe_integer }
    else s

unfoldable pub report : Text → PersonalChatRunController → PersonalChatRunController
unfolding is_readback_fault show end_stream
report code s =
    if is_readback_fault code
    then show (record s.view { phase = interrupted; output = []; error_code = some code })
        (end_stream s)
    else show (record s.view { error_code = some code }) s

unfoldable pub refreshed : Fence → Run → PersonalChatRunController → PersonalChatRunController
unfolding show adopt settle hold_markers end_stream is_running is_terminal phase
refreshed fence run s =
    if is_terminal s.view.phase && not (is_terminal (phase run.status))
    then s
    else if is_running (phase run.status) && is_running s.view.phase
    then show
        (record s.view {
          canonical_status = some run.status;
          receipt = some run.receipt;
          error_code = none;
        })
        s
    else settle fence run (adopt run (hold_markers run (end_stream s)))

unfoldable pub lost : Text → PersonalChatRunController → PersonalChatRunController
unfolding show
lost code s = show (record s.view { phase = interrupted; output = []; error_code = some code }) s

unfoldable pub lacks_output : Run → Bool
unfolding has_output
lacks_output run = not (has_output run.output) || run.output_truncated

unfoldable pub unconfirmed : Run → Text
unfolding text is_completed
unconfirmed run =
    if is_completed run.status
    then (if run.output_truncated then output_cut else output_missing)
    else text "CHAT_TERMINAL_UNCONFIRMED"

unfoldable pub reconciled : Run → PersonalChatRunController → PersonalChatRunController
unfolding show adopt is_terminal phase is_completed lacks_output unconfirmed
reconciled run s =
    if not (is_terminal (phase run.status)) || (is_completed run.status && lacks_output run)
    then show
        (record s.view {
          phase = interrupted;
          canonical_status = some run.status;
          receipt = some run.receipt;
          output = [];
          error_code = some (unconfirmed run);
        })
        s
    else adopt run s

unfoldable pub is_waiting : ChatRunPhase → Bool
unfolding is_terminal
is_waiting recovery_required = true
is_waiting paused = true
is_waiting p = is_terminal p

unfoldable pub recovered_markers : Text → ℕ
unfolding text ◌===◌
recovered_markers status = if is_resuming then max_safe_integer else 0
  where
    is_resuming : Bool
    is_resuming = status === text "resuming"

unfoldable pub recovered : Fence → Run → PersonalChatRunController → PersonalChatRunController
unfolding show subscribe phase text_or recovered_markers is_waiting
recovered fence run s =
    let shown =
      show
        (record s.view {
          run_id = some run.run_id;
          session_id = some run.session_id;
          receipt = some run.receipt;
          phase = phase run.status;
          canonical_status = some run.status;
          output = text_or [] run.output;
          context_limited = true;
        })
        (record s {
          context_limited = true;
          resume_markers_required = recovered_markers run.status;
        }) in
    if is_waiting (phase run.status) then shown else subscribe fence run.run_id shown

module _ (is_date : Text → Bool) where
  -- `refreshStatus`
  unfoldable pub on_refreshed :
      Fence
      → ℕ
      → Text
      → Text
      → Answer
      → PersonalChatRunController
      → PersonalChatRunController × Option Call
  unfolding text verified refreshed report is_current text_or
  on_refreshed fence check_epoch run_id session_id answer s =
      if is_current fence run_id s && check_epoch == s.status_refresh_epoch
      then (react answer, none)
      else (s, none)
    where
      taken : Outcome Text Run → PersonalChatRunController
      taken (err code) = report code s
      taken (ok run) = refreshed fence run s

      react : Answer → PersonalChatRunController
      react (err code) = report (text_or (text "CHAT_REFRESH_FAILED") code) s
      react (ok j) = taken (verified is_date j fence.scope run_id (some session_id))

  -- `reconcile`
  unfoldable pub on_reconciled :
      Fence → Text → Answer → PersonalChatRunController → PersonalChatRunController × Option Call
  unfolding text as_run bound_run reconciled lost is_current is_terminal text_or
  on_reconciled fence run_id answer s =
      if is_current fence run_id s && not (is_terminal s.view.phase)
      then (react answer, none)
      else (s, none)
    where
      taken : Outcome Text Run → PersonalChatRunController
      taken (err code) = lost code s
      taken (ok run) = reconciled run s

      react : Answer → PersonalChatRunController
      react (err code) = lost (text_or (text "CHAT_RECONCILE_FAILED") code) s
      react (ok j) =
          taken (as_run is_date j fence.scope (some run_id) >>= bound_run s.view.session_id)

  -- `recover`
  unfoldable pub on_recovered :
      Fence → Text → Answer → PersonalChatRunController → PersonalChatRunController × Option Call
  unfolding text as_run require_verified_completion recovered refuse is_valid
  on_recovered fence run_id answer s = if is_valid fence s then (react answer, none) else (s, none)
    where
      taken : Outcome Text Run → PersonalChatRunController
      taken (err code) = refuse (text "CHAT_RECOVERY_FAILED") (some code) s
      taken (ok run) = recovered fence run s

      react : Answer → PersonalChatRunController
      react (err code) = refuse (text "CHAT_RECOVERY_FAILED") code s
      react (ok j) = taken (
          as_run is_date j fence.scope (some run_id) >>= λ run.
          require_verified_completion run >> ok run)

  -- The method that awaits the call goes on with its answer.
  unfoldable pub answer_call :
      Call → Answer → PersonalChatRunController → PersonalChatRunController × Option Call
  unfolding on_created on_reconnected on_canceled on_checkpoint on_read_back on_refreshed
      on_reconciled on_recovered
  answer_call (create_run fence request) a s = on_created is_date fence request a s
  answer_call (reconnect_run fence run_id) a s = on_reconnected is_date fence run_id a s
  answer_call (cancel_run fence run_id session_id operation) a s =
      on_canceled is_date fence run_id session_id a s
  answer_call (checkpoint_run fence action run_id session_id operation) a s =
      on_checkpoint is_date action fence run_id session_id a s
  answer_call (read_back fence run_id session_id code) a s =
      on_read_back is_date fence run_id session_id code a s
  answer_call (refresh_run fence check_epoch run_id session_id) a s =
      on_refreshed fence check_epoch run_id session_id a s
  answer_call (reconcile_run fence run_id) a s = on_reconciled fence run_id a s
  answer_call (recover_run fence run_id) a s = on_recovered fence run_id a s
