-- ===== src/Client/Chat/Moves/Late.antt =====
-- An answer that arrives after its method has been superseded.
use ai_verse_dashboard.Base.{
  ◌<◌, ◌≡◌, refl, Bool, false, List, ok, err, arith, inl, inr, Bool-cases,
}
use ai_verse_dashboard.Base.Text.{Text, text}
use ai_verse_dashboard.Client.Runs.{Run}
use ai_verse_dashboard.Client.Chat.{
  PersonalChatRunController, Fence, Call, create_run, reconnect_run, cancel_run, checkpoint_run,
  read_back, refresh_run, reconcile_run, recover_run, is_valid, is_current,
}
use ai_verse_dashboard.Client.Chat.Answers.{
  Answer, on_created, on_reconnected, on_canceled, on_checkpoint, on_read_back, controlled,
  is_refusal, stop_refusals, checkpoint_refusals, count_marker,
}
use ai_verse_dashboard.Client.Chat.Checks.{answer_call, on_refreshed, on_reconciled, on_recovered}
use ai_verse_dashboard.Client.Chat.Moves.{call_fence}

is_valid-stale :
    (f : Fence) (s : PersonalChatRunController) → f.epoch < s.epoch → is_valid f s ≡ false
unfolding is_valid
is_valid-stale f s h = ground arith

is_current-stale :
    (f : Fence) (run_id : Text) (s : PersonalChatRunController)
    → f.epoch < s.epoch
    → is_current f run_id s ≡ false
unfolding is_current
is_current-stale f run_id s h = rw (is_valid-stale f s h) refl

controlled-stale :
    (is_date : Text → Bool) (mark : PersonalChatRunController → Run → PersonalChatRunController)
    (refusals : List Text) (fallback : Text) (f : Fence) (run_id session_id : Text) (a : Answer)
    (s : PersonalChatRunController)
    → f.epoch < s.epoch
    → (controlled is_date mark refusals fallback f run_id session_id a s).0 ≡ s
unfolding controlled
controlled-stale is_date mark refusals fallback f run_id session_id (ok j) s h =
    rw (is_current-stale f run_id s h) refl
controlled-stale is_date mark refusals fallback f run_id session_id (err code) s h =
    elim (Bool-cases (is_refusal refusals code)) [
      | inl refused ↦ rw (controlled, refused) refl
      | inr other ↦ rw (controlled, other, is_current-stale f run_id s h) refl
    ]

pub answer_call-stale :
    (is_date : Text → Bool) (call : Call) (a : Answer) (s : PersonalChatRunController)
    → (call_fence call).epoch < s.epoch
    → (answer_call is_date call a s).0 ≡ s
unfolding answer_call call_fence on_created on_reconnected on_canceled on_checkpoint on_read_back
    on_refreshed on_reconciled on_recovered
answer_call-stale is_date (create_run f request) a s h = rw (is_valid-stale f s h) refl
answer_call-stale is_date (reconnect_run f run_id) a s h = rw (is_current-stale f run_id s h) refl
answer_call-stale is_date (cancel_run f run_id session_id operation) a s h =
    controlled-stale is_date (λ s run. s) stop_refusals (text "CHAT_STOP_UNCERTAIN") f run_id
      session_id a s h
answer_call-stale is_date (checkpoint_run f action run_id session_id operation) a s h =
    controlled-stale is_date (count_marker action) checkpoint_refusals
      (text "CHAT_CONTROL_UNCERTAIN") f run_id session_id a s h
answer_call-stale is_date (read_back f run_id session_id code) a s h =
    rw (is_current-stale f run_id s h) refl
answer_call-stale is_date (refresh_run f check_epoch run_id session_id) a s h =
    rw (is_current-stale f run_id s h) refl
answer_call-stale is_date (reconcile_run f run_id) a s h = rw (is_current-stale f run_id s h) refl
answer_call-stale is_date (recover_run f run_id) a s h = rw (is_valid-stale f s h) refl
