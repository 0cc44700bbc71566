-- ===== src/Client/Chat/Moves.antt =====
-- packages/client/src/conversation-run.ts: everything that can happen to a controller: a call of a
-- method, an answer to a request, a callback of a stream, and a change of the client's selection.
pub mod Late
pub mod Replies
pub mod Adopted
pub mod Created
pub mod Checked
pub mod Quiet
pub mod Story
pub mod Once
pub mod Retry
use ai_verse_dashboard.Base.{◌≡◌, Bool, Option, List, [], ◌∷◌}
use ai_verse_dashboard.Base.Text.{Text}
use ai_verse_dashboard.Client.Runs.{ClientScope}
use ai_verse_dashboard.Client.Chat.{
  PersonalChatRunController, Fence, Subscription, Call, Action, create_run, reconnect_run,
  cancel_run, checkpoint_run, read_back, refresh_run, reconcile_run, recover_run,
}
use ai_verse_dashboard.Client.Chat.Stream.{ChatRunEvent, on_event, on_interrupted}
use ai_verse_dashboard.Client.Chat.Answers.{Answer}
use ai_verse_dashboard.Client.Chat.Checks.{answer_call}
use ai_verse_dashboard.Client.Chat.Methods
use ai_verse_dashboard.Client.Chat.Pages
use ai_verse_dashboard.Client.Chat.Pages.{PageCall, OlderCall}

pub data Move : Type 0 where
  send : Text → Text → Option Text → Move
  retry_submission reconnect refresh_status load_older close : Move
  open_session : Text → Move
  page : PageCall → Answer → Move
  older : OlderCall → Answer → Move
  stop : Text → Move
  checkpoint : Action → Text → Move
  recover : Text → Move
  retarget select : ClientScope → Move
  answer : Call → Answer → Move
  event : Subscription → ChatRunEvent → Move
  interruption : Subscription → Text → Move

unfoldable pub move : (Text → Bool) → Move → PersonalChatRunController → PersonalChatRunController
unfolding Methods.send Methods.retry_submission Methods.reconnect Methods.refresh_status
    Methods.close Methods.stop Methods.checkpoint Methods.recover Methods.retarget Methods.select
    answer_call on_event on_interrupted Pages.load_older_session_runs Pages.open_session
    Pages.on_page Pages.on_older
move is_date (send content key session_id) s = (Methods.send content key session_id s).1
move is_date retry_submission s = (Methods.retry_submission s).1
move is_date reconnect s = (Methods.reconnect s).1
move is_date refresh_status s = (Methods.refresh_status s).1
move is_date load_older s = (Pages.load_older_session_runs s).1
move is_date (open_session session_id) s = (Pages.open_session session_id s).1
move is_date (page call a) s = (Pages.on_page call a s).0
move is_date (older call a) s = (Pages.on_older call a s).1
move is_date close s = Methods.close s
move is_date (stop operation) s = (Methods.stop operation s).1
move is_date (checkpoint action operation) s = (Methods.checkpoint action operation s).1
move is_date (recover run_id) s = (Methods.recover run_id s).1
move is_date (retarget scope) s = (Methods.retarget scope s).1
move is_date (select scope) s = Methods.select scope s
move is_date (answer call a) s = (answer_call is_date call a s).0
move is_date (event sub e) s = (on_event sub e s).0
move is_date (interruption sub code) s = on_interrupted sub code s

unfoldable pub run_moves :
    (Text → Bool) → List Move → PersonalChatRunController → PersonalChatRunController
unfolding move
run_moves is_date [] s = s
run_moves is_date (m ∷ ms) s = run_moves is_date ms (move is_date m s)

unfoldable pub call_fence : Call → Fence
call_fence (create_run fence request) = fence
call_fence (reconnect_run fence run_id) = fence
call_fence (cancel_run fence run_id session_id operation) = fence
call_fence (checkpoint_run fence action run_id session_id operation) = fence
call_fence (read_back fence run_id session_id code) = fence
call_fence (refresh_run fence check_epoch run_id session_id) = fence
call_fence (reconcile_run fence run_id) = fence
call_fence (recover_run fence run_id) = fence
