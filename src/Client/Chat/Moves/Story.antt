-- ===== src/Client/Chat/Moves/Story.antt =====
-- packages/client/src/conversation-run.ts: every history of a conversation.
use ai_verse_dashboard.Base.{◌≤◌, ◌<◌, ◌≡◌, ◌⊎◌, inl, inr, Bool, List, [], ◌∷◌, arith}
use ai_verse_dashboard.Base.Text.{Text}
use ai_verse_dashboard.Client.Runs.{completed}
use ai_verse_dashboard.Client.Chat.{PersonalChatRunController, ChatRunView, Call}
use ai_verse_dashboard.Client.Chat.Answers.{Answer}
use ai_verse_dashboard.Client.Chat.Moves
use ai_verse_dashboard.Client.Chat.Moves.{Move, move, run_moves, call_fence}
use ai_verse_dashboard.Client.Chat.Moves.Replies.{Delivered, Kept}
use ai_verse_dashboard.Client.Chat.Moves.Late.{answer_call-stale}
use ai_verse_dashboard.Client.Chat.Moves.Checked.{answer_call-IsReply}
use ai_verse_dashboard.Client.Chat.Moves.Quiet
use ai_verse_dashboard.Client.Chat.Pages.{PageCall}
use ai_verse_dashboard.Client.Chat.Pages.Whole.{IsOpened, on_page-IsTurned}

-- The move is an answer, or a page of a session, and the view shows what it tells.
pub data IsDelivery (is_date : Text → Bool) (view : ChatRunView) : Move → Type 0 where
  told :
      (call : Call) (a : Answer)
      → Delivered is_date a view
      → IsDelivery is_date view (Moves.answer call a)
  opened :
      (call : PageCall) (a : Answer)
      → IsOpened call a view
      → IsDelivery is_date view (Moves.page call a)

abbrev Told : (Text → Bool) → Move → PersonalChatRunController → PersonalChatRunController → Type 0
Told is_date m s t =
    (s.epoch ≤ t.epoch)
    × (t.view.phase ≡ completed → Kept s.view t.view ⊎ IsDelivery is_date t.view m)

quietly {ℓ} : {X A K D : Type ℓ} → X × (A → K) → X × (A → K ⊎ D)
quietly (x, f) = (x, λ a. inl (f a))

told_or_kept {ℓ} : {K D E : Type ℓ} → (D → E) → K ⊎ D → K ⊎ E
told_or_kept f (inl k) = inl k
told_or_kept f (inr d) = inr (f d)

move-Told :
    (is_date : Text → Bool) (m : Move) (s : PersonalChatRunController)
    → Told is_date m s (move is_date m s)
unfolding move
move-Told is_date (Moves.send content key session) s =
    quietly (Quiet.send-Quiet s content key session)
move-Told is_date Moves.retry_submission s = quietly (Quiet.retry_submission-Quiet s)
move-Told is_date Moves.reconnect s = quietly (Quiet.reconnect-Quiet s)
move-Told is_date Moves.refresh_status s = quietly (Quiet.refresh_status-Quiet s)
move-Told is_date Moves.load_older s = quietly (Quiet.load_older-IsQuiet s)
move-Told is_date (Moves.open_session id) s = quietly (Quiet.open_session-IsQuiet s id)
move-Told is_date (Moves.page call a) s =
    let (same, shown) = on_page-IsTurned call s a in
    (omega arith, λ e. told_or_kept (opened call a) (shown e))
move-Told is_date (Moves.older call a) s = quietly (Quiet.on_older-IsQuiet s call a)
move-Told is_date Moves.close s = quietly (Quiet.close-IsQuiet s)
move-Told is_date (Moves.stop operation) s = quietly (Quiet.stop-Quiet s operation)
move-Told is_date (Moves.checkpoint action operation) s =
    quietly (Quiet.checkpoint-Quiet s action operation)
move-Told is_date (Moves.recover id) s = quietly (Quiet.recover-Quiet s id)
move-Told is_date (Moves.retarget scope) s = quietly (Quiet.retarget-IsQuiet s scope)
move-Told is_date (Moves.select scope) s = quietly (Quiet.select-IsQuiet s scope)
move-Told is_date (Moves.answer call a) s =
    let (same, shown) = answer_call-IsReply is_date call a s in
    (omega arith, λ e. told_or_kept (told call a) (shown e))
move-Told is_date (Moves.event sub event) s = quietly (Quiet.on_event-IsQuiet sub s event)
move-Told is_date (Moves.interruption sub code) s =
    quietly (Quiet.on_interrupted-IsQuiet sub s code)

-- Whatever happens, a conversation shows a completed run only if it showed it before with the same
-- run and output, or if it has just taken an answer of the Gateway: either a valid projection of the
-- shown run that says that it is completed, with the shown text as its whole output, or the last page
-- of a session, whose newest run is the shown one, completed, with a text and the shown output whole.
pub completed_is_canonical :
    (is_date : Text → Bool) (m : Move) (s : PersonalChatRunController)
    → (move is_date m s).view.phase ≡ completed
    → Kept s.view (move is_date m s).view ⊎ IsDelivery is_date (move is_date m s).view m
completed_is_canonical is_date m s = (move-Told is_date m s).1

run_moves-epoch :
    (is_date : Text → Bool) (ms : List Move) (s : PersonalChatRunController)
    → s.epoch ≤ (run_moves is_date ms s).epoch
unfolding run_moves
run_moves-epoch is_date [] s = omega arith
run_moves-epoch is_date (m ∷ ms) s =
    omega (arith, (move-Told is_date m s).0, run_moves-epoch is_date ms (move is_date m s))

-- An answer to a request about a run that was made in an epoch before that of `s` changes nothing,
-- whatever has happened after `s`. (Of the pages of a session it says nothing.)
pub late_answer_changes_nothing :
    (is_date : Text → Bool) (ms : List Move) (s : PersonalChatRunController) (call : Call)
    (a : Answer)
    → (call_fence call).epoch < s.epoch
    → move is_date (Moves.answer call a) (run_moves is_date ms s) ≡ run_moves is_date ms s
unfolding move
late_answer_changes_nothing is_date ms s call a old =
    let rises = run_moves-epoch is_date ms s in
    answer_call-stale is_date call a (run_moves is_date ms s) (omega arith)
