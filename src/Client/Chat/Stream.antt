-- ===== src/Client/Chat/Stream.antt =====
-- packages/client/src/conversation-run.ts: the stream of a run's events. An ended stream may still
-- deliver, so that a callback comes with the subscription that it belongs to; the feed accepts every
-- subscription.
use ai_verse_dashboard.Base.{
  ℕ, ◌+◌, Bool, not, ◌&&◌, Option, none, some, [], ◌∷◌, ◌++◌, ltb, leb, ◌==◌, length, take,
  if◌then◌else◌,
}
use ai_verse_dashboard.Base.Text.{Text, text, ◌===◌, member}
use ai_verse_dashboard.Client.Runs.{RequiredScope, output_max, is_terminal}
use ai_verse_dashboard.Client.Chat.{
  PersonalChatRunController, Fence, Subscription, Call, reconcile_run, end_stream, show, interrupt,
  is_current, is_scope,
}

pub record ChatRunEvent : Type 0 where
  pub scope : RequiredScope
  pub run_id : Text
  pub event_id : Text
  pub kind : Text
  pub content : Option Text
  pub seq : ℕ

unfoldable pub subscribe : Fence → Text → PersonalChatRunController → PersonalChatRunController
subscribe fence run_id s = record s {
  seen = [];
  last_seq = 0;
  awaiting_resume_marker = ltb 0 s.resume_markers_required;
  resume_markers_seen = 0;
  stream_epoch = s.stream_epoch + 1;
  stream = some (record { fence = fence; stream_epoch = s.stream_epoch + 1; run_id = run_id });
}

-- `reconcile`, up to its request.
unfoldable pub reconcile :
    Fence → Text → PersonalChatRunController → PersonalChatRunController × Option Call
unfolding end_stream
reconcile fence run_id s = (end_stream s, some (reconcile_run fence run_id))

-- The callback belongs to the newest stream, whose run is shown and has not ended.
unfoldable pub is_live : Subscription → PersonalChatRunController → Bool
unfolding is_current is_terminal
is_live sub s =
    sub.stream_epoch == s.stream_epoch
    && is_current sub.fence sub.run_id s
    && not (is_terminal s.view.phase)

unfoldable pub is_news : Subscription → ChatRunEvent → PersonalChatRunController → Bool
unfolding is_scope ◌===◌
is_news sub event s =
    is_scope event.scope sub.fence.scope
    && event.run_id === sub.run_id
    && ltb s.last_seq event.seq
    && not (member event.event_id s.seen)

unfoldable pub is_end : Text → Bool
unfolding text ◌===◌
is_end kind = member kind (
    text "run.completed"
    ∷ text "run.failed"
    ∷ text "run.canceled"
    ∷ text "run.blocked"
    ∷ text "run.budget_limited"
    ∷ text "run.parked"
    ∷ [])

unfoldable pub note_marker : Text → PersonalChatRunController → PersonalChatRunController
unfolding text ◌===◌
note_marker kind s =
    if kind === text "run.resumed"
    then record s {
      resume_markers_seen = s.resume_markers_seen + 1;
      awaiting_resume_marker =
          s.awaiting_resume_marker && ltb (s.resume_markers_seen + 1) s.resume_markers_required;
    }
    else s

unfoldable pub note_seen : Text → PersonalChatRunController → PersonalChatRunController
note_seen id s = record s { seen = if leb 512 (length s.seen) then id ∷ [] else id ∷ s.seen }

unfoldable pub add_delta :
    Text → Option Text → PersonalChatRunController → PersonalChatRunController
unfolding text ◌===◌ show
add_delta kind none s = s
add_delta kind (some delta) s =
    if kind === text "assistant.delta" && not s.awaiting_resume_marker
    then show (record s.view { output = take output_max (s.view.output ++ delta) }) s
    else s

unfoldable pub take_event :
    Subscription
    → ChatRunEvent
    → PersonalChatRunController
    → PersonalChatRunController × Option Call
unfolding is_end note_marker note_seen add_delta reconcile
take_event sub event s =
    let noted =
      note_seen event.event_id (note_marker event.kind (record s { last_seq = event.seq })) in
    let told = add_delta event.kind event.content noted in
    if is_end event.kind then reconcile sub.fence sub.run_id told else (told, none)

-- The callback `event`.
unfoldable pub on_event :
    Subscription
    → ChatRunEvent
    → PersonalChatRunController
    → PersonalChatRunController × Option Call
unfolding is_live is_news take_event
on_event sub event s =
    if is_live sub s && is_news sub event s then take_event sub event s else (s, none)

-- The callback `interrupted`.
unfoldable pub on_interrupted :
    Subscription → Text → PersonalChatRunController → PersonalChatRunController
unfolding is_live end_stream interrupt
on_interrupted sub code s = if is_live sub s then interrupt code (end_stream s) else s
