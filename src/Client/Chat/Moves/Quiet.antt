-- ===== src/Client/Chat/Moves/Quiet.antt =====
-- packages/client/src/conversation-run.ts: what the methods and the callbacks of a stream make of the
-- view before any answer.
use ai_verse_dashboard.Base.{
  ok, err, any, map, ◌||◌, ℕ, ◌+◌, ◌≤◌, ◌≡◌, ◌≢◌, refl, sym, ◌∙◌, inl, inr, Bool, true, not, ◌&&◌,
  Option, none, some, Outcome, err, attempt, attempt-cases, arith, if_rule, and_split, Bool-cases,
}
use ai_verse_dashboard.Base.Text.{member, Text, text, ◌===◌}
use ai_verse_dashboard.Client.Runs.{
  ClientScope, RequiredScope, required_scope, completed, submitting, is_terminal, is_filled,
}
use ai_verse_dashboard.Client.Chat.Answers.{Answer}
use ai_verse_dashboard.Client.Rows.{Page}
use ai_verse_dashboard.Client.Chat.Pages.{
  OlderCall, OlderPage, open_session, older_of, load_older_session_runs, extended, is_at, repeats,
  on_older,
}
use ai_verse_dashboard.Client.Chat.{
  Cursor, is_valid, PersonalChatRunController, ActiveRequest, Fence, Subscription, Call, Action,
  cancel_run, checkpoint_run, show, reset, end_stream, interrupt,
}
use ai_verse_dashboard.Client.Chat.Stream.{
  ChatRunEvent, reconcile, is_live, is_news, is_end, note_marker, note_seen, add_delta, take_event,
  on_event, on_interrupted,
}
use ai_verse_dashboard.Client.Chat.Methods.{
  Started, send, sent, retry_submission, resubmit, reconnect, waiting, about_run, control,
  next_epoch, stop, checkpoint, may_stop, may_act, unavailable, refresh_status, recover, select,
  retarget, close,
}
use ai_verse_dashboard.Client.Chat.Moves.Replies.{Kept}

-- The epoch does not fall, and a completed run is shown only if it was.
abbrev pub IsQuiet : PersonalChatRunController → PersonalChatRunController → Type 0
IsQuiet s t = (s.epoch ≤ t.epoch) × (t.view.phase ≡ completed → Kept s.view t.view)

module _ (s : PersonalChatRunController) where
  pub IsQuiet-same : IsQuiet s s
  IsQuiet-same = (omega arith, λ e. (e, refl, refl))

  abbrev Quiet : Started → Type 0
  Quiet n = IsQuiet s n.1

  attempt-Quiet {ℓ} :
      {A : Type ℓ} (m : Outcome Text A) (k : A → Started)
      → ((x : A) → Quiet (k x))
      → Quiet (attempt m s k)
  attempt-Quiet m k h = attempt-cases Quiet m s k (λ e. IsQuiet-same) (λ x e. h x)

  about_run-Quiet :
      (o : Option Text) (fault : Text) (go : Text → Started)
      → ((id : Text) → Quiet (go id))
      → Quiet (about_run o fault s go)
  unfolding about_run
  about_run-Quiet none fault go h = IsQuiet-same
  about_run-Quiet (some id) fault go h =
      if_rule Quiet (is_filled id) (go id) (err fault, s) (λ e. h id) (λ e. IsQuiet-same)

  sent-Quiet :
      (content key : Text) (session : Option Text) (scope : RequiredScope)
      → Quiet (sent content key session scope s)
  unfolding sent show reset
  sent-Quiet content key session scope = (omega arith, λ e. absurd (cc e))

  pub send-Quiet : (content key : Text) (session : Option Text) → Quiet (send content key session s)
  unfolding send
  send-Quiet content key session = attempt-Quiet _ _ (λ scope. sent-Quiet content key session scope)

  resubmit-Quiet : (o : Option ActiveRequest) (scope : RequiredScope) → Quiet (resubmit o scope s)
  unfolding resubmit show
  resubmit-Quiet none scope = IsQuiet-same
  resubmit-Quiet (some request) scope = (omega arith, λ e. absurd (cc e))

  pub retry_submission-Quiet : Quiet (retry_submission s)
  unfolding retry_submission
  retry_submission-Quiet = attempt-Quiet _ _ (λ scope. resubmit-Quiet s.active_request scope)

  waiting-IsQuiet : IsQuiet s (waiting s)
  unfolding waiting show end_stream
  waiting-IsQuiet = (omega arith, λ e. absurd (cc e))

  pub reconnect-Quiet : Quiet (reconnect s)
  unfolding reconnect
  reconnect-Quiet =
      about_run-Quiet s.view.run_id _ _ (λ id. attempt-Quiet _ _ (λ scope. waiting-IsQuiet))

  controlled-IsQuiet : IsQuiet s (waiting (next_epoch s))
  unfolding waiting next_epoch show end_stream
  controlled-IsQuiet = (omega arith, λ e. absurd (cc e))

  control-Quiet :
      (allowed : Bool) (fault : Text) (call : Fence → Text → Text → Call) (operation : Text)
      → Quiet (control allowed fault call operation s)
  unfolding control
  control-Quiet allowed fault call operation = attempt-Quiet _ _ λ _.
      about_run-Quiet s.view.run_id _ _ λ id.
        about_run-Quiet s.view.session_id _ _
          λ session. attempt-Quiet _ _ (λ scope. controlled-IsQuiet)

  pub stop-Quiet : (operation : Text) → Quiet (stop operation s)
  unfolding stop
  stop-Quiet operation =
      control-Quiet (may_stop s.view.phase) (text "CHAT_STOP_UNAVAILABLE")
        (λ fence run_id session_id. cancel_run fence run_id session_id operation) operation

  pub checkpoint-Quiet :
      (action : Action) (operation : Text) → Quiet (checkpoint action operation s)
  unfolding checkpoint
  checkpoint-Quiet action operation =
      control-Quiet (may_act action s.view.phase) (unavailable action)
        (λ fence run_id session_id. checkpoint_run fence action run_id session_id operation)
        operation

  checked-IsQuiet : (n : ℕ) → IsQuiet s (record s { status_refresh_epoch = n })
  checked-IsQuiet n = (omega arith, λ e. (e, refl, refl))

  pub refresh_status-Quiet : Quiet (refresh_status s)
  unfolding refresh_status
  refresh_status-Quiet = about_run-Quiet s.view.run_id _ _ λ id.
      about_run-Quiet s.view.session_id _ _
        λ session. attempt-Quiet _ _ (λ scope. checked-IsQuiet (s.status_refresh_epoch + 1))

  recovering-IsQuiet :
      (scope : RequiredScope)
      → IsQuiet s (show (record (reset scope s).view { phase = submitting }) (reset scope s))
  unfolding reset show
  recovering-IsQuiet scope = (omega arith, λ e. absurd (cc e))

  pub recover-Quiet : (id : Text) → Quiet (recover id s)
  unfolding recover
  recover-Quiet id = attempt-Quiet _ _ (λ scope. recovering-IsQuiet scope)

  pub retarget-IsQuiet : (scope : ClientScope) → IsQuiet s (retarget scope s).1
  unfolding retarget reset select
  retarget-IsQuiet scope =
      attempt-cases (λ n. IsQuiet s n.1) (required_scope scope) s _ (λ e. IsQuiet-same)
        (λ scope' e. (omega arith, λ e'. absurd (cc e')))

  pub select-IsQuiet : (scope : ClientScope) → IsQuiet s (select scope s)
  unfolding select
  select-IsQuiet scope = (omega arith, λ e. (e, refl, refl))

  pub close-IsQuiet : IsQuiet s (close s)
  unfolding close
  close-IsQuiet = (omega arith, λ e. absurd (cc e))

  pub open_session-IsQuiet : (id : Text) → IsQuiet s (open_session id s).1
  unfolding open_session
  open_session-IsQuiet id =
      attempt-cases (λ n. IsQuiet s n.1) _ s _ (λ e. IsQuiet-same)
        (λ scope e. recovering-IsQuiet scope)

  older_of-IsQuiet : (o : Option Cursor) → IsQuiet s (older_of o s).1
  unfolding older_of
  older_of-IsQuiet none = IsQuiet-same
  older_of-IsQuiet (some cursor) =
      attempt-cases (λ n. IsQuiet s n.1) _ s _ (λ e. IsQuiet-same) (λ scope e. IsQuiet-same)

  pub load_older-IsQuiet : IsQuiet s (load_older_session_runs s).1
  unfolding load_older_session_runs
  load_older-IsQuiet = older_of-IsQuiet s.historical_older

  extended-IsQuiet : (cursor : Cursor) (page : Page) → IsQuiet s (extended cursor page s).1
  unfolding extended
  extended-IsQuiet cursor page =
      if_rule (λ (n : Outcome Text OlderPage × PersonalChatRunController). IsQuiet s n.1)
        (any (λ id. member id cursor.seen) (map (λ row. row.run_id) page.rows)
          || repeats (map (λ row. row.run_id) page.rows))
        _ _ (λ _. IsQuiet-same) (λ _. (omega arith, λ e. (e, refl, refl)))

  pub on_older-IsQuiet : (call : OlderCall) (a : Answer) → IsQuiet s (on_older call a s).1
  unfolding on_older
  on_older-IsQuiet call (err code) = IsQuiet-same
  on_older-IsQuiet call (ok j) =
      if_rule (λ (n : Outcome Text OlderPage × PersonalChatRunController). IsQuiet s n.1)
        (is_valid call.fence s && is_at call.cursor s.historical_older) _ _
        (λ _.
          attempt-cases (λ (n : Outcome Text OlderPage × PersonalChatRunController). IsQuiet s n.1)
            _ s _ (λ e. IsQuiet-same) (λ page e. extended-IsQuiet call.cursor page))
        (λ _. IsQuiet-same)

-- A callback leaves the epoch and the phase, and a run that has ended it leaves alone.
module _ (s : PersonalChatRunController) where
  abbrev SamePhase : PersonalChatRunController → PersonalChatRunController → Type 0
  SamePhase s t = (t.epoch ≡ s.epoch) × (t.view.phase ≡ s.view.phase)

  note_marker-SamePhase : (kind : Text) → SamePhase s (note_marker kind s)
  unfolding note_marker
  note_marker-SamePhase kind =
      if_rule (SamePhase s) (kind === text "run.resumed") _ _ (λ _. (refl, refl))
        (λ _. (refl, refl))

  add_delta-SamePhase : (kind : Text) (o : Option Text) → SamePhase s (add_delta kind o s)
  unfolding add_delta show
  add_delta-SamePhase kind none = (refl, refl)
  add_delta-SamePhase kind (some delta) =
      if_rule (SamePhase s) (kind === text "assistant.delta" && not s.awaiting_resume_marker) _ _
        (λ _. (refl, refl)) (λ _. (refl, refl))

module _ (sub : Subscription) (s : PersonalChatRunController) where
  take_event-SamePhase : (event : ChatRunEvent) → SamePhase s s (take_event sub event s).0
  unfolding take_event note_seen reconcile end_stream
  take_event-SamePhase event =
      let marked = note_marker event.kind (record s { last_seq = event.seq }) in
      let (epoch, shown) = note_marker-SamePhase (record s { last_seq = event.seq }) event.kind in
      let (epoch', shown') =
        add_delta-SamePhase (note_seen event.event_id marked) event.kind event.content in
      if_rule (λ (n : PersonalChatRunController × Option Call). SamePhase s s n.0)
        (is_end event.kind) _ _ (λ _. (epoch' ∙ epoch, shown' ∙ shown))
        (λ _. (epoch' ∙ epoch, shown' ∙ shown))

  live-not_completed : is_live sub s ≡ true → s.view.phase ≢ completed
  unfolding is_live is_terminal
  live-not_completed on e =
      let (_, open_) = and_split _ (not (is_terminal s.view.phase)) on in cc (rw e at open_)

  pub on_event-IsQuiet : (event : ChatRunEvent) → IsQuiet s (on_event sub event s).0
  unfolding on_event
  on_event-IsQuiet event =
      if_rule (λ (n : PersonalChatRunController × Option Call). IsQuiet s n.0)
        (is_live sub s && is_news sub event s) _ _
        (λ on.
          let (here, _) = and_split (is_live sub s) _ on in
          let (epoch, shown) = take_event-SamePhase event in
          (omega arith, λ e. absurd (live-not_completed here (sym shown ∙ e))))
        (λ _. IsQuiet-same s)

  pub on_interrupted-IsQuiet : (code : Text) → IsQuiet s (on_interrupted sub code s)
  unfolding on_interrupted interrupt end_stream
  on_interrupted-IsQuiet code = elim (Bool-cases (is_live sub s)) [
    | inl on ↦ rw (on_interrupted, on) (omega arith, λ e. absurd (cc e))
    | inr off ↦ rw (on_interrupted, off) (IsQuiet-same s)
  ]
