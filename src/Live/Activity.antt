-- ===== src/Live/Activity.antt =====
-- packages/live/src/activity.ts: live events of a session, published to the subscribers of its
-- workspace, and the tools of the sessions. A payload is of any type.
pub mod Published
mod Examples
use ai_verse_dashboard.Base.{
  ℕ, ◌≡◌, Bool, true, false, Option, none, some, List, [], ◌∷◌, map, Outcome, ok, err, length, take,
  select, last?, if◌then◌else◌, ◌>>=◌,
}
use ai_verse_dashboard.Base.Text.{Text, text, ◌===◌}
use ai_verse_dashboard.Base.Text.Order.{before}
use ai_verse_dashboard.Base.Sort.{sort_by}
use ai_verse_dashboard.Live.Timeline.{TimelineEntry, Kind, tool_call, kind_name}
use ai_verse_dashboard.Live.Sessions.{
  SessionStore, ChatSession, SessionFault, Summary, get, history, summaries,
}
use ai_verse_dashboard.Gateway.Subscriptions.{
  HubEvent, DeliveredEvent, SubscriptionHub, Publication, publish,
}
use ai_verse_dashboard.Protocol.Scope.{ScopeFault}

pub data LiveEventName : Type 0 where
  chat_message chat_aborted tool_started tool_finished run_event error_event : LiveEventName

unfoldable pub event_name : LiveEventName → Text
event_name chat_message = text "chat.message"
event_name chat_aborted = text "chat.aborted"
event_name tool_started = text "tool.started"
event_name tool_finished = text "tool.finished"
event_name run_event = text "run-event"
event_name error_event = text "error-event"

pub record LivePublish (P : Type 0) : Type 0 where
  pub event : LiveEventName
  pub system_id : Text
  pub workspace_id : Text
  pub session_id : Text
  pub entry_id : Option Text
  pub payload : Option P

pub record LivePayload (P : Type 0) : Type 0 where
  pub session_id : Text
  pub entry_id : Option Text
  pub content : Option P

-- `publish.entryId ? { entryId } : {}`
unfoldable pub given_entry : Option Text → Option Text
given_entry (some []) = none
given_entry o = o

module _ {P : Type 0} where
  unfoldable pub live_event : LivePublish P → HubEvent (LivePayload P)
  unfolding event_name given_entry
  live_event p = record {
    event = event_name p.event;
    system_id = p.system_id;
    workspace_id = some p.workspace_id;
    payload = record {
      session_id = p.session_id;
      entry_id = given_entry p.entry_id;
      content = p.payload;
    };
  }

  -- The two tests before the hub is called.
  unfoldable pub check_session : Option ChatSession → LivePublish P → Outcome Text ChatSession
  unfolding text ◌===◌
  check_session none p = err (text "SESSION_NOT_FOUND")
  check_session (some s) p =
      if s.workspace_id === p.workspace_id then ok s else err (text "SESSION_NOT_FOUND")

  -- A refusal, or what the hub publishes.
  unfoldable pub publish_live :
      (LivePayload P → Text)
      → LivePublish P
      → ℕ
      → SessionStore
      → SubscriptionHub
      → Outcome Text (Publication (LivePayload P))
  unfolding get check_session live_event publish
  publish_live digest p now sessions hub =
      check_session (get p.system_id p.session_id sessions) p >>= λ s.
      ok (publish digest (live_event p) now hub)

pub record LastTool : Type 0 where
  pub id : Text
  pub body : Text
  pub created_at : Text

pub record ToolGroup : Type 0 where
  pub session_id : Text
  pub tool_count : ℕ
  pub last_tool : Option LastTool
  pub errors : ℕ

is_kind : Kind → TimelineEntry → Bool
unfolding kind_name ◌===◌
is_kind kind e = kind_name e.kind === kind_name kind

last_tool_of : Option TimelineEntry → Option LastTool
last_tool_of none = none
last_tool_of (some e) =
    some (record { id = e.id; body = take 200 e.body; created_at = e.created_at })

tool_group : Text → List TimelineEntry → ToolGroup
unfolding is_kind last_tool_of
tool_group session_id entries =
    let tools = select (is_kind tool_call) entries in
    record {
      session_id = session_id;
      tool_count = length tools;
      last_tool = last_tool_of (last? tools);
      errors = length (select (is_kind Kind.error_event) entries);
    }

groups_of : Text → SessionStore → List Summary → Outcome SessionFault (List ToolGroup)
unfolding history tool_group
groups_of system_id sessions [] = ok []
groups_of system_id sessions (s ∷ ss) = history system_id s.session_id 500 sessions >>= λ entries.
    groups_of system_id sessions ss >>= λ groups. ok (tool_group s.session_id entries ∷ groups)

abbrev pub group_before : ToolGroup → ToolGroup → Bool
group_before a b = before a.session_id b.session_id

unfoldable pub group_tools_by_session :
    Text → Text → SessionStore → Outcome SessionFault (List ToolGroup)
unfolding summaries groups_of sort_by
group_tools_by_session system_id workspace_id sessions =
    groups_of system_id sessions (summaries system_id (some workspace_id) sessions) >>= λ groups.
    ok (sort_by group_before groups)
