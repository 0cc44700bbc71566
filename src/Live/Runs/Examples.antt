-- ===== src/Live/Runs/Examples.antt =====
-- A session with one message and one error, its drawer and its trace.
use ai_verse_dashboard.Base.{◌≤◌, ◌≡◌, refl, true, none, some, [], ◌∷◌, ok, length, All}
use ai_verse_dashboard.Base.Text.{Text, text, ◌===◌, starts_with}
use ai_verse_dashboard.Base.Map.{lookup}
use ai_verse_dashboard.Live.Timeline.{TimelineEntry, Kind, Role, kind_name}
use ai_verse_dashboard.Live.Sessions.{
  ChatSession, SessionStore, SessionStatus, SessionFault, clamp, key, history,
}
use ai_verse_dashboard.Live.Sessions
use ai_verse_dashboard.Live.Runs.{
  TraceView, LogDrawer, DrawerOptions, LogSeverity, build_trace, build_log_drawer, copy_log_line,
  drawer_of, trace_of, find_session, keeps_line, number_from, line_text, severity_of, span_of,
  is_shown, is_error, is_traceable, label_for, limit_or, copy_from, entry_at, body_of, short_query,
  or_false, first_time, time_of, drawer_buffer_max,
}
use ai_verse_dashboard.Live.Runs.Drawer.{IsCopied, build_log_drawer_sound}

run_here : Unit {0}
unfolding text ◌===◌ starts_with lookup kind_name key history Sessions.get build_trace
    build_log_drawer copy_log_line drawer_of trace_of find_session keeps_line number_from line_text
    severity_of span_of is_shown is_error is_traceable label_for limit_or copy_from entry_at body_of
    short_query or_false first_time time_of
run_here = tt

abbrev a : Text
a = 97 ∷ []

abbrev entry : Kind → Text → TimelineEntry
entry kind body = record {
  id = a;
  kind = kind;
  role = Role.agent;
  system_id = a;
  workspace_id = a;
  session_id = a;
  body = body;
  ref = none;
  created_at = a;
}

abbrev session : ChatSession
session = record {
  session_id = a;
  system_id = a;
  workspace_id = a;
  title = a;
  status = SessionStatus.idle;
  provider = none;
  model = none;
  entries = entry Kind.message (104 ∷ []) ∷ entry Kind.error_event (120 ∷ 121 ∷ []) ∷ [];
  created_at = a;
  updated_at = a;
}

store : SessionStore
unfolding key
store = record { sessions = (key a a, session) ∷ []; counter = 0 }

abbrev errors_only : DrawerOptions
errors_only = record {
  limit = none;
  before_seq = none;
  severity = some LogSeverity.error;
  query = none;
  paused = none;
}

abbrev lower : Text → Text
lower t = t

drawer : LogDrawer
unfolding run_here
drawer = drawer_of lower a a errors_only a session.entries

view : TraceView
unfolding run_here
view = trace_of a a none none a session session.entries

drawer_is_built : build_log_drawer lower a a errors_only a store ≡ ok drawer
unfolding run_here store drawer
drawer_is_built = refl

second_body : copy_log_line a a 2 store ≡ ok (120 ∷ 121 ∷ [])
unfolding run_here store
second_body = refl

view_is_built : build_trace a a none none a store ≡ ok view
unfolding run_here store view
view_is_built = refl

build_log_drawer_sound_example :
    (length drawer.lines ≤ drawer_buffer_max)
    × (length drawer.lines ≤ drawer.total)
    × All (IsCopied a a store) drawer.lines
    × All (λ l. keeps_line lower errors_only l ≡ true) drawer.lines
build_log_drawer_sound_example =
    build_log_drawer_sound lower a a errors_only a store drawer drawer_is_built
