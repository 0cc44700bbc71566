-- ===== src/Live/Runs.antt =====
-- packages/live/src/runs.ts: the trace of a session and the pages of its log drawer. `observed` is the
-- clock, `lower` is `toLowerCase`. `limit`, `before_seq` and `seq` are whole numbers.
pub mod Drawer
mod Examples
use ai_verse_dashboard.Base.{
  ℕ, zero, suc, ◌+◌, Bool, true, false, not, ◌&&◌, ◌||◌, Option, none, some, List, [], ◌∷◌, ◌++◌,
  map, Outcome, ok, err, ltb, leb, ◌==◌, min, max, length, get_elem?, take, take_last, select, any,
  last?, if◌then◌else◌, ◌>>=◌,
}
use ai_verse_dashboard.Base.Text.{Text, text, ◌===◌, starts_with}
use ai_verse_dashboard.Live.Timeline.{Kind, Role, TimelineEntry, kind_name}
use ai_verse_dashboard.Live.Timeline
use ai_verse_dashboard.Live.Sessions.{
  ChatSession, SessionStore, SessionFault, session_not_found, clamp,
}
use ai_verse_dashboard.Live.Sessions

pub record TraceSpan : Type 0 where
  pub id : Text
  pub kind : Kind
  pub role : Role
  pub label : Text
  pub body : Text
  pub created_at : Text
  pub attention : Bool

pub record TraceView : Type 0 where
  pub session_id : Text
  pub system_id : Text
  pub workspace_id : Text
  pub spans : List TraceSpan
  pub total : ℕ
  pub errors : ℕ
  pub started_at : Option Text
  pub ended_at : Option Text
  pub observed_at : Text

unfoldable pub is_traceable : Kind → Bool
is_traceable Kind.preview_card = false
is_traceable Kind.command_confirm = false
is_traceable _ = true

label_prefix : Kind → Text
label_prefix Kind.tool_call = text "tool: "
label_prefix Kind.approval = text "approval: "
label_prefix Kind.task_card = text "task: "
label_prefix Kind.run_event = text "run: "
label_prefix Kind.error_event = text "error: "
label_prefix Kind.file_card = text "file: "
label_prefix Kind.diff_card = text "file: "
label_prefix Kind.handoff = text "handoff: "
label_prefix _ = []

unfoldable pub label_for : TimelineEntry → Text
unfolding label_prefix
label_for e = label_prefix e.kind ++ take 80 e.body

unfoldable pub is_error : TimelineEntry → Bool
is_error e = kind_name e.kind === kind_name Kind.error_event

unfoldable pub span_of : TimelineEntry → TraceSpan
unfolding label_for is_error
span_of e = record {
  id = e.id;
  kind = e.kind;
  role = e.role;
  label = label_for e;
  body = e.body;
  created_at = e.created_at;
  attention = is_error e || kind_name e.kind === kind_name Kind.approval;
}

-- `kinds === undefined || kinds.includes(kind)`
among : Option (List Kind) → Kind → Bool
among none k = true
among (some ks) k = any (λ j. kind_name j === kind_name k) ks

unfoldable pub is_shown : Option (List Kind) → TimelineEntry → Bool
unfolding is_traceable among
is_shown kinds e = is_traceable e.kind && among kinds e.kind

unfoldable pub first_time : List TimelineEntry → Option Text
first_time [] = none
first_time (e ∷ es) = some e.created_at

unfoldable pub time_of : Option TimelineEntry → Option Text
time_of none = none
time_of (some e) = some e.created_at

-- `opts.limit ?? absent`
unfoldable pub limit_or : Option ℕ → ℕ → ℕ
limit_or none absent = absent
limit_or (some n) absent = n

-- `sessions.get`, or the error.
unfoldable pub find_session : Text → Text → SessionStore → Outcome SessionFault ChatSession
find_session system_id session_id store = elim (Sessions.get system_id session_id store) [
  | none ↦ err session_not_found
  | some s ↦ ok s
]

unfoldable pub trace_of :
    Text
    → Text
    → Option ℕ
    → Option (List Kind)
    → Text
    → ChatSession
    → List TimelineEntry
    → TraceView
unfolding is_shown span_of first_time time_of limit_or is_error
trace_of system_id session_id limit kinds observed s all_entries =
    let entries = select (is_shown kinds) all_entries in
    record {
      session_id = session_id;
      system_id = system_id;
      workspace_id = s.workspace_id;
      spans = map span_of (take_last (clamp (limit_or limit 100) 500) entries);
      total = length entries;
      errors = length (select is_error entries);
      started_at = first_time entries;
      ended_at = time_of (last? entries);
      observed_at = observed;
    }

unfoldable pub build_trace :
    Text
    → Text
    → Option ℕ
    → Option (List Kind)
    → Text
    → SessionStore
    → Outcome SessionFault TraceView
unfolding find_session trace_of
build_trace system_id session_id limit kinds observed store =
    find_session system_id session_id store >>= λ s.
    Sessions.history system_id session_id 500 store >>= λ all_entries.
    ok (trace_of system_id session_id limit kinds observed s all_entries)

pub data LogSeverity : Type 0 where
  info warning error : LogSeverity

pub record LogLine : Type 0 where
  pub seq : ℕ
  pub severity : LogSeverity
  pub line : Text
  pub created_at : Text

pub record LogDrawer : Type 0 where
  pub session_id : Text
  pub system_id : Text
  pub lines : List LogLine
  pub total : ℕ
  pub paused : Bool
  pub filter : Option LogSeverity
  pub query : Option Text
  pub observed_at : Text

pub record DrawerOptions : Type 0 where
  pub limit : Option ℕ
  pub before_seq : Option ℕ
  pub severity : Option LogSeverity
  pub query : Option Text
  pub paused : Option Bool

abbrev pub drawer_buffer_max : ℕ
drawer_buffer_max = 200

unfoldable pub severity_of : Kind → LogSeverity
severity_of Kind.error_event = error
severity_of Kind.approval = warning
severity_of Kind.run_event = warning
severity_of _ = info

-- The first 2000 units of `[kind] body`.
unfoldable pub line_text : TimelineEntry → Text
line_text e = take 2000 (text "[" ++ kind_name e.kind ++ text "] " ++ e.body)

unfoldable pub number_from : ℕ → List TimelineEntry → List LogLine
unfolding severity_of line_text
number_from n [] = []
number_from n (e ∷ es) =
    record {
      seq = n + 1;
      severity = severity_of e.kind;
      line = line_text e;
      created_at = e.created_at;
    }
    ∷ number_from (n + 1) es

same_severity : LogSeverity → LogSeverity → Bool
same_severity info info = true
same_severity warning warning = true
same_severity error error = true
same_severity _ _ = false

-- `s.includes(q)`
contains : Text → Text → Bool
contains q [] = starts_with q []
contains q (c ∷ s) = let rest = contains q s in starts_with q (c ∷ s) || rest

is_before : Option ℕ → LogLine → Bool
is_before none l = true
is_before (some n) l = ltb l.seq n

is_of_severity : Option LogSeverity → LogLine → Bool
unfolding same_severity
is_of_severity none l = true
is_of_severity (some s) l = same_severity l.severity s

matches : (Text → Text) → Option Text → LogLine → Bool
unfolding contains
matches lower none l = true
matches lower (some []) l = true
matches lower (some (c ∷ q)) l = contains (take 128 (lower (c ∷ q))) (lower l.line)

unfoldable pub keeps_line : (Text → Text) → DrawerOptions → LogLine → Bool
unfolding is_before is_of_severity matches
keeps_line lower opts l =
    is_before opts.before_seq l && is_of_severity opts.severity l && matches lower opts.query l

unfoldable pub short_query : Option Text → Option Text
short_query none = none
short_query (some []) = none
short_query (some (c ∷ q)) = some (take 128 (c ∷ q))

unfoldable pub or_false : Option Bool → Bool
or_false none = false
or_false (some b) = b

unfoldable pub drawer_of :
    (Text → Text) → Text → Text → DrawerOptions → Text → List TimelineEntry → LogDrawer
unfolding number_from keeps_line short_query or_false limit_or
drawer_of lower system_id session_id opts observed entries =
    let lines = select (keeps_line lower opts) (number_from 0 entries) in
    record {
      session_id = session_id;
      system_id = system_id;
      lines = take_last (clamp (limit_or opts.limit 50) drawer_buffer_max) lines;
      total = length lines;
      paused = or_false opts.paused;
      filter = opts.severity;
      query = short_query opts.query;
      observed_at = observed;
    }

unfoldable pub build_log_drawer :
    (Text → Text)
    → Text
    → Text
    → DrawerOptions
    → Text
    → SessionStore
    → Outcome SessionFault LogDrawer
unfolding find_session drawer_of
build_log_drawer lower system_id session_id opts observed store =
    find_session system_id session_id store >>= λ s.
    Sessions.history system_id session_id 500 store >>= λ entries.
    ok (drawer_of lower system_id session_id opts observed entries)

pub data LogFault : Type 0 where
  of_session : SessionFault → LogFault
  entry_not_found : LogFault

-- `all[seq - 1]`
unfoldable pub entry_at : ℕ → List TimelineEntry → Option TimelineEntry
entry_at zero es = none
entry_at (suc n) es = get_elem? es n

unfoldable pub body_of : Option TimelineEntry → Outcome LogFault Text
body_of none = err LogFault.entry_not_found
body_of (some e) = ok e.body

unfoldable pub copy_from : Outcome SessionFault (List TimelineEntry) → ℕ → Outcome LogFault Text
unfolding entry_at body_of
copy_from (err f) seq = err (LogFault.of_session f)
copy_from (ok es) seq = body_of (entry_at seq es)

unfoldable pub copy_log_line : Text → Text → ℕ → SessionStore → Outcome LogFault Text
unfolding find_session copy_from
copy_log_line system_id session_id seq store =
    copy_from
      (find_session system_id session_id store >>= λ s.
        Sessions.history system_id session_id 500 store)
      seq
