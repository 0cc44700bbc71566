-- ===== src/ReadModels/Work.antt =====
-- packages/read-models/src/work.ts: work records and their summary. A field of an untrusted record is a
-- `Value`, as for the timeline; `is_date` is `Date.parse` and `observed` the clock.
pub mod Split
mod Examples
use ai_verse_dashboard.Base.{
  ℕ, Bool, true, false, not, ◌&&◌, ◌||◌, Option, none, some, List, [], ◌∷◌, Outcome, ok, err, leb,
  length, select, all, if◌then◌else◌, ◌>>=◌, ◌>>◌, check,
}
use ai_verse_dashboard.Base.Text.{Text, text, ◌===◌}
use ai_verse_dashboard.Protocol.Ids.{is_record_id}
use ai_verse_dashboard.Live.Timeline.{Value, str}

pub data WorkStatus : Type 0 where
  queued running waiting blocked succeeded failed cancelled : WorkStatus

pub data WorkKind : Type 0 where
  initiative task subagent automation_run : WorkKind

pub record WorkItem : Type 0 where
  pub id : Text
  pub system_id : Text
  pub workspace_id : Text
  pub parent_id : Option Text
  pub kind : WorkKind
  pub title : Text
  pub status : WorkStatus
  pub agent_id : Option Text
  pub runtime : Option Text
  pub started_at : Option Text
  pub completed_at : Option Text
  pub last_meaningful_event : Option Text
  pub attention_required : Bool

pub record WorkSummary : Type 0 where
  pub system_id : Text
  pub workspace_id : Text
  pub available : Bool
  pub active : List WorkItem
  pub waiting : List WorkItem
  pub blocked : List WorkItem
  pub done : List WorkItem
  pub attention : List WorkItem
  pub observed_at : Text

pub data WorkFault : Type 0 where
  bad_id bad_title bad_status bad_kind bad_parent bad_field bad_timestamp crossed : WorkFault

-- `attention_required`: `raw.attentionRequired === true`.
pub record RawWork : Type 0 where
  pub id : Value
  pub title : Value
  pub status : Value
  pub kind : Value
  pub attention_required : Bool
  pub parent_id : Value
  pub agent_id : Value
  pub runtime : Value
  pub last_meaningful_event : Value
  pub started_at : Value
  pub completed_at : Value

unfoldable pub status_named : Text → Option WorkStatus
status_named t =
    if t === text "queued"
    then some WorkStatus.queued
    else if t === text "running"
    then some WorkStatus.running
    else if t === text "waiting"
    then some WorkStatus.waiting
    else if t === text "blocked"
    then some WorkStatus.blocked
    else if t === text "succeeded"
    then some WorkStatus.succeeded
    else if t === text "failed"
    then some WorkStatus.failed
    else if t === text "cancelled"
    then some WorkStatus.cancelled
    else none

unfoldable pub kind_named : Text → Option WorkKind
kind_named t =
    if t === text "initiative"
    then some WorkKind.initiative
    else if t === text "task"
    then some WorkKind.task
    else if t === text "subagent"
    then some WorkKind.subagent
    else if t === text "automation-run"
    then some WorkKind.automation_run
    else none

or_fault : {A : Type 0} → Option A → WorkFault → Outcome WorkFault A
or_fault none f = err f
or_fault (some a) f = ok a

-- A string that passes the test.
string_that : (Text → Bool) → Value → WorkFault → Outcome WorkFault Text
string_that p (str s) f = check (p s) f >> ok s
string_that p _ f = err f

-- A field that may be missing.
optional : (Text → Bool) → Value → WorkFault → Outcome WorkFault (Option Text)
unfolding string_that
optional p Value.undefined f = ok none
optional p v f = string_that p v f >>= λ s. ok (some s)

-- `raw.kind ?? "task"`
kind_of : Value → Outcome WorkFault WorkKind
unfolding or_fault
kind_of Value.undefined = ok WorkKind.task
kind_of Value.null = ok WorkKind.task
kind_of (str s) = or_fault (kind_named s) WorkFault.bad_kind
kind_of Value.other = err WorkFault.bad_kind

status_of : Value → Outcome WorkFault WorkStatus
unfolding or_fault
status_of (str s) = or_fault (status_named s) WorkFault.bad_status
status_of _ = err WorkFault.bad_status

is_title : Text → Bool
is_title s = leb 1 (length s) && leb (length s) 256

is_field : Text → Bool
is_field s = leb (length s) 256

unfoldable pub normalize_work_item :
    (Text → Bool) → Text → Text → RawWork → Outcome WorkFault WorkItem
unfolding string_that optional kind_of status_of is_title is_field
normalize_work_item is_date system_id workspace_id raw =
    string_that is_record_id raw.id WorkFault.bad_id >>= λ id.
    string_that is_title raw.title WorkFault.bad_title >>= λ title.
    status_of raw.status >>= λ status. kind_of raw.kind >>= λ kind.
    optional is_record_id raw.parent_id WorkFault.bad_parent >>= λ parent_id.
    optional is_field raw.agent_id WorkFault.bad_field >>= λ agent_id.
    optional is_field raw.runtime WorkFault.bad_field >>= λ runtime.
    optional is_field raw.last_meaningful_event WorkFault.bad_field >>= λ event.
    optional is_date raw.started_at WorkFault.bad_timestamp >>= λ started_at.
    optional is_date raw.completed_at WorkFault.bad_timestamp >>= λ completed_at. ok (record {
      id = id;
      system_id = system_id;
      workspace_id = workspace_id;
      parent_id = parent_id;
      kind = kind;
      title = title;
      status = status;
      agent_id = agent_id;
      runtime = runtime;
      started_at = started_at;
      completed_at = completed_at;
      last_meaningful_event = event;
      attention_required = raw.attention_required;
    })

unfoldable pub unavailable_work_summary : Text → Text → Text → WorkSummary
unavailable_work_summary system_id workspace_id observed = record {
  system_id = system_id;
  workspace_id = workspace_id;
  available = false;
  active = [];
  waiting = [];
  blocked = [];
  done = [];
  attention = [];
  observed_at = observed;
}

abbrev pub is_active : WorkStatus → Bool
is_active WorkStatus.running = true
is_active WorkStatus.queued = true
is_active _ = false

abbrev pub is_waiting : WorkStatus → Bool
is_waiting WorkStatus.waiting = true
is_waiting _ = false

abbrev pub is_blocked : WorkStatus → Bool
is_blocked WorkStatus.blocked = true
is_blocked WorkStatus.failed = true
is_blocked _ = false

abbrev pub is_done : WorkStatus → Bool
is_done WorkStatus.succeeded = true
is_done WorkStatus.cancelled = true
is_done _ = false

abbrev pub with_status : (WorkStatus → Bool) → List WorkItem → List WorkItem
with_status p items = select (λ (i : WorkItem). p i.status) items

abbrev pub needs_attention : WorkItem → Bool
needs_attention i = i.attention_required || is_blocked i.status

abbrev pub in_scope : Text → Text → WorkItem → Bool
in_scope system_id workspace_id i = i.system_id === system_id && i.workspace_id === workspace_id

unfoldable pub summarize_work : Text → Text → Text → List WorkItem → Outcome WorkFault WorkSummary
summarize_work system_id workspace_id observed items =
    check (all (in_scope system_id workspace_id) items) WorkFault.crossed
    >> ok (record {
      system_id = system_id;
      workspace_id = workspace_id;
      available = true;
      active = with_status is_active items;
      waiting = with_status is_waiting items;
      blocked = with_status is_blocked items;
      done = with_status is_done items;
      attention = select needs_attention items;
      observed_at = observed;
    })
