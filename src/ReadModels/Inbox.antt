-- ===== src/ReadModels/Inbox.antt =====
-- packages/read-models/src/inbox.ts: inbox records and their order. A field of an untrusted record is
-- a `Value`, as for the timeline; `is_date` tells whether `Date.parse` gives a number, and `time_of` is
-- that number from an origin before all dates. Every message that is thrown is a fault of its own.
pub mod Order
mod Examples
use ai_verse_dashboard.Base.{
  ℕ, ◌≡◌, ◌≤◌, ◌<◌, Bool, true, false, not, ◌&&◌, ◌||◌, Option, none, some, List, [], ◌∷◌, Outcome,
  ok, err, leb, ltb, ◌==◌, length, arith, if◌then◌else◌, ◌>>=◌, ◌>>◌, check,
}
use ai_verse_dashboard.Base.Text.{Text, text, ◌===◌}
use ai_verse_dashboard.Base.Sort.{sort_by, IsOrder}
use ai_verse_dashboard.Protocol.Ids.{is_record_id}
use ai_verse_dashboard.Live.Timeline.{Value, str}

pub data InboxKind : Type 0 where
  approval question failure blocked stale pairing security review : InboxKind

pub data InboxSeverity : Type 0 where
  info warning critical : InboxSeverity

pub record SourceRef : Type 0 where
  pub kind : Text
  pub path : Option Text
  pub record_id : Option Text

pub record CommandDescriptor : Type 0 where
  pub command : Text
  pub label : Text

pub record InboxItem : Type 0 where
  pub id : Text
  pub system_id : Text
  pub workspace_id : Text
  pub kind : InboxKind
  pub severity : InboxSeverity
  pub title : Text
  pub summary : Option Text
  pub created_at : Text
  pub expires_at : Option Text
  pub source : SourceRef
  pub available_actions : List CommandDescriptor

pub data InboxFault : Type 0 where
  bad_id bad_kind bad_severity bad_title bad_created_at bad_source bad_summary : InboxFault
  bad_expires_at bad_action : InboxFault

-- `source` is there if it is an object whose kind is a string; `actions` are the fields of the
-- entries of an array without null entries, none for anything that is no array.
pub record RawInbox : Type 0 where
  pub id : Value
  pub kind : Value
  pub severity : Value
  pub title : Value
  pub created_at : Value
  pub source : Option SourceRef
  pub summary : Value
  pub expires_at : Value
  pub actions : List (Value × Value)

unfoldable pub inbox_kind_named : Text → Option InboxKind
unfolding text ◌===◌
inbox_kind_named t =
    if t === text "approval"
    then some approval
    else if t === text "question"
    then some question
    else if t === text "failure"
    then some failure
    else if t === text "blocked"
    then some blocked
    else if t === text "stale"
    then some stale
    else if t === text "pairing"
    then some pairing
    else if t === text "security"
    then some security
    else if t === text "review"
    then some review
    else none

unfoldable pub severity_named : Text → Option InboxSeverity
unfolding text ◌===◌
severity_named t =
    if t === text "info"
    then some info
    else if t === text "warning"
    then some warning
    else if t === text "critical"
    then some critical
    else none

or_fault : {A : Type 0} → Option A → InboxFault → Outcome InboxFault A
or_fault none f = err f
or_fault (some a) f = ok a

-- A string that passes the test.
string_that : (Text → Bool) → Value → InboxFault → Outcome InboxFault Text
string_that p (str s) f = check (p s) f >> ok s
string_that p _ f = err f

optional : (Text → Bool) → Value → InboxFault → Outcome InboxFault (Option Text)
unfolding string_that
optional p Value.undefined f = ok none
optional p v f = string_that p v f >>= λ s. ok (some s)

kind_of : Value → Outcome InboxFault InboxKind
unfolding or_fault inbox_kind_named
kind_of (str s) = or_fault (inbox_kind_named s) bad_kind
kind_of _ = err bad_kind

-- `raw.severity ?? "info"`
severity_of : Value → Outcome InboxFault InboxSeverity
unfolding or_fault severity_named
severity_of Value.undefined = ok info
severity_of Value.null = ok info
severity_of (str s) = or_fault (severity_named s) bad_severity
severity_of Value.other = err bad_severity

actions_of : List (Value × Value) → Outcome InboxFault (List CommandDescriptor)
unfolding string_that
actions_of [] = ok []
actions_of ((command, label) ∷ actions) = string_that (λ s. true) command bad_action >>= λ c.
    string_that (λ s. true) label bad_action >>= λ l.
    actions_of actions >>= λ rest. ok (record { command = c; label = l } ∷ rest)

unfoldable pub normalize_inbox_item :
    (Text → Bool) → Text → Text → RawInbox → Outcome InboxFault InboxItem
unfolding is_record_id string_that optional kind_of severity_of or_fault actions_of
normalize_inbox_item is_date system_id workspace_id raw =
    string_that is_record_id raw.id bad_id >>= λ id. kind_of raw.kind >>= λ kind.
    severity_of raw.severity >>= λ severity.
    string_that (λ s. leb 1 (length s) && leb (length s) 256) raw.title bad_title >>= λ title.
    string_that is_date raw.created_at bad_created_at >>= λ created_at.
    or_fault raw.source bad_source >>= λ source.
    optional (λ s. leb (length s) 1024) raw.summary bad_summary >>= λ summary.
    optional is_date raw.expires_at bad_expires_at >>= λ expires_at.
    actions_of raw.actions >>= λ available_actions. ok (record {
      id = id;
      system_id = system_id;
      workspace_id = workspace_id;
      kind = kind;
      severity = severity;
      title = title;
      summary = summary;
      created_at = created_at;
      expires_at = expires_at;
      source = source;
      available_actions = available_actions;
    })

-- `SEV_RANK`
unfoldable pub severity_rank : InboxSeverity → ℕ
severity_rank critical = 0
severity_rank warning = 1
severity_rank info = 2

module _ (time_of : Text → ℕ) where
  -- The comparison is negative.
  unfoldable pub more_urgent : InboxItem → InboxItem → Bool
  unfolding severity_rank
  more_urgent a b =
      if severity_rank a.severity == severity_rank b.severity
      then ltb (time_of a.created_at) (time_of b.created_at)
      else ltb (severity_rank a.severity) (severity_rank b.severity)

  unfoldable pub sort_inbox : List InboxItem → List InboxItem
  unfolding more_urgent sort_by
  sort_inbox items = sort_by more_urgent items
