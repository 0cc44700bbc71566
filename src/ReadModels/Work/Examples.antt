-- ===== src/ReadModels/Work/Examples.antt =====
-- Three work records: one normalised, two summarised.
use mathlib.Core.List.{Perm}
use ai_verse_dashboard.Base.{◌≡◌, refl, true, false, none, List, [], ◌∷◌, ◌++◌, ok, All}
use ai_verse_dashboard.Base.Text.{Text, text, ◌===◌, is_alnum, is_word, is_lower, is_digit}
use ai_verse_dashboard.Protocol.Ids.{is_record_id}
use ai_verse_dashboard.Live.Timeline.{Value, str}
use ai_verse_dashboard.ReadModels.Work.{
  WorkStatus, WorkKind, WorkItem, WorkSummary, RawWork, status_named, kind_named,
  normalize_work_item, summarize_work,
}
use ai_verse_dashboard.ReadModels.Work.Split.{IsScoped, IsAttention, summarize_work_sound}

run_here : Unit {0}
unfolding text ◌===◌ is_alnum is_word is_lower is_digit is_record_id status_named kind_named
    normalize_work_item summarize_work
run_here = tt

abbrev a : Text
a = 97 ∷ []

abbrev item : WorkStatus → WorkItem
item status = record {
  id = a;
  system_id = a;
  workspace_id = a;
  parent_id = none;
  kind = WorkKind.task;
  title = a;
  status = status;
  agent_id = none;
  runtime = none;
  started_at = none;
  completed_at = none;
  last_meaningful_event = none;
  attention_required = false;
}

raw : RawWork
unfolding text
raw = record {
  id = str a;
  title = str a;
  status = str (text "failed");
  kind = Value.null;
  attention_required = false;
  parent_id = Value.undefined;
  agent_id = Value.undefined;
  runtime = Value.undefined;
  last_meaningful_event = Value.undefined;
  started_at = Value.undefined;
  completed_at = Value.undefined;
}

raw_is_normal : normalize_work_item (λ t. false) a a raw ≡ ok (item WorkStatus.failed)
unfolding run_here raw
raw_is_normal = refl

abbrev items : List WorkItem
items = item WorkStatus.failed ∷ item WorkStatus.queued ∷ []

abbrev summary : WorkSummary
summary = record {
  system_id = a;
  workspace_id = a;
  available = true;
  active = item WorkStatus.queued ∷ [];
  waiting = [];
  blocked = item WorkStatus.failed ∷ [];
  done = [];
  attention = item WorkStatus.failed ∷ [];
  observed_at = a;
}

items_are_split : summarize_work a a a items ≡ ok summary
unfolding run_here
items_are_split = refl

summarize_work_sound_example :
    All (IsScoped a a) items
    × Perm (summary.active ++ (summary.waiting ++ (summary.blocked ++ summary.done))) items
    × IsAttention summary items
summarize_work_sound_example = summarize_work_sound a a a items summary items_are_split
