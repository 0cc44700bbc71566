-- ===== src/ReadModels/Inbox/Examples.antt =====
-- An inbox of a note and a younger failure.
use mathlib.Core.List.{Perm}
use ai_verse_dashboard.Base.{◌≡◌, refl, List, [], ◌∷◌, none, length}
use ai_verse_dashboard.Base.Text.{Text}
use ai_verse_dashboard.ReadModels.Inbox.{InboxItem, InboxKind, InboxSeverity, sort_inbox}
use ai_verse_dashboard.ReadModels.Inbox.Order.{IsInOrder, sort_inbox_sound}

abbrev item : InboxKind → InboxSeverity → Text → InboxItem
item kind severity created_at = record {
  id = 97 ∷ [];
  system_id = 97 ∷ [];
  workspace_id = 109 ∷ [];
  kind = kind;
  severity = severity;
  title = 116 ∷ [];
  summary = none;
  created_at = created_at;
  expires_at = none;
  source = record { kind = 107 ∷ []; path = none; record_id = none };
  available_actions = [];
}

abbrev note : InboxItem
note = item InboxKind.review InboxSeverity.info []

abbrev failure_item : InboxItem
failure_item = item InboxKind.failure InboxSeverity.critical (48 ∷ [])

abbrev two_items : List InboxItem
two_items = note ∷ failure_item ∷ []

failure_first : sort_inbox length two_items ≡ failure_item ∷ note ∷ []
unfolding sort_inbox
failure_first = refl

sort_inbox_sound_example :
    Perm (sort_inbox length two_items) two_items × IsInOrder length (sort_inbox length two_items)
sort_inbox_sound_example = sort_inbox_sound length two_items
