-- ===== src/Live/Activity/Examples.antt =====
-- A message of the session `s1` in the workspace `m` of the system `a`, and one subscriber.
use mathlib.Core.List.{Memᴰ}
use ai_verse_dashboard.Base.{ℕ, ◌≡◌, refl, none, some, [], ◌∷◌, arith}
use ai_verse_dashboard.Base.Text.{Text, text, ◌===◌}
use ai_verse_dashboard.Base.Decimal.{decimal}
use ai_verse_dashboard.Base.Map.{lookup, insert, values, has}
use ai_verse_dashboard.Protocol.Ids.{is_record_id, is_system_id, is_workspace_id}
use ai_verse_dashboard.Protocol.Scope.{workspace_scope_key, join}
use ai_verse_dashboard.Live.Sessions.{
  SessionStore, ChatSession, CreateOptions, empty_store, create, get,
}
use ai_verse_dashboard.Live.Sessions.Invariant.{
  IsWellFormed, IsWellFormed-empty, create-IsWellFormed,
}
use ai_verse_dashboard.Live.Activity.{
  LivePublish, LivePayload, chat_message, event_name, given_entry, live_event, check_session,
  publish_live,
}
use ai_verse_dashboard.Live.Activity.Published.{IsSource, publish_live-calls_sound}
use ai_verse_dashboard.Gateway.Subscriptions.{
  DeliveredEvent, Sub, SubscriptionHub, Publication, empty_hub, subscribe, publish, sub_id,
}
use ai_verse_dashboard.Gateway.Subscriptions.Delivery.{Covers}

run : Unit {0}
unfolding create get text values decimal lookup insert has is_record_id ◌===◌ is_system_id
    is_workspace_id workspace_scope_key join subscribe publish event_name given_entry live_event
    check_session publish_live
run = tt

abbrev a : Text
a = 97 ∷ []

abbrev m : Text
m = 109 ∷ []

abbrev s1 : Text
s1 = 115 ∷ 49 ∷ []

abbrev options : CreateOptions
options = record { title = none; provider = none; model = none; session_id = some s1 }

abbrev sessions : SessionStore
sessions = (create a m options (48 ∷ []) empty_store).1

sessions-IsWellFormed : IsWellFormed sessions
sessions-IsWellFormed = create-IsWellFormed a m options (48 ∷ []) empty_store IsWellFormed-empty

abbrev hub : SubscriptionHub
hub = (subscribe a none empty_hub).1

abbrev said : LivePublish ℕ
said = record {
  event = chat_message;
  system_id = a;
  workspace_id = m;
  session_id = s1;
  entry_id = none;
  payload = some 7;
}

abbrev digest : LivePayload ℕ → Text
digest p = p.session_id

abbrev published : Publication (LivePayload ℕ)
published = publish digest (live_event said) 5 hub

abbrev first : DeliveredEvent (LivePayload ℕ)
first = record { event = live_event said; seq = 1; observed_at = 5 }

publish_live-calls_sound_example :
    ((s : ChatSession) × (get a s1 sessions ≡ some s) × IsSource said s)
    × ((sub : Sub) × Memᴰ sub (values hub.subs)
        × (sub.id ≡ sub_id 1)
        × Covers sub (live_event said)
        × (first.event ≡ live_event said))
unfolding run
publish_live-calls_sound_example =
    publish_live-calls_sound said digest 5 sessions hub published (sub_id 1) first
      sessions-IsWellFormed (omega arith) refl (Memᴰ.head refl)
