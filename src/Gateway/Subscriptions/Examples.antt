-- ===== src/Gateway/Subscriptions/Examples.antt =====
-- The hub on small inputs: one subscriber of system `a`, workspace `b`.
use mathlib.Core.List.{Memᴰ}
use ai_verse_dashboard.Base.{
  ℕ, ◌+◌, ◌≡◌, refl, inr, none, some, List, [], ◌∷◌, ok, err, if◌then◌else◌, length,
}
use ai_verse_dashboard.Base.Text.{Text, text, ◌===◌}
use ai_verse_dashboard.Base.Decimal.{decimal}
use ai_verse_dashboard.Base.Map.{lookup, insert, remove, values, has}
use ai_verse_dashboard.Protocol.Ids.{is_system_id, is_workspace_id}
use ai_verse_dashboard.Protocol.Scope.{ScopeFault, workspace_scope_key, join}
use ai_verse_dashboard.Gateway.Subscriptions.{
  HubEvent, DeliveredEvent, Sub, SubscriptionHub, empty_hub, subscribe, publish, unsubscribe,
  subscriber_count, sub_id,
}
use ai_verse_dashboard.Gateway.Subscriptions.Delivery.{
  Covers, publish-calls_sound, publish-calls_complete, publish_without_workspace,
}
use ai_verse_dashboard.Gateway.Subscriptions.Sequence.{
  last_seq, publish-last_seq, count_up, numbers, publish_all, publish_all-numbers,
}

run : Unit {0}
unfolding text decimal ◌===◌ lookup insert remove values has is_system_id is_workspace_id
    workspace_scope_key join subscribe unsubscribe subscriber_count publish last_seq publish_all
run = tt

abbrev a : Text
a = 97 ∷ []

abbrev b : Text
b = 98 ∷ []

abbrev digest : ℕ → Text
digest n = n ∷ []

abbrev change : HubEvent ℕ
change = record { event = b; system_id = a; workspace_id = some b; payload = 7 }

abbrev other : HubEvent ℕ
other = record { event = b; system_id = b; workspace_id = some b; payload = 7 }

abbrev hub : SubscriptionHub
hub = (subscribe a (some b) empty_hub).1

abbrev first : DeliveredEvent ℕ
first = record { event = change; seq = 1; observed_at = 5 }

abbrev sub : Sub
sub = record { id = sub_id 1; system_id = a; workspace_id = some b }

change_is_published : (publish digest change 5 hub).outcome ≡ ok (some first)
unfolding run
change_is_published = refl

unsubscribed : subscriber_count (some a) (unsubscribe (sub_id 1) hub).1 ≡ 0
unfolding run
unsubscribed = refl

publish-calls_sound_example :
    (s : Sub) × Memᴰ s (values hub.subs)
    × (s.id ≡ sub_id 1)
    × Covers s change
    × (first.event ≡ change)
unfolding run
publish-calls_sound_example =
    publish-calls_sound digest change 5 hub (sub_id 1) first (Memᴰ.head refl)

publish-calls_complete_example : Memᴰ (sub_id 1, first) (publish digest change 5 hub).calls
unfolding run
publish-calls_complete_example =
    publish-calls_complete digest change 5 hub first sub change_is_published (Memᴰ.head refl)
      (refl, inr refl)

publish_without_workspace_example :
    (f : ScopeFault) × (publish digest (record change { workspace_id = none }) 5 hub
      ≡ record { outcome = err f; calls = []; hub = hub })
publish_without_workspace_example =
    publish_without_workspace digest (record change { workspace_id = none }) 5 hub refl

publish-last_seq_example :
    (1 ≡ last_seq a hub + 1)
    × (last_seq b (publish digest change 5 hub).hub ≡ (if a === b then 1 else last_seq b hub))
publish-last_seq_example = publish-last_seq digest change 5 hub first b change_is_published

abbrev history : List (HubEvent ℕ × ℕ)
history = (change, 5) ∷ (change, 6) ∷ (other, 7) ∷ (change, 2000) ∷ []

publish_all-numbers_example :
    numbers digest a (publish_all digest history hub)
    ≡ count_up (last_seq a hub) (length (numbers digest a (publish_all digest history hub)))
publish_all-numbers_example = publish_all-numbers digest history hub a

history-numbers : numbers digest a (publish_all digest history hub) ≡ 1 ∷ 2 ∷ []
unfolding run
history-numbers = refl
