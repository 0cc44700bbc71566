-- ===== src/Gateway/Subscriptions.antt =====
-- apps/gateway/src/subscriptions.ts: the subscription hub. `digest` stands for the sixteen hex digits
-- of the SHA-256 of the payload's JSON, `now` for `Date.now()`. A listener is known by the id of its
-- subscription: `publish` returns the calls of listeners in their order. Listeners do not throw.
pub mod Delivery
pub mod Sequence
mod Examples
use ai_verse_dashboard.Base.{
  ℕ, ◌+◌, ◌≡◌, Bool, true, false, ◌&&◌, Option, none, some, List, [], ◌∷◌, ◌++◌, Outcome, ok, err,
  ltb, length, select, map, if◌then◌else◌,
}
use ai_verse_dashboard.Base.Text.{Text, text, ◌===◌}
use ai_verse_dashboard.Base.Decimal.{decimal}
use ai_verse_dashboard.Base.Map.{Map, lookup, insert, remove, has, values}
use ai_verse_dashboard.Protocol.Scope.{ScopeFault, workspace_scope_key}

pub record HubEvent (P : Type 0) : Type 0 where
  pub event : Text
  pub system_id : Text
  pub workspace_id : Option Text
  pub payload : P

pub record DeliveredEvent (P : Type 0) : Type 0 where
  pub event : HubEvent P
  pub seq : ℕ
  pub observed_at : ℕ

pub record Sub : Type 0 where
  pub id : Text
  pub system_id : Text
  pub workspace_id : Option Text

pub record SubscriptionHub : Type 0 where
  pub subs : Map Sub
  pub seq_by_system : Map ℕ
  pub seen : Map ℕ
  pub counter : ℕ

abbrev pub empty_hub : SubscriptionHub
empty_hub = record { subs = []; seq_by_system = []; seen = []; counter = 0 }

abbrev pub dedupe_window : ℕ
dedupe_window = 1000

unfoldable pub sub_id : ℕ → Text
sub_id n = text "sub-" ++ decimal n

unfoldable pub subscribe : Text → Option Text → SubscriptionHub → Text × SubscriptionHub
unfolding sub_id
subscribe system_id workspace_id hub =
    let n = hub.counter + 1 in
    let sub : Sub = record { id = sub_id n; system_id = system_id; workspace_id = workspace_id } in
    (sub_id n, record hub { counter = n; subs = insert (sub_id n) sub hub.subs })

unfoldable pub unsubscribe : Text → SubscriptionHub → Bool × SubscriptionHub
unfolding has
unsubscribe id hub = (has id hub.subs, record hub { subs = remove id hub.subs })

unfoldable pub subscriber_count : Option Text → SubscriptionHub → ℕ
subscriber_count none hub = length hub.subs
subscriber_count (some system_id) hub =
    length (select (λ (s : Sub). s.system_id === system_id) (values hub.subs))

-- `event.workspaceId ?? "-"`
unfoldable pub workspace_or_dash : Option Text → Text
workspace_or_dash none = text "-"
workspace_or_dash (some w) = w

same_workspace : Option Text → Option Text → Bool
same_workspace none w = true
same_workspace (some v) none = false
same_workspace (some v) (some w) = v === w

-- The subscriptions that the loop of `publish` does not skip.
unfoldable pub wants : Text → Option Text → Sub → Bool
unfolding same_workspace
wants system_id workspace_id sub =
    sub.system_id === system_id && same_workspace sub.workspace_id workspace_id

unfoldable pub seq_of : Option ℕ → ℕ
seq_of none = 0
seq_of (some n) = n

-- `last !== undefined && now - last < DEDUPE_WINDOW_MS`
unfoldable pub is_repeat : Option ℕ → ℕ → Bool
is_repeat none now = false
is_repeat (some last) now = ltb now (last + dedupe_window)

pub record Publication (P : Type 0) : Type 0 where
  pub outcome : Outcome ScopeFault (Option (DeliveredEvent P))
  pub calls : List (Text × DeliveredEvent P)
  pub hub : SubscriptionHub

module _ {P : Type 0} where
  unfoldable pub next_event : HubEvent P → ℕ → SubscriptionHub → DeliveredEvent P
  unfolding seq_of
  next_event event now hub = record {
    event = event;
    seq = seq_of (lookup event.system_id hub.seq_by_system) + 1;
    observed_at = now;
  }

  -- Behind the test for a repeated event.
  unfoldable pub deliver : Text → HubEvent P → ℕ → SubscriptionHub → Publication P
  unfolding next_event wants
  deliver key event now hub =
      let delivered = next_event event now hub in
      record {
        outcome = ok (some delivered);
        calls =
            map (λ (s : Sub). (s.id, delivered))
              (select (wants event.system_id event.workspace_id) (values hub.subs));
        hub = record hub {
          seen = insert key now hub.seen;
          seq_by_system = insert event.system_id delivered.seq hub.seq_by_system;
        };
      }

  publish_at : Outcome ScopeFault Text → HubEvent P → ℕ → SubscriptionHub → Publication P
  unfolding deliver is_repeat
  publish_at (err f) event now hub = record { outcome = err f; calls = []; hub = hub }
  publish_at (ok key) event now hub =
      if is_repeat (lookup key hub.seen) now
      then record { outcome = ok none; calls = []; hub = hub }
      else deliver key event now hub

  unfoldable pub event_key : (P → Text) → HubEvent P → Outcome ScopeFault Text
  unfolding workspace_or_dash
  event_key digest event =
      workspace_scope_key event.system_id (workspace_or_dash event.workspace_id)
        (event.event ∷ digest event.payload ∷ [])

  unfoldable pub publish : (P → Text) → HubEvent P → ℕ → SubscriptionHub → Publication P
  unfolding publish_at event_key
  publish digest event now hub = publish_at (event_key digest event) event now hub
