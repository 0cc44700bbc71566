-- ===== src/Gateway/Subscriptions/Sequence.antt =====
-- The numbers of the events of a system, and the suppression of repeated events.
use ai_verse_dashboard.Base.{
  ℕ, zero, suc, ◌+◌, select, map, length, ◌<◌, ◌≡◌, ◌≢◌, refl, sym, ap, ◌∙◌, subst, true, Option,
  none, some, List, [], ◌∷◌, ok, err, arith, inl, inr, Bool-cases, if◌then◌else◌, Outcome,
}
use ai_verse_dashboard.Base.Text.{Text, ◌===◌, ===_sound, ===_refl, ===_ne}
use ai_verse_dashboard.Base.Map.{Map, lookup, insert, lookup-insert}
use ai_verse_dashboard.Protocol.Scope.{ScopeFault}
use ai_verse_dashboard.Protocol.Scope.Keys.{workspace_scope_key-isolates}
use ai_verse_dashboard.Gateway.Subscriptions.{
  HubEvent, DeliveredEvent, SubscriptionHub, next_event, deliver, publish_at, publish, is_repeat,
  event_key, seq_of,
}
use ai_verse_dashboard.Gateway.Subscriptions.Delivery.{publish_cases}

-- The last number that the hub gave in a system, 0 at the start.
unfoldable pub last_seq : Text → SubscriptionHub → ℕ
last_seq sys hub = seq_of (lookup sys hub.seq_by_system)

recently :
    (k : Text) (now later : ℕ) (seen : Map ℕ)
    → later < now + 1000
    → is_repeat (lookup k (insert k now seen)) later ≡ true
unfolding is_repeat
recently k now later seen soon = rw (lookup-insert k k now seen, ===_refl k) (ground arith)

-- The outcome depends on what was seen under the key, and on the number of the system.
publish_at-outcome :
    {P : Type 0} (o : Outcome ScopeFault Text) (event : HubEvent P) (now : ℕ)
    (hub hub' : SubscriptionHub)
    → ((k : Text) → o ≡ ok k → lookup k hub.seen ≡ lookup k hub'.seen)
    → lookup event.system_id hub.seq_by_system ≡ lookup event.system_id hub'.seq_by_system
    → (publish_at o event now hub).outcome ≡ (publish_at o event now hub').outcome
unfolding publish_at deliver next_event
publish_at-outcome (err f) event now hub hub' seen number = refl
publish_at-outcome (ok k) event now hub hub' seen number =
    rw (seen k refl, number)
      (elim (Bool-cases (is_repeat (lookup k hub'.seen) now)) [
        | inl again ↦ rw again
        | inr first ↦ rw first
      ])

-- n + 1, n + 2, and so on.
abbrev pub count_up : ℕ → ℕ → List ℕ
count_up n zero = []
count_up n (suc k) = (n + 1) ∷ count_up (n + 1) k

module _ {P : Type 0} (digest : P → Text) where
  event_key-isolates :
      (event event' : HubEvent P) (k : Text)
      → event_key digest event ≡ ok k
      → event_key digest event' ≡ ok k
      → event.system_id ≡ event'.system_id
  unfolding event_key
  event_key-isolates event event' k h h' =
      (workspace_scope_key-isolates event.system_id event'.system_id _ _ _ _ k h h').0

  publish-at :
      (event : HubEvent P) (now : ℕ) (hub : SubscriptionHub)
      → publish digest event now hub ≡ publish_at (event_key digest event) event now hub
  unfolding publish
  publish-at event now hub = refl

  -- What was published took the next number of its system; every other system kept its number.
  pub publish-last_seq :
      (event : HubEvent P) (now : ℕ) (hub : SubscriptionHub) (d : DeliveredEvent P) (sys : Text)
      → (publish digest event now hub).outcome ≡ ok (some d)
      → (d.seq ≡ last_seq event.system_id hub + 1)
        × (last_seq sys (publish digest event now hub).hub
            ≡ (if event.system_id === sys then d.seq else last_seq sys hub))
  unfolding deliver next_event last_seq seq_of
  publish-last_seq event now hub d sys =
      publish_cases digest event now hub
        (λ r.
          r.outcome ≡ ok (some d)
          → (d.seq ≡ last_seq event.system_id hub + 1)
            × (last_seq sys r.hub ≡ (if event.system_id === sys then d.seq else last_seq sys hub)))
        (λ f e h. absurd (cc h)) (λ k e again h. absurd (cc h))
        λ k e first h.
          let same : next_event event now hub ≡ d = cc h in
          let number : d.seq ≡ last_seq event.system_id hub + 1 =
            sym (ap (λ (x : DeliveredEvent P). x.seq) same) in
          (
            number,
            rw
                (lookup-insert event.system_id sys (last_seq event.system_id hub + 1)
                  hub.seq_by_system)
                (elim (Bool-cases (event.system_id === sys)) [
                  | inl e' ↦ rw e' (sym number)
                  | inr e' ↦ rw e'
                ]),
          )

  -- An event that was published, and comes again within a second, is dropped: no listener is called
  -- and the hub stays as it was.
  pub publish_again :
      (event : HubEvent P) (now later : ℕ) (hub : SubscriptionHub) (d : DeliveredEvent P)
      → (publish digest event now hub).outcome ≡ ok (some d)
      → later < now + 1000
      → let after = (publish digest event now hub).hub in
        publish digest event later after ≡ record { outcome = ok none; calls = []; hub = after }
  unfolding deliver publish_at
  publish_again event now later hub d done soon =
      publish_cases digest event now hub
        (λ r.
          r.outcome ≡ ok (some d)
          → publish digest event later r.hub
            ≡ record { outcome = ok none; calls = []; hub = r.hub })
        (λ f e h. absurd (cc h)) (λ k e again h. absurd (cc h))
        (λ k e first h. rw (
          publish-at event later (deliver k event now hub).hub,
          e,
          recently k now later hub.seen soon,
        ))
        done

  -- What one system publishes has no influence on what becomes of an event of another system.
  pub publish_ne :
      (event event' : HubEvent P) (now now' : ℕ) (hub : SubscriptionHub)
      → event.system_id ≢ event'.system_id
      → (publish digest event' now' (publish digest event now hub).hub).outcome
        ≡ (publish digest event' now' hub).outcome
  unfolding deliver
  publish_ne event event' now now' hub ne =
      publish_cases digest event now hub
        (λ r. (publish digest event' now' r.hub).outcome ≡ (publish digest event' now' hub).outcome)
        (λ f e. refl) (λ k e again. refl)
        λ k e first.
          rw (publish-at event' now' (deliver k event now hub).hub, publish-at event' now' hub)
            (publish_at-outcome (event_key digest event') event' now' (deliver k event now hub).hub
              hub
              (λ k' e'.
                let apart : k ≢ k' =
                  λ same. ne (event_key-isolates event event' k' (rw same at e) e') in
                rw (lookup-insert k k' now hub.seen, ===_ne k k' apart))
              (rw (
                lookup-insert event.system_id event'.system_id (next_event event now hub).seq
                    hub.seq_by_system,
                ===_ne event.system_id event'.system_id ne,
              )))

  -- The events that come out of a history of publications, in their order.
  published :
      Outcome ScopeFault (Option (DeliveredEvent P))
      → List (DeliveredEvent P)
      → List (DeliveredEvent P)
  published (ok (some d)) ds = d ∷ ds
  published _ ds = ds

  unfoldable pub publish_all : List (HubEvent P × ℕ) → SubscriptionHub → List (DeliveredEvent P)
  unfolding published
  publish_all [] hub = []
  publish_all ((event, now) ∷ rest) hub =
      let r = publish digest event now hub in published r.outcome (publish_all rest r.hub)

  abbrev pub numbers : Text → List (DeliveredEvent P) → List ℕ
  numbers sys ds =
      map (λ (d : DeliveredEvent P). d.seq)
        (select (λ (d : DeliveredEvent P). d.event.system_id === sys) ds)

  deliver-last_seq :
      (k : Text) (event : HubEvent P) (now : ℕ) (hub : SubscriptionHub) (sys : Text)
      → last_seq sys (deliver k event now hub).hub
        ≡ (if event.system_id === sys then (next_event event now hub).seq else last_seq sys hub)
  unfolding deliver last_seq seq_of
  deliver-last_seq k event now hub sys =
      rw (lookup-insert event.system_id sys (next_event event now hub).seq hub.seq_by_system)
        (elim (Bool-cases (event.system_id === sys)) [ inl e' ↦ rw e' | inr e' ↦ rw e' ])

  numbers-step :
      (event : HubEvent P) (now : ℕ) (hub : SubscriptionHub) (sys : Text)
      (ds : List (DeliveredEvent P))
      → let r = publish digest event now hub in
        numbers sys ds ≡ count_up (last_seq sys r.hub) (length (numbers sys ds))
        → let all = published r.outcome ds in
          numbers sys all ≡ count_up (last_seq sys hub) (length (numbers sys all))
  unfolding published deliver next_event last_seq
  numbers-step event now hub sys ds =
      publish_cases digest event now hub
        (λ r.
          numbers sys ds ≡ count_up (last_seq sys r.hub) (length (numbers sys ds))
          → numbers sys (published r.outcome ds)
            ≡ count_up (last_seq sys hub) (length (numbers sys (published r.outcome ds))))
        (λ f e h. h) (λ k e again h. h)
        λ k e first h. elim (Bool-cases (event.system_id === sys)) [
          | inl hit ↦
              let same = ===_sound event.system_id sys hit in
              let number : (next_event event now hub).seq ≡ last_seq sys hub + 1 =
                ap (λ s. last_seq s hub + 1) same in
              let after = deliver-last_seq k event now hub sys in
              rw (hit, number)
                (ap (◌∷◌ (last_seq sys hub + 1)) (
                  subst (λ n. numbers sys ds ≡ count_up n (length (numbers sys ds)))
                    (after ∙ (rw hit number)) h))
          | inr miss ↦
              let after = deliver-last_seq k event now hub sys in
              rw miss (
                subst (λ n. numbers sys ds ≡ count_up n (length (numbers sys ds)))
                  (after ∙ (rw miss)) h)
        ]

  -- Whatever is published, the numbers that a system sees go up by one from its last number on, with
  -- no gap and no repetition.
  pub publish_all-numbers :
      (history : List (HubEvent P × ℕ)) (hub : SubscriptionHub) (sys : Text)
      → numbers sys (publish_all history hub)
        ≡ count_up (last_seq sys hub) (length (numbers sys (publish_all history hub)))
  unfolding publish_all
  publish_all-numbers [] hub sys = refl
  publish_all-numbers ((event, now) ∷ rest) hub sys =
      numbers-step event now hub sys (publish_all rest (publish digest event now hub).hub)
        (publish_all-numbers rest (publish digest event now hub).hub sys)
