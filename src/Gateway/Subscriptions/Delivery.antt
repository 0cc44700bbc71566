-- ===== src/Gateway/Subscriptions/Delivery.antt =====
-- Who is called for a published event.
use mathlib.Core.List.{Memᴰ}
use ai_verse_dashboard.Base.{
  ℕ, ◌≡◌, ◌⊎◌, refl, sym, ap, Bool, true, false, Option, none, some, List, [], ◌∷◌, ok, err, inl,
  inr, Bool-cases, select, map, if◌then◌else◌, and_split, Outcome,
}
use ai_verse_dashboard.Base.Text.{Text, text, ◌===◌, ===_sound, ===_refl}
use ai_verse_dashboard.Base.Map.{lookup, values}
use ai_verse_dashboard.Protocol.Ids.{is_system_id, is_workspace_id}
use ai_verse_dashboard.Protocol.Scope.{ScopeFault, workspace_scope_key}
use ai_verse_dashboard.Gateway.Subscriptions.{
  HubEvent, DeliveredEvent, Sub, SubscriptionHub, Publication, wants, same_workspace, next_event,
  deliver, publish_at, publish, is_repeat, event_key, workspace_or_dash,
}

-- A subscription covers an event of its own system, and of its own workspace if it names one.
abbrev pub Covers : {P : Type 0} → Sub → HubEvent P → Type 0
Covers s e =
    (s.system_id ≡ e.system_id) × ((s.workspace_id ≡ none) ⊎ (s.workspace_id ≡ e.workspace_id))

same_workspace_sound : (v w : Option Text) → same_workspace v w ≡ true → (v ≡ none) ⊎ (v ≡ w)
unfolding same_workspace
same_workspace_sound none w h = inl refl
same_workspace_sound (some v) none h = absurd (cc h)
same_workspace_sound (some v) (some w) h = inr (ap some (===_sound v w h))

same_workspace_complete : (v w : Option Text) → (v ≡ none) ⊎ (v ≡ w) → same_workspace v w ≡ true
unfolding same_workspace
same_workspace_complete none w h = refl
same_workspace_complete (some v) w (inl e) = absurd (cc e)
same_workspace_complete (some v) w (inr e) = rw (← e) (===_refl v)

wants_sound :
    {P : Type 0} (e : HubEvent P) (s : Sub) → wants e.system_id e.workspace_id s ≡ true → Covers s e
unfolding wants
wants_sound e s h =
    let (system, workspace) = and_split (s.system_id === e.system_id) _ h in
    (
      ===_sound s.system_id e.system_id system,
      same_workspace_sound s.workspace_id e.workspace_id workspace,
    )

wants_complete :
    {P : Type 0} (e : HubEvent P) (s : Sub) → Covers s e → wants e.system_id e.workspace_id s ≡ true
unfolding wants
wants_complete e s (system, workspace) =
    rw (system, ===_refl e.system_id)
      (same_workspace_complete s.workspace_id e.workspace_id workspace)

module _ {ℓ κ} {A : Type ℓ} {B : Type κ} (f : A → B) where
  mem-if :
      (b : Bool) (x : A) (ys : List A) {c : B}
      → Memᴰ c (map f (if b then x ∷ ys else ys))
      → ((b ≡ true) × (c ≡ f x)) ⊎ Memᴰ c (map f ys)
  mem-if true x ys (Memᴰ.head e) = inl (refl, e)
  mem-if true x ys (Memᴰ.tail m) = inr m
  mem-if false x ys m = inr m

  if-mem :
      (b : Bool) (x : A) (ys : List A) {c : B}
      → Memᴰ c (map f ys)
      → Memᴰ c (map f (if b then x ∷ ys else ys))
  if-mem true x ys m = Memᴰ.tail m
  if-mem false x ys m = m

  module _ (p : A → Bool) where
    mem-map-select_sound :
        (xs : List A) {c : B}
        → Memᴰ c (map f (select p xs))
        → (a : A) × Memᴰ a xs × (p a ≡ true) × (c ≡ f a)
    mem-map-select_sound [] m = elim m [ ]
    mem-map-select_sound (x ∷ xs) m = elim (mem-if (p x) x (select p xs) m) [
      | inl (hit, e) ↦ (x, Memᴰ.head refl, hit, e)
      | inr m' ↦
          let (a, inside, hit, e) = mem-map-select_sound xs m' in (a, Memᴰ.tail inside, hit, e)
    ]

    mem-map-select_complete :
        (xs : List A) {a : A} → Memᴰ a xs → p a ≡ true → Memᴰ (f a) (map f (select p xs))
    mem-map-select_complete [] m h = elim m [ ]
    mem-map-select_complete (x ∷ xs) (Memᴰ.head e) h =
        let hit : p x ≡ true = rw e at h in rw hit (Memᴰ.head (ap f e))
    mem-map-select_complete (x ∷ xs) (Memᴰ.tail m) h =
        if-mem (p x) x (select p xs) (mem-map-select_complete xs m h)

module _ {P : Type 0} (digest : P → Text) (event : HubEvent P) (now : ℕ)
    (hub : SubscriptionHub) where
  -- The three ways in which `publish` ends.
  pub publish_cases {ℓ} :
      (Q : Publication P → Type ℓ)
      → ((f : ScopeFault)
          → event_key digest event ≡ err f
          → Q (record { outcome = err f; calls = []; hub = hub }))
      → ((k : Text)
          → event_key digest event ≡ ok k
          → is_repeat (lookup k hub.seen) now ≡ true
          → Q (record { outcome = ok none; calls = []; hub = hub }))
      → ((k : Text)
          → event_key digest event ≡ ok k
          → is_repeat (lookup k hub.seen) now ≡ false
          → Q (deliver k event now hub))
      → Q (publish digest event now hub)
  unfolding publish
  publish_cases Q failed repeated fresh = go (event_key digest event) refl
    where
      go :
          (o : Outcome ScopeFault Text)
          → event_key digest event ≡ o
          → Q (publish_at o event now hub)
      go (err f) e = failed f e
      go (ok k) e = elim (Bool-cases (is_repeat (lookup k hub.seen) now)) [
        | inl again ↦ rw again (repeated k e again)
        | inr first ↦ rw first (fresh k e first)
      ]

  -- Each call of a listener is for a subscription of the hub that covers the event, and carries the
  -- event that is published.
  pub publish-calls_sound :
      (id : Text) (d : DeliveredEvent P)
      → Memᴰ (id, d) (publish digest event now hub).calls
      → (s : Sub) × Memᴰ s (values hub.subs) × (s.id ≡ id) × Covers s event × (d.event ≡ event)
  unfolding deliver next_event
  publish-calls_sound id d =
      publish_cases
        (λ r.
          Memᴰ (id, d) r.calls
          → (s : Sub) × Memᴰ s (values hub.subs) × (s.id ≡ id) × Covers s event × (d.event ≡ event))
        (λ f e m. elim m [ ]) (λ k e again m. elim m [ ])
        λ k e first m.
          let delivered = next_event event now hub in
          let call : Sub → Text × DeliveredEvent P = λ s. (s.id, delivered) in
          let test = wants event.system_id event.workspace_id in
          let (s, inside, hit, same) = mem-map-select_sound call test (values hub.subs) m in
          (
            s,
            inside,
            sym (ap (λ (c : Text × DeliveredEvent P). c.0) same),
            wants_sound event s hit,
            ap (λ (c : Text × DeliveredEvent P). c.1.event) same,
          )

  -- If the event is published, every subscription of the hub that covers it is called.
  pub publish-calls_complete :
      (d : DeliveredEvent P) (s : Sub)
      → (publish digest event now hub).outcome ≡ ok (some d)
      → Memᴰ s (values hub.subs)
      → Covers s event
      → Memᴰ (s.id, d) (publish digest event now hub).calls
  unfolding deliver next_event
  publish-calls_complete d s done inside c =
      publish_cases (λ r. r.outcome ≡ ok (some d) → Memᴰ (s.id, d) r.calls) (λ f e h. absurd (cc h))
        (λ k e again h. absurd (cc h))
        (λ k e first h.
          let delivered = next_event event now hub in
          let call : Sub → Text × DeliveredEvent P = λ s'. (s'.id, delivered) in
          let test = wants event.system_id event.workspace_id in
          let same : delivered ≡ d = cc h in
          rw (← same)
            (mem-map-select_complete call test (values hub.subs) inside (wants_complete event s c)))
        done

  -- An event without a workspace is never published: `-` is no workspace id, so the key throws.
  pub publish_without_workspace :
      event.workspace_id ≡ none
      → (f : ScopeFault) × (publish digest event now hub
          ≡ record { outcome = err f; calls = []; hub = hub })
  unfolding publish publish_at event_key workspace_scope_key workspace_or_dash text is_workspace_id
  publish_without_workspace h = elim (Bool-cases (is_system_id event.system_id)) [
    | inl valid ↦ (ScopeFault.invalid_workspace_id, rw (h, valid))
    | inr invalid ↦ (ScopeFault.invalid_system_id, rw (h, invalid))
  ]
