-- ===== src/Client/Chat/Moves/Once.antt =====
-- packages/client/src/conversation-run.ts: the replay of an event by a stream.
use ai_verse_dashboard.Base.{
  ◌≤◌, ◌≡◌, refl, ◌∙◌, true, false, not, ◌&&◌, Option, none, some, List, [], ◌∷◌, arith, if_rule,
  and_split, false_of_not, ltb, ltb→lt,
}
use ai_verse_dashboard.Base.Text.{Text, text, ◌===◌, member}
use ai_verse_dashboard.Client.Chat.{PersonalChatRunController, Subscription, Call, end_stream, show}
use ai_verse_dashboard.Client.Chat.Stream.{
  ChatRunEvent, reconcile, is_live, is_news, is_end, note_marker, note_seen, add_delta, take_event,
  on_event,
}

abbrev Next : Type 0
Next = PersonalChatRunController × Option Call

-- The events of a stream, one after the other.
unfoldable pub deliver :
    Subscription → List ChatRunEvent → PersonalChatRunController → PersonalChatRunController
unfolding on_event
deliver sub [] s = s
deliver sub (event ∷ events) s = deliver sub events (on_event sub event s).0

note_marker-last_seq :
    (kind : Text) (s : PersonalChatRunController) → (note_marker kind s).last_seq ≡ s.last_seq
unfolding note_marker
note_marker-last_seq kind s =
    if_rule (λ (t : PersonalChatRunController). t.last_seq ≡ s.last_seq)
      (kind === text "run.resumed") _ _ (λ _. refl) (λ _. refl)

add_delta-last_seq :
    (kind : Text) (o : Option Text) (s : PersonalChatRunController)
    → (add_delta kind o s).last_seq ≡ s.last_seq
unfolding add_delta show
add_delta-last_seq kind none s = refl
add_delta-last_seq kind (some delta) s =
    if_rule (λ (t : PersonalChatRunController). t.last_seq ≡ s.last_seq)
      (kind === text "assistant.delta" && not s.awaiting_resume_marker) _ _ (λ _. refl) (λ _. refl)

module _ (sub : Subscription) where
  take_event-last_seq :
      (event : ChatRunEvent) (s : PersonalChatRunController)
      → (take_event sub event s).0.last_seq ≡ event.seq
  unfolding take_event note_seen reconcile end_stream
  take_event-last_seq event s =
      let marked = note_marker event.kind (record s { last_seq = event.seq }) in
      let kept = note_marker-last_seq event.kind (record s { last_seq = event.seq }) in
      let kept' = add_delta-last_seq event.kind event.content (note_seen event.event_id marked) in
      if_rule (λ (n : Next). n.0.last_seq ≡ event.seq) (is_end event.kind) _ _ (λ _. kept' ∙ kept)
        (λ _. kept' ∙ kept)

  on_event-last_seq :
      (event : ChatRunEvent) (s : PersonalChatRunController)
      → s.last_seq ≤ (on_event sub event s).0.last_seq
  unfolding on_event is_news
  on_event-last_seq event s =
      if_rule (λ (n : Next). s.last_seq ≤ n.0.last_seq) (is_live sub s && is_news sub event s) _ _
        (λ on.
          let (_, news) = and_split (is_live sub s) _ on in
          let (front, _) = and_split _ (not (member event.event_id s.seen)) news in
          let (_, above) = and_split _ (ltb s.last_seq event.seq) front in
          omega (arith, ltb→lt _ _ above, take_event-last_seq event s))
        (λ _. omega arith)

  deliver-last_seq :
      (events : List ChatRunEvent) (s : PersonalChatRunController)
      → s.last_seq ≤ (deliver sub events s).last_seq
  unfolding deliver
  deliver-last_seq [] s = omega arith
  deliver-last_seq (event ∷ events) s =
      omega (arith, on_event-last_seq event s, deliver-last_seq events (on_event sub event s).0)

  old-is_news :
      (event : ChatRunEvent) (s : PersonalChatRunController)
      → event.seq ≤ s.last_seq
      → is_news sub event s ≡ false
  unfolding is_news
  old-is_news event s old = false_of_not (λ news.
      let (front, _) = and_split _ (not (member event.event_id s.seen)) news in
      let (_, above) = and_split _ (ltb s.last_seq event.seq) front in
      let less = ltb→lt s.last_seq event.seq above in absurd (omega arith))

  -- An event that a stream has taken is not taken again, after any other events of that stream.
  pub event_counts_once :
      (event : ChatRunEvent) (events : List ChatRunEvent) (s : PersonalChatRunController)
      → (is_live sub s && is_news sub event s) ≡ true
      → on_event sub event (deliver sub (event ∷ events) s) ≡ (deliver sub (event ∷ events) s, none)
  unfolding deliver on_event
  event_counts_once event events s on =
      let taken = (on_event sub event s).0 in
      let later = deliver sub events taken in
      let first : taken.last_seq ≡ event.seq = rw (on_event, on) (take_event-last_seq event s) in
      let rises = deliver-last_seq events taken in
      let old = old-is_news event later (omega arith) in
      if_rule (λ (n : Next). n ≡ (later, none)) (is_live sub later && is_news sub event later) _ _
        (λ on'. let (_, news) = and_split (is_live sub later) _ on' in absurd (cc (news, old)))
        (λ _. refl)
