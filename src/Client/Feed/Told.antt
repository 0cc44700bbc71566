-- ===== src/Client/Feed/Told.antt =====
-- packages/client/src/gateway-event-feed.ts: which callbacks a stream makes, and in which order.
use mathlib.Core.List.Memᴰ
use mathlib.Core.List.{Memᴰ}
use ai_verse_dashboard.Client.Feed.Frames.{Says, IsFrame, Read, says_sound, event_of-Read}
use ai_verse_dashboard.Base.{
  All-mono, ◌≤◌, ◌≡◌, refl, subst, inl, inr, Bool, true, false, ◌||◌, Option, none, some, List, [],
  ◌∷◌, ◌++◌, arith, if_rule, and_split, or_true, Bool-cases, ltb, length, All, All-append,
  if◌then◌else◌,
}
use ai_verse_dashboard.Base.Text.{Text, text}
use ai_verse_dashboard.Protocol.Json.{
  Json, object, null, boolean, number, other_number, string, array, Members,
}
use ai_verse_dashboard.Protocol.Fields.{field}
use ai_verse_dashboard.Client.Runs.{RequiredScope}
use ai_verse_dashboard.Client.Chat.Stream.{ChatRunEvent}
use ai_verse_dashboard.Client.Feed.{
  Feed, Signal, opens, closes, fails, message, dispose, Effect, event, interruption,
  sends_subscribe, sends_unsubscribe, closes_socket, interrupt, says, denial, event_of, emit,
  is_denial, is_run_event, read_event, read, read_value, on_message, on_signal, effects,
}

-- The events among effects are told of.
abbrev pub OnEvent : (ChatRunEvent → Type 0) → Effect → Type 0
OnEvent P (event e) = P e
OnEvent P (interruption code) = Unit {0}
OnEvent P sends_subscribe = Unit {0}
OnEvent P sends_unsubscribe = Unit {0}
OnEvent P closes_socket = Unit {0}

-- The event was read from a message of the history, in which the frame is of the scope and the run.
abbrev pub IsFrom :
    (Text → Option Json) → List Signal → RequiredScope → Text → ChatRunEvent → Type 0
IsFrom parse ss scope run_id e =
    (raw : Text) × Memᴰ (message raw) ss
    × (length raw ≤ 131_072)
    × ((ms : Members) × (parse raw ≡ some (object ms)) × IsFrame scope run_id ms e)

abbrev pub IsNoCallback : Effect → Type 0
IsNoCallback (event e) = ⊥
IsNoCallback (interruption code) = ⊥
IsNoCallback sends_subscribe = Unit {0}
IsNoCallback sends_unsubscribe = Unit {0}
IsNoCallback closes_socket = Unit {0}

-- After an interruption there is no callback.
abbrev pub IsEnded : List Effect → Type 0
IsEnded [] = Unit {0}
IsEnded (interruption code ∷ es) = All IsNoCallback es
IsEnded (event e ∷ es) = IsEnded es
IsEnded (sends_subscribe ∷ es) = IsEnded es
IsEnded (sends_unsubscribe ∷ es) = IsEnded es
IsEnded (closes_socket ∷ es) = IsEnded es

abbrev is_over : Feed → Bool
is_over f = f.stopped || f.reported

-- What one signal makes of a feed: it stays with its run, its events are told of, and its effects may
-- be followed by those of the feed that it leaves.
abbrev IsStep : Feed → (ChatRunEvent → Type 0) → Feed × List Effect → Type 0
IsStep f P n =
    (n.0.scope ≡ f.scope)
    × (n.0.run_id ≡ f.run_id)
    × All (OnEvent P) n.1
    × ((rest : List Effect)
        → IsEnded rest
        → (is_over n.0 ≡ true → All IsNoCallback rest)
        → IsEnded (n.1 ++ rest))

module _ {P Q : ChatRunEvent → Type 0} (implies : (e : ChatRunEvent) → P e → Q e) where
  OnEvent-mono : (x : Effect) → OnEvent P x → OnEvent Q x
  OnEvent-mono (event e) h = implies e h
  OnEvent-mono (interruption code) h = tt
  OnEvent-mono sends_subscribe h = tt
  OnEvent-mono sends_unsubscribe h = tt
  OnEvent-mono closes_socket h = tt

  IsStep-mono : (f : Feed) (n : Feed × List Effect) → IsStep f P n → IsStep f Q n
  IsStep-mono f n (scope, run, told, ended) = (scope, run, All-mono OnEvent-mono n.1 told, ended)

module _ (f : Feed) (P : ChatRunEvent → Type 0) where
  IsStep-none : IsStep f P (f, [])
  IsStep-none = (refl, refl, tt, λ rest h q. h)

  interrupt-IsStep : (code : Text) → IsStep f P (interrupt code f)
  unfolding interrupt
  interrupt-IsStep code =
      if_rule (λ (n : Feed × List Effect). IsStep f P n) (is_over f) _ _ (λ _. IsStep-none)
        (λ _. (refl, refl, (tt, (tt, tt)), λ rest h q. (tt, q (or_true f.stopped))))

  emit-IsStep : (o : Option ChatRunEvent) → Read P o → IsStep f P (emit f o)
  unfolding emit
  emit-IsStep none h = interrupt-IsStep (text "CHAT_INVALID_STREAM")
  emit-IsStep (some e) h = (refl, refl, (h, tt), λ rest r q. r)

  branch-IsStep :
      (b : Bool) (x y : Feed × List Effect)
      → (b ≡ true → IsStep f P x)
      → (b ≡ false → IsStep f P y)
      → IsStep f P (if b then x else y)
  branch-IsStep true x y h k = h refl
  branch-IsStep false x y h k = k refl

Read-mono :
    {P Q : ChatRunEvent → Type 0} (o : Option ChatRunEvent)
    → ((e : ChatRunEvent) → P e → Q e)
    → Read P o
    → Read Q o
Read-mono none implies h = tt
Read-mono (some e) implies h = implies e h

module _ (f : Feed) where
  read_event-IsStep :
      (ms : Members)
      → Says (text "type") (text "event") ms
      → Says (text "event") (text "aiverse.gateway.run.event") ms
      → IsStep f (IsFrame f.scope f.run_id ms) (read_event f ms)
  unfolding read_event
  read_event-IsStep ms typed named =
      let payload = field (text "payload") ms in
      let seq = field (text "seq") ms in
      let told = IsFrame f.scope f.run_id ms in
      branch-IsStep f told _ (emit f (event_of f payload seq))
        (interrupt (text "CHAT_SCOPE_MISMATCH") f)
        (λ ours.
          let (sys, ws) = and_split (says (text "systemId") f.scope.system_id ms) _ ours in
          emit-IsStep f told (event_of f payload seq) (
            Read-mono (event_of f payload seq)
              (λ e (scope, run, read_). (
                scope,
                run,
                typed,
                named,
                says_sound (text "systemId") f.scope.system_id ms sys,
                says_sound (text "workspaceId") f.scope.workspace_id ms ws,
                read_,
              ))
              (event_of-Read f payload seq)))
        (λ _. interrupt-IsStep f told (text "CHAT_SCOPE_MISMATCH"))

  read-IsStep : (ms : Members) → IsStep f (IsFrame f.scope f.run_id ms) (read f ms)
  unfolding read is_run_event
  read-IsStep ms =
      let told = IsFrame f.scope f.run_id ms in
      branch-IsStep f told (is_denial ms) (interrupt (denial (field (text "error") ms)) f)
        (if is_run_event ms then read_event f ms else (f, []))
        (λ _. interrupt-IsStep f told (denial (field (text "error") ms)))
        (λ _.
          branch-IsStep f told (is_run_event ms) (read_event f ms) (f, [])
            (λ one.
              let (typed, named) = and_split (says (text "type") (text "event") ms) _ one in
              read_event-IsStep ms (says_sound (text "type") (text "event") ms typed)
                (says_sound (text "event") (text "aiverse.gateway.run.event") ms named))
            (λ _. IsStep-none f told))

  -- The event was read from a frame, the value of the message.
  abbrev IsOf : Option Json → ChatRunEvent → Type 0
  IsOf o e = (ms : Members) × (o ≡ some (object ms)) × IsFrame f.scope f.run_id ms e

  read_value-IsStep : (o : Option Json) → IsStep f (IsOf o) (read_value f o)
  unfolding read_value
  read_value-IsStep none = interrupt-IsStep f (IsOf none) (text "CHAT_INVALID_STREAM")
  read_value-IsStep (some null) = IsStep-none f (IsOf (some null))
  read_value-IsStep (some (boolean b)) = IsStep-none f (IsOf (some (boolean b)))
  read_value-IsStep (some (number n)) = IsStep-none f (IsOf (some (number n)))
  read_value-IsStep (some (other_number t)) = IsStep-none f (IsOf (some (other_number t)))
  read_value-IsStep (some (string t)) = IsStep-none f (IsOf (some (string t)))
  read_value-IsStep (some (array es)) = IsStep-none f (IsOf (some (array es)))
  read_value-IsStep (some (object ms)) =
      IsStep-mono (λ e h. (ms, refl, h)) f (read f ms) (read-IsStep ms)

module _ (parse : Text → Option Json) (f : Feed) where
  on_message-IsStep :
      (raw : Text)
      → IsStep f (IsFrom parse (message raw ∷ []) f.scope f.run_id) (on_message parse raw f)
  unfolding on_message
  on_message-IsStep raw =
      let told = IsFrom parse (message raw ∷ []) f.scope f.run_id in
      let large = interrupt (text "CHAT_INVALID_STREAM") f in
      branch-IsStep f told (is_over f) (f, [])
        (if ltb 131_072 (length raw) then large else read_value f (parse raw))
        (λ _. IsStep-none f told)
        (λ _.
          branch-IsStep f told (ltb 131_072 (length raw)) large (read_value f (parse raw))
            (λ _. interrupt-IsStep f told (text "CHAT_INVALID_STREAM"))
            (λ small.
              IsStep-mono (λ e h. (raw, Memᴰ.head refl, ground arith, h)) f
                (read_value f (parse raw)) (read_value-IsStep f (parse raw))))

  on_signal-IsStep :
      (s : Signal) → IsStep f (IsFrom parse (s ∷ []) f.scope f.run_id) (on_signal parse s f)
  unfolding on_signal
  on_signal-IsStep closes = interrupt-IsStep f _ (text "CHAT_STREAM_DISCONNECTED")
  on_signal-IsStep fails = interrupt-IsStep f _ (text "CHAT_STREAM_INTERRUPTED")
  on_signal-IsStep (message raw) = on_message-IsStep raw
  on_signal-IsStep opens = elim (Bool-cases f.stopped) [
    | inl e ↦ rw (on_signal, e) (refl, refl, tt, λ rest h q. h)
    | inr e ↦ rw (on_signal, e) (refl, refl, (tt, tt), λ rest h q. h)
  ]
  on_signal-IsStep (dispose true) = (refl, refl, (tt, (tt, tt)), λ rest h q. h)
  on_signal-IsStep (dispose false) = (refl, refl, (tt, tt), λ rest h q. h)

-- A feed that is over makes no callback.
interrupt-over : (code : Text) (f : Feed) → is_over f ≡ true → interrupt code f ≡ (f, [])
unfolding interrupt
interrupt-over code f e = rw e refl

on_signal-over :
    (parse : Text → Option Json) (s : Signal) (f : Feed)
    → is_over f ≡ true
    → (is_over (on_signal parse s f).0 ≡ true) × All IsNoCallback (on_signal parse s f).1
unfolding on_signal on_message
on_signal-over parse closes f e = rw (interrupt-over _ f e) (e, tt)
on_signal-over parse fails f e = rw (interrupt-over _ f e) (e, tt)
on_signal-over parse (message raw) f e = rw (on_message, e) (e, tt)
on_signal-over parse opens f e = elim (Bool-cases f.stopped) [
  | inl h ↦ rw (on_signal, h) (refl, tt)
  | inr h ↦ rw (on_signal, h) (rw h at e, (tt, tt))
]
on_signal-over parse (dispose true) f e = (refl, (tt, (tt, tt)))
on_signal-over parse (dispose false) f e = (refl, (tt, tt))

effects-over :
    (parse : Text → Option Json) (ss : List Signal) (f : Feed)
    → is_over f ≡ true
    → All IsNoCallback (effects parse ss f)
unfolding effects
effects-over parse [] f e = tt
effects-over parse (s ∷ ss) f e =
    let (over, silent) = on_signal-over parse s f e in
    All-append IsNoCallback (on_signal parse s f).1 _ silent
      (effects-over parse ss (on_signal parse s f).0 over)

module _ (parse : Text → Option Json) (s : Signal) (ss : List Signal) (scope : RequiredScope)
    (run_id : Text) where
  first-IsFrom :
      (e : ChatRunEvent)
      → IsFrom parse (s ∷ []) scope run_id e
      → IsFrom parse (s ∷ ss) scope run_id e
  first-IsFrom e (raw, m, small, rest) = (raw, Memᴰ.append_left ss m, small, rest)

  later-IsFrom :
      (e : ChatRunEvent) → IsFrom parse ss scope run_id e → IsFrom parse (s ∷ ss) scope run_id e
  later-IsFrom e (raw, m, small, rest) = (raw, Memᴰ.tail m, small, rest)

-- Whatever the socket brings, every event that a stream hands on names its scope and its run and was
-- read from a message of at most 131,072 units, whose JSON is an event frame that names that
-- system, that workspace and that run: its number is the frame's, from 1 on, its id and kind are
-- the payload's, and its text is missing as there or the first 8,192 units of the text there. An
-- interruption is told at most once, as the last callback.
pub effects_sound :
    (parse : Text → Option Json) (ss : List Signal) (f : Feed)
    → All (OnEvent (IsFrom parse ss f.scope f.run_id)) (effects parse ss f)
      × IsEnded (effects parse ss f)
unfolding effects
effects_sound parse [] f = (tt, tt)
effects_sound parse (s ∷ ss) f =
    let next = (on_signal parse s f).0 in
    let (scope, run, told, ended) = on_signal-IsStep parse f s in
    let (later, rest) = effects_sound parse ss next in
    let ours =
      subst (λ sc. All (OnEvent (IsFrom parse ss sc f.run_id)) (effects parse ss next)) scope
        (subst (λ r. All (OnEvent (IsFrom parse ss next.scope r)) (effects parse ss next)) run
          later) in
    (
      All-append (OnEvent (IsFrom parse (s ∷ ss) f.scope f.run_id)) (on_signal parse s f).1 _
          (All-mono (OnEvent-mono (first-IsFrom parse s ss f.scope f.run_id))
            (on_signal parse s f).1 told)
          (All-mono (OnEvent-mono (later-IsFrom parse s ss f.scope f.run_id))
            (effects parse ss next) ours),
      ended (effects parse ss next) rest (effects-over parse ss next),
    )
