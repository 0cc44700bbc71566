-- ===== src/Client/Feed/Frames.antt =====
-- packages/client/src/gateway-event-feed.ts: which frame an event is read from.
use ai_verse_dashboard.Base.{
  ℕ, ◌≤◌, ◌≡◌, refl, ap, true, ◌&&◌, Option, none, some, arith, and_split, leb, leb→le, take,
  if_rule,
}
use ai_verse_dashboard.Base.Text.{Text, text, ===_sound}
use ai_verse_dashboard.Protocol.Json.{
  Json, object, null, boolean, number, other_number, string, array, Members,
}
use ai_verse_dashboard.Protocol.Fields.{field}
use ai_verse_dashboard.Client.Runs.{RequiredScope, is_filled}
use ai_verse_dashboard.Client.Chat.Stream.{ChatRunEvent}
use ai_verse_dashboard.Client.Feed.{
  Feed, is_text_of, says, filled_text, optional_text, seq_of, made, event_of,
}

-- The field `name` is the text `value`.
abbrev pub Says : Text → Text → Members → Type 0
Says name value ms = field name ms ≡ some (string value)

-- The text of an event: missing as in the payload, or its first 8,192 units.
abbrev pub IsCut : Option Json → Option Text → Type 0
IsCut o none = o ≡ none
IsCut o (some s) = (whole : Text) × (o ≡ some (string whole)) × (s ≡ take 8192 whole)

-- The payload and the number that an event of the run was read from.
abbrev pub IsPayload : Text → Option Json → Option Json → ChatRunEvent → Type 0
IsPayload run_id payload seq e =
    (p : Members) × (payload ≡ some (object p))
    × Says (text "runId") run_id p
    × Says (text "eventId") e.event_id p
    × Says (text "kind") e.kind p
    × IsCut (field (text "text") p) e.content
    × (seq ≡ some (number e.seq))
    × (1 ≤ e.seq)

-- The event names that scope and run, and it was read from the frame, which names them too.
abbrev pub IsFrame : RequiredScope → Text → Members → ChatRunEvent → Type 0
IsFrame scope run_id ms e =
    (e.scope ≡ scope)
    × (e.run_id ≡ run_id)
    × Says (text "type") (text "event") ms
    × Says (text "event") (text "aiverse.gateway.run.event") ms
    × Says (text "systemId") scope.system_id ms
    × Says (text "workspaceId") scope.workspace_id ms
    × IsPayload run_id (field (text "payload") ms) (field (text "seq") ms) e

is_text_of_sound :
    (value : Text) (o : Option Json) → is_text_of value o ≡ true → o ≡ some (string value)
unfolding is_text_of
is_text_of_sound value none h = absurd (ground arith)
is_text_of_sound value (some null) h = absurd (ground arith)
is_text_of_sound value (some (boolean b)) h = absurd (ground arith)
is_text_of_sound value (some (number n)) h = absurd (ground arith)
is_text_of_sound value (some (other_number t)) h = absurd (ground arith)
is_text_of_sound value (some (array es)) h = absurd (ground arith)
is_text_of_sound value (some (object ms)) h = absurd (ground arith)
is_text_of_sound value (some (string s)) h = ap (λ t. some (string t)) (===_sound s value h)

pub says_sound : (name value : Text) (ms : Members) → says name value ms ≡ true → Says name value ms
unfolding says
says_sound name value ms h = is_text_of_sound value (field name ms) h

-- What is read from a field, if anything is.
abbrev pub Read : {A : Type 0} → (A → Type 0) → Option A → Type 0
Read P none = Unit {0}
Read P (some a) = P a

filled_text-Read : (o : Option Json) → Read (λ t. o ≡ some (string t)) (filled_text o)
unfolding filled_text
filled_text-Read none = tt
filled_text-Read (some null) = tt
filled_text-Read (some (boolean b)) = tt
filled_text-Read (some (number n)) = tt
filled_text-Read (some (other_number t)) = tt
filled_text-Read (some (array es)) = tt
filled_text-Read (some (object ms)) = tt
filled_text-Read (some (string s)) =
    if_rule (λ (r : Option Text). Read (λ t. some (string s) ≡ some (string t)) r) (is_filled s)
      (some s) none (λ _. refl) (λ _. tt)

optional_text-Read : (o : Option Json) → Read (IsCut o) (optional_text o)
unfolding optional_text
optional_text-Read none = refl
optional_text-Read (some null) = tt
optional_text-Read (some (boolean b)) = tt
optional_text-Read (some (number n)) = tt
optional_text-Read (some (other_number t)) = tt
optional_text-Read (some (array es)) = tt
optional_text-Read (some (object ms)) = tt
optional_text-Read (some (string s)) = (s, refl, refl)

seq_of-Read : (o : Option Json) → Read (λ n. (o ≡ some (number n)) × (1 ≤ n)) (seq_of o)
unfolding seq_of
seq_of-Read none = tt
seq_of-Read (some null) = tt
seq_of-Read (some (boolean b)) = tt
seq_of-Read (some (other_number t)) = tt
seq_of-Read (some (string s)) = tt
seq_of-Read (some (array es)) = tt
seq_of-Read (some (object ms)) = tt
seq_of-Read (some (number n)) =
    if_rule (λ (r : Option ℕ). Read (λ m. (some (number n) ≡ some (number m)) × (1 ≤ m)) r)
      (leb 1 n && leb n 9_007_199_254_740_991) (some n) none
      (λ e. (refl, leb→le 1 n (and_split (leb 1 n) _ e).0)) (λ _. tt)

-- An event that is read is of the feed's scope and run.
abbrev pub IsReadFrom : Feed → Option Json → Option Json → ChatRunEvent → Type 0
IsReadFrom f payload seq e =
    (e.scope ≡ f.scope) × (e.run_id ≡ f.run_id) × IsPayload f.run_id payload seq e

made-Read :
    (f : Feed) (p : Members) (seq : Option Json) (id kind : Option Text)
    (content : Option (Option Text)) (n : Option ℕ)
    → Says (text "runId") f.run_id p
    → Read (λ t. Says (text "eventId") t p) id
    → Read (λ t. Says (text "kind") t p) kind
    → Read (IsCut (field (text "text") p)) content
    → Read (λ m. (seq ≡ some (number m)) × (1 ≤ m)) n
    → Read (IsReadFrom f (some (object p)) seq) (made f id kind content n)
unfolding made
made-Read f p seq none kind content n r a b c d = tt
made-Read f p seq (some id) none content n r a b c d = tt
made-Read f p seq (some id) (some kind) none n r a b c d = tt
made-Read f p seq (some id) (some kind) (some t) none r a b c d = tt
made-Read f p seq (some id) (some kind) (some t) (some m) r a b c d =
    (refl, refl, (p, refl, r, a, b, c, d.0, d.1))

pub event_of-Read :
    (f : Feed) (payload seq : Option Json)
    → Read (IsReadFrom f payload seq) (event_of f payload seq)
unfolding event_of
event_of-Read f none seq = tt
event_of-Read f (some null) seq = tt
event_of-Read f (some (boolean b)) seq = tt
event_of-Read f (some (number n)) seq = tt
event_of-Read f (some (other_number t)) seq = tt
event_of-Read f (some (string t)) seq = tt
event_of-Read f (some (array es)) seq = tt
event_of-Read f (some (object p)) seq =
    if_rule (λ (o : Option ChatRunEvent). Read (IsReadFrom f (some (object p)) seq) o)
      (says (text "runId") f.run_id p) _ none
      (λ e.
        made-Read f p seq _ _ (optional_text (field (text "text") p)) (seq_of seq)
          (says_sound (text "runId") f.run_id p e) (filled_text-Read (field (text "eventId") p))
          (filled_text-Read (field (text "kind") p)) (optional_text-Read (field (text "text") p))
          (seq_of-Read seq))
      (λ _. tt)
