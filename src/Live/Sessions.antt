-- ===== src/Live/Sessions.antt =====
-- packages/live/src/sessions.ts: the session store. A method that throws returns the error beside
-- the state that it left. `now` and `later` are the readings of the clock, as ISO texts. A `limit`
-- is a whole number; a negative one is clamped like 0.
mod Cases
pub mod Invariant
pub mod Isolation
pub mod Transcript
pub mod Views
use ai_verse_dashboard.Base.{
  ℕ, ◌+◌, ◌≡◌, Bool, true, false, ◌&&◌, ◌||◌, not, Option, none, some, List, [], ◌∷◌, ◌++◌, map,
  Outcome, ok, err, ltb, leb, ◌==◌, min, max, length, take, take_last, select, find, any,
  if◌then◌else◌,
}
use ai_verse_dashboard.Base.Text
use ai_verse_dashboard.Base.Text.{Text, text, ◌===◌, colon}
use ai_verse_dashboard.Base.Text.Order.{before}
use ai_verse_dashboard.Base.Decimal.{decimal}
use ai_verse_dashboard.Base.Map.{Map, lookup, insert, values, has}
use ai_verse_dashboard.Base.Sort.{sort_by}
use ai_verse_dashboard.Protocol.Ids.{is_record_id}
use ai_verse_dashboard.Live.Timeline.{
  Value, str, Kind, Role, user, agent, system, kind_name, RawEntry, Scope, TimelineEntry,
  TimelineFault, normalize_timeline_entry,
}

pub data SessionStatus : Type 0 where
  active idle working waiting blocked done aborted : SessionStatus

pub record ChatSession : Type 0 where
  pub session_id : Text
  pub system_id : Text
  pub workspace_id : Text
  pub title : Text
  pub status : SessionStatus
  pub provider : Option Text
  pub model : Option Text
  pub entries : List TimelineEntry
  pub created_at : Text
  pub updated_at : Text

pub data SessionFault : Type 0 where
  session_not_found session_closed invalid_id limit_exceeded : SessionFault
  bad_entry : TimelineFault → SessionFault

abbrev pub max_entries : ℕ
max_entries = 500

abbrev pub max_body : ℕ
max_body = 8192

pub record SessionStore : Type 0 where
  pub sessions : Map ChatSession
  pub counter : ℕ

abbrev pub empty_store : SessionStore
empty_store = record { sessions = []; counter = 0 }

-- `${systemId}:${sessionId}`
unfoldable pub key : Text → Text → Text
key system_id session_id = system_id ++ colon ∷ session_id

pub record CreateOptions : Type 0 where
  pub title : Option Text
  pub provider : Option Text
  pub model : Option Text
  pub session_id : Option Text

-- `value ? value.slice(0, 64) : absent`, where an empty string counts as absent.
short : Option Text → Option Text
short none = none
short (some []) = none
short (some (c ∷ s)) = some (take 64 (c ∷ s))

title_of : Option Text → Text → Text
title_of none session_id = take 128 session_id
title_of (some title) session_id = take 128 title

unfoldable pub new_session : Text → Text → CreateOptions → Text → Text → ChatSession
unfolding short title_of
new_session system_id workspace_id opts session_id now = record {
  session_id = session_id;
  system_id = system_id;
  workspace_id = workspace_id;
  title = title_of opts.title session_id;
  status = active;
  provider = short opts.provider;
  model = short opts.model;
  entries = [];
  created_at = now;
  updated_at = now;
}

abbrev pub Reply : Type 0 → Type 0
Reply A = Outcome SessionFault A × SessionStore

-- The part of `create` behind the choice of the id.
unfoldable pub create_as :
    Text → Text → CreateOptions → Text → Text → SessionStore → Reply ChatSession
unfolding key new_session has
create_as system_id workspace_id opts session_id now store =
    let session = new_session system_id workspace_id opts session_id now in
    if has (key system_id session_id) store.sessions then (err limit_exceeded, store) else (
      ok session,
      record store { sessions = insert (key system_id session_id) session store.sessions },
    )

create_with : Text → Text → CreateOptions → Option Text → Text → SessionStore → Reply ChatSession
unfolding create_as
create_with system_id workspace_id opts (some session_id) now store =
    if not (is_record_id session_id)
    then (err invalid_id, store)
    else create_as system_id workspace_id opts session_id now store
create_with system_id workspace_id opts none now store =
    let n = store.counter + 1 in
    create_as system_id workspace_id opts (text "sess-" ++ decimal n) now
      (record store { counter = n })

unfoldable pub create : Text → Text → CreateOptions → Text → SessionStore → Reply ChatSession
unfolding create_with
create system_id workspace_id opts now store =
    if length system_id == 0 || ltb 64 (length system_id)
    then (err invalid_id, store)
    else create_with system_id workspace_id opts opts.session_id now store

unfoldable pub get : Text → Text → SessionStore → Option ChatSession
unfolding key
get system_id session_id store = lookup (key system_id session_id) store.sessions

unfoldable pub in_scope : Text → Option Text → ChatSession → Bool
in_scope system_id none s = s.system_id === system_id
in_scope system_id (some workspace_id) s =
    s.system_id === system_id && s.workspace_id === workspace_id

abbrev pub created_before : ChatSession → ChatSession → Bool
created_before a b = before a.created_at b.created_at

abbrev pub without_entries : ChatSession → ChatSession
without_entries s = record s { entries = [] }

unfoldable pub list : Text → Option Text → SessionStore → List ChatSession
unfolding in_scope sort_by
list system_id workspace_id store =
    sort_by created_before
      (map without_entries (select (in_scope system_id workspace_id) (values store.sessions)))

unfoldable pub is_closed : SessionStatus → Bool
is_closed done = true
is_closed aborted = true
is_closed _ = false

too_long : Value → Bool
too_long (str s) = ltb max_body (length s)
too_long _ = false

-- The status that an entry of that role leaves.
unfoldable pub status_after : Role → SessionStatus → SessionStatus
status_after agent status = idle
status_after user status = working
status_after system status = status

abbrev pub scope_of : ChatSession → Scope
scope_of s = record {
  system_id = s.system_id;
  workspace_id = s.workspace_id;
  session_id = s.session_id;
}

unfoldable pub with_entry : ChatSession → TimelineEntry → Text → ChatSession
unfolding status_after
with_entry s entry later = record s {
  entries = s.entries ++ entry ∷ [];
  updated_at = later;
  status = status_after entry.role s.status;
}

module _ (is_date : Text → Bool) where
  append_normal :
      Text
      → ChatSession
      → Outcome TimelineFault TimelineEntry
      → Text
      → SessionStore
      → Reply TimelineEntry
  unfolding with_entry
  append_normal k s (err e) later store = (err (bad_entry e), store)
  append_normal k s (ok entry) later store =
      (ok entry, record store { sessions = insert k (with_entry s entry later) store.sessions })

  append_to :
      Text → Option ChatSession → RawEntry → Text → Text → SessionStore → Reply TimelineEntry
  unfolding is_closed too_long append_normal
  append_to k none raw now later store = (err session_not_found, store)
  append_to k (some s) raw now later store =
      if is_closed s.status
      then (err session_closed, store)
      else if leb max_entries (length s.entries)
      then (err limit_exceeded, store)
      else if too_long raw.body
      then (err limit_exceeded, store)
      else append_normal k s (normalize_timeline_entry is_date now (scope_of s) raw) later store

  unfoldable pub append : Text → Text → RawEntry → Text → Text → SessionStore → Reply TimelineEntry
  unfolding key append_to
  append system_id session_id raw now later store =
      append_to (key system_id session_id) (lookup (key system_id session_id) store.sessions) raw
        now later store

abbrev pub clamp : ℕ → ℕ → ℕ
clamp limit most = max 1 (min limit most)

history_of : Option ChatSession → ℕ → Outcome SessionFault (List TimelineEntry)
history_of none limit = err session_not_found
history_of (some s) limit = ok (take_last (clamp limit max_entries) s.entries)

unfoldable pub history : Text → Text → ℕ → SessionStore → Outcome SessionFault (List TimelineEntry)
unfolding key history_of
history system_id session_id limit store =
    history_of (lookup (key system_id session_id) store.sessions) limit

set_status_of : Text → Option ChatSession → SessionStatus → Text → SessionStore → Reply ChatSession
set_status_of k none status now store = (err session_not_found, store)
set_status_of k (some s) status now store =
    let s' = record s { status = status; updated_at = now } in
    (ok s', record store { sessions = insert k s' store.sessions })

unfoldable pub set_status : Text → Text → SessionStatus → Text → SessionStore → Reply ChatSession
unfolding key set_status_of
set_status system_id session_id status now store =
    set_status_of (key system_id session_id) (lookup (key system_id session_id) store.sessions)
      status now store

unfoldable pub abort : Text → Text → Text → SessionStore → Reply ChatSession
unfolding set_status
abort system_id session_id now store = set_status system_id session_id aborted now store

pub record Summary : Type 0 where
  pub session_id : Text
  pub title : Text
  pub status : SessionStatus
  pub provider : Option Text
  pub model : Option Text
  pub workspace_id : Text
  pub entry_count : ℕ
  pub created_at : Text
  pub updated_at : Text

non_empty : Option Text → Option Text
non_empty (some []) = none
non_empty o = o

unfoldable pub summary : ChatSession → Summary
unfolding non_empty
summary s = record {
  session_id = s.session_id;
  title = s.title;
  status = s.status;
  provider = non_empty s.provider;
  model = non_empty s.model;
  workspace_id = s.workspace_id;
  entry_count = length s.entries;
  created_at = s.created_at;
  updated_at = s.updated_at;
}

abbrev pub summarised_before : Summary → Summary → Bool
summarised_before a b = before a.created_at b.created_at

unfoldable pub summaries : Text → Option Text → SessionStore → List Summary
unfolding in_scope summary sort_by
summaries system_id workspace_id store =
    sort_by summarised_before
      (map summary (select (in_scope system_id workspace_id) (values store.sessions)))

unfoldable pub includes : Option (List Text) → TimelineEntry → Bool
unfolding kind_name
includes none e = true
includes (some kinds) e = any (λ name. name === kind_name e.kind) kinds

gather : Option (List Text) → List ChatSession → List TimelineEntry
unfolding includes
gather kinds [] = []
gather kinds (s ∷ ss) = select (includes kinds) s.entries ++ gather kinds ss

abbrev pub entry_before : TimelineEntry → TimelineEntry → Bool
entry_before a b = before a.created_at b.created_at

-- `limit` is `opts?.limit ?? 50`.
unfoldable pub recent_entries :
    Text → Option Text → Option (List Text) → ℕ → SessionStore → List TimelineEntry
unfolding in_scope gather sort_by
recent_entries system_id workspace_id kinds limit store = take_last (clamp limit 200) (
    sort_by entry_before
      (gather kinds (select (in_scope system_id workspace_id) (values store.sessions))))

pub record Found : Type 0 where
  pub entry : TimelineEntry
  pub session_id : Text

find_in : Text → List ChatSession → Option Found
find_in entry_id [] = none
find_in entry_id (s ∷ ss) = elim (find (λ (e : TimelineEntry). e.id === entry_id) s.entries) [
  | some entry ↦ some (record { entry = entry; session_id = s.session_id })
  | none ↦ find_in entry_id ss
]

unfoldable pub find_entry : Text → Text → SessionStore → Option Found
unfolding in_scope find_in
find_entry system_id entry_id store =
    find_in entry_id (select (in_scope system_id none) (values store.sessions))
