-- ===== src/Live/Examples.antt =====
-- Runs of the session store on small inputs, and the theorems about it at these inputs.
use ai_verse_dashboard.Base.{
  ◌≡◌, refl, Bool, false, none, some, List, [], ◌∷◌, ◌++◌, ok, arith, last?,
}
use ai_verse_dashboard.Base.Text.{Text, text, colon, ◌===◌}
use ai_verse_dashboard.Base.Decimal.{decimal}
use ai_verse_dashboard.Base.Map.{lookup, insert, values, has}
use ai_verse_dashboard.Protocol.Ids.{is_record_id}
use ai_verse_dashboard.Live.Timeline.{
  Value, str, RawRef, RawEntry, TimelineEntry, message, agent, kind_among, role_of,
  normalize_timeline_entry,
}
use ai_verse_dashboard.Live.Sessions.{
  ChatSession, SessionStore, CreateOptions, empty_store, create, get, append, history, abort, idle,
  list, find_entry, new_session,
}
use ai_verse_dashboard.Live.Sessions.Invariant.{
  IsWellFormed, IsWellFormed-empty, create-IsWellFormed, append-IsWellFormed,
}
use ai_verse_dashboard.Live.Sessions.Isolation.{
  get-isolates, find_entry-isolates, get_crosses_systems,
}
use ai_verse_dashboard.Live.Sessions.Transcript.{IsAppended, append-IsAppended, history-append}

run : Unit {0}
unfolding create get append history abort list find_entry text values decimal lookup insert has
    is_record_id kind_among role_of normalize_timeline_entry ◌===◌
run = tt

abbrev os_a : Text
os_a = 97 ∷ []

abbrev os_b : Text
os_b = 98 ∷ []

abbrev s1 : Text
s1 = 115 ∷ 49 ∷ []

abbrev main : Text
main = 109 ∷ []

abbrev t0 : Text
t0 = 48 ∷ []

abbrev named : CreateOptions
named = record { title = none; provider = none; model = none; session_id = some s1 }

abbrev one : SessionStore
one = (create os_a main named t0 empty_store).1

abbrev hello : RawEntry
hello = record {
  id = str (101 ∷ 49 ∷ []);
  kind = Value.undefined;
  role = str (text "agent");
  body = str (104 ∷ 105 ∷ []);
  ref = RawRef.undefined;
  created_at = Value.undefined;
}

abbrev entry : TimelineEntry
entry = record {
  id = 101 ∷ 49 ∷ [];
  kind = message;
  role = agent;
  system_id = os_a;
  workspace_id = main;
  session_id = s1;
  body = 104 ∷ 105 ∷ [];
  ref = none;
  created_at = t0;
}

abbrev never : Text → Bool
never s = false

abbrev two : SessionStore
two = (append never os_a s1 hello t0 t0 one).1

hello_is_accepted : (append never os_a s1 hello t0 t0 one).0 ≡ ok entry
unfolding run
hello_is_accepted = refl

auto_id :
    (create os_a main (record named { session_id = none }) t0 empty_store).0
    ≡ ok (new_session os_a main (record named { session_id = none }) (text "sess-1") t0)
unfolding run
auto_id = refl

one-IsWellFormed : IsWellFormed one
one-IsWellFormed = create-IsWellFormed os_a main named t0 empty_store IsWellFormed-empty

two-IsWellFormed : IsWellFormed two
two-IsWellFormed = append-IsWellFormed never os_a s1 hello t0 t0 one one-IsWellFormed

create-IsWellFormed_example : IsWellFormed (create os_a main named t0 one).1
create-IsWellFormed_example = create-IsWellFormed os_a main named t0 one one-IsWellFormed

append-IsWellFormed_example : IsWellFormed (append never os_a s1 hello t0 t0 one).1
append-IsWellFormed_example = append-IsWellFormed never os_a s1 hello t0 t0 one one-IsWellFormed

get-isolates_example : (os_a ≡ os_a) × (s1 ≡ s1)
unfolding run
get-isolates_example =
    get-isolates os_a s1 one (new_session os_a main named s1 t0) one-IsWellFormed (omega arith) refl

find_entry-isolates_example : (os_a ≡ os_a) × (s1 ≡ s1) × (entry.id ≡ 101 ∷ 49 ∷ [])
unfolding run
find_entry-isolates_example =
    find_entry-isolates os_a (101 ∷ 49 ∷ []) two (record { entry = entry; session_id = s1 })
      two-IsWellFormed refl

get_crosses_systems_example :
    (s : ChatSession) × (get os_a
        (os_b ++ colon ∷ s1)
        (create (os_a ++ colon ∷ os_b) main named t0 empty_store).1
      ≡ some s)
    × (s.system_id ≡ os_a ++ colon ∷ os_b)
unfolding run
get_crosses_systems_example = get_crosses_systems os_a os_b s1 main named t0 (omega arith) refl refl

append-IsAppended_example : IsAppended os_a s1 t0 one (append never os_a s1 hello t0 t0 one) entry
append-IsAppended_example = append-IsAppended never os_a s1 hello t0 t0 one entry hello_is_accepted

history-append_example :
    (h : List TimelineEntry) × (history os_a s1 3 (append never os_a s1 hello t0 t0 one).1 ≡ ok h)
    × (last? h ≡ some entry)
history-append_example = history-append never os_a s1 hello t0 t0 3 one entry hello_is_accepted

list_one : list os_a none two ≡ record (new_session os_a main named s1 t0) { status = idle } ∷ []
unfolding run
list_one = refl
