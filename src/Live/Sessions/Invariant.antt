-- ===== src/Live/Sessions/Invariant.antt =====
-- What every method of the store keeps: each session stands under its own key, its id holds no
-- colon, and its transcript is bounded and carries the session's scope.
use ai_verse_dashboard.Base.{
  ℕ, ◌≤◌, ◌+◌, ◌<◌, ◌≡◌, refl, Bool, ◌||◌, Option, none, some, [], ◌∷◌, ◌++◌, arith, length, All,
  All-append, length-append, length-take, inl, inr, Bool-cases, ◌==◌, ltb,
}
use ai_verse_dashboard.Base.Text.{Text, text, NoColon, NoColon-append}
use ai_verse_dashboard.Base.Decimal.{decimal, decimal-NoColon}
use ai_verse_dashboard.Base.Map.{lookup, has, All-insert, All-lookup}
use ai_verse_dashboard.Protocol.Ids.{is_record_id, is_record_id-NoColon}
use ai_verse_dashboard.Live.Timeline.{RawEntry, TimelineEntry}
use ai_verse_dashboard.Live.Timeline.Laws.{IsNormal, normalize_timeline_entry-IsNormal}
use ai_verse_dashboard.Live.Sessions.Cases.{append_cases}
use ai_verse_dashboard.Live.Sessions.{
  get, ChatSession, SessionStore, SessionStatus, CreateOptions, empty_store, key, new_session,
  title_of, create_as, create_with, create, append, with_entry, set_status_of, set_status, scope_of,
}

pub record IsKept (k : Text) (s : ChatSession) : Type 0 where
  pub at_key : k ≡ key s.system_id s.session_id
  pub plain : NoColon s.session_id
  pub title : length s.title ≤ 128
  pub bounded : length s.entries ≤ 500
  pub scoped : All (IsNormal (scope_of s)) s.entries

abbrev pub Kept : Text × ChatSession → Type 0
Kept e = IsKept e.0 e.1

pub record IsWellFormed (store : SessionStore) : Type 0 where
  pub kept : All Kept store.sessions

pub IsWellFormed-empty : IsWellFormed empty_store
IsWellFormed-empty = record { kept = tt }

title-bounded : (o : Option Text) (id : Text) → length (title_of o id) ≤ 128
unfolding title_of
title-bounded none id = omega (arith, length-take 128 id)
title-bounded (some t) id = omega (arith, length-take 128 t)

new_session-IsKept :
    (sys ws : Text) (opts : CreateOptions) (id now : Text)
    → NoColon id
    → IsKept (key sys id) (new_session sys ws opts id now)
unfolding new_session
new_session-IsKept sys ws opts id now h = record {
  at_key = refl;
  plain = h;
  title = title-bounded opts.title id;
  bounded = omega arith;
  scoped = tt;
}

create_as-IsWellFormed :
    (sys ws : Text) (opts : CreateOptions) (id now : Text) (store : SessionStore)
    → NoColon id
    → IsWellFormed store
    → IsWellFormed (create_as sys ws opts id now store).1
unfolding create_as
create_as-IsWellFormed sys ws opts id now store h w =
    elim (Bool-cases (has (key sys id) store.sessions)) [
      | inl taken ↦ rw taken w
      | inr fresh ↦ rw fresh (record {
        kept =
            All-insert Kept (key sys id) (new_session sys ws opts id now) store.sessions
              (new_session-IsKept sys ws opts id now h) w.kept;
      })
    ]

auto_id-NoColon : (n : ℕ) → NoColon (text "sess-" ++ decimal n)
unfolding text
auto_id-NoColon n = NoColon-append (text "sess-") (decimal n) (omega arith) (decimal-NoColon n)

create_with-IsWellFormed :
    (sys ws : Text) (opts : CreateOptions) (o : Option Text) (now : Text) (store : SessionStore)
    → IsWellFormed store
    → IsWellFormed (create_with sys ws opts o now store).1
unfolding create_with
create_with-IsWellFormed sys ws opts none now store w =
    create_as-IsWellFormed sys ws opts _ now (record store { counter = store.counter + 1 })
      (auto_id-NoColon (store.counter + 1)) (record { kept = w.kept })
create_with-IsWellFormed sys ws opts (some id) now store w = elim (Bool-cases (is_record_id id)) [
  | inl valid ↦
      rw valid (create_as-IsWellFormed sys ws opts id now store (is_record_id-NoColon id valid) w)
  | inr invalid ↦ rw invalid w
]

-- Whether it succeeds or fails, `create` keeps the store well formed: each session under its own key,
-- with a colon-free id, a title of at most 128 code units, and at most 500 entries, each normalised for
-- the scope of the session.
pub create-IsWellFormed :
    (sys ws : Text) (opts : CreateOptions) (now : Text) (store : SessionStore)
    → IsWellFormed store
    → IsWellFormed (create sys ws opts now store).1
unfolding create
create-IsWellFormed sys ws opts now store w =
    elim (Bool-cases (length sys == 0 || ltb 64 (length sys))) [
      | inl bad ↦ rw bad w
      | inr fine ↦ rw fine (create_with-IsWellFormed sys ws opts opts.session_id now store w)
    ]

with_entry-IsKept :
    (k : Text) (s : ChatSession) (e : TimelineEntry) (later : Text)
    → IsKept k s
    → length s.entries < 500
    → IsNormal (scope_of s) e
    → IsKept k (with_entry s e later)
unfolding with_entry
with_entry-IsKept k s e later h room normal = record {
  at_key = h.at_key;
  plain = h.plain;
  title = h.title;
  bounded = omega (arith, length-append s.entries (e ∷ []), room);
  scoped = All-append (IsNormal (scope_of s)) s.entries (e ∷ []) h.scoped (normal, tt);
}

-- Whether it succeeds or fails, `append` keeps a well-formed store well-formed.
pub append-IsWellFormed :
    (is_date : Text → Bool) (sys id : Text) (raw : RawEntry) (now later : Text)
    (store : SessionStore)
    → IsWellFormed store
    → IsWellFormed (append is_date sys id raw now later store).1
unfolding get
append-IsWellFormed is_date sys id raw now later store w =
    append_cases is_date (λ r. IsWellFormed r.1) sys id raw now later store (λ f. w)
      λ s e found live room normal.
        let normalised = normalize_timeline_entry-IsNormal is_date now (scope_of s) raw in
        record {
          kept =
              All-insert Kept (key sys id) (with_entry s e later) store.sessions
                (with_entry-IsKept (key sys id) s e later
                  (All-lookup Kept (key sys id) store.sessions s w.kept found) room
                  (rw normal at normalised))
                w.kept;
        }

set_status_of-IsWellFormed :
    (k : Text) (o : Option ChatSession) (status : SessionStatus) (now : Text) (store : SessionStore)
    → lookup k store.sessions ≡ o
    → IsWellFormed store
    → IsWellFormed (set_status_of k o status now store).1
unfolding set_status_of
set_status_of-IsWellFormed k none status now store found w = w
set_status_of-IsWellFormed k (some s) status now store found w =
    let h = All-lookup Kept k store.sessions s w.kept found in
    record {
      kept =
          All-insert Kept k (record s { status = status; updated_at = now }) store.sessions
            (record {
              at_key = h.at_key;
              plain = h.plain;
              title = h.title;
              bounded = h.bounded;
              scoped = h.scoped;
            })
            w.kept;
    }

pub set_status-IsWellFormed :
    (sys id : Text) (status : SessionStatus) (now : Text) (store : SessionStore)
    → IsWellFormed store
    → IsWellFormed (set_status sys id status now store).1
unfolding set_status
set_status-IsWellFormed sys id status now store w =
    set_status_of-IsWellFormed (key sys id) _ status now store refl w
