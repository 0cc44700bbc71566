-- ===== src/Live/Sessions/Isolation.antt =====
-- Calls of one system never see or change the sessions of another.
use mathlib.Core.List.{append_assoc}
use ai_verse_dashboard.Base.{
  ◌≡◌, ◌≢◌, refl, ◌==◌, ◌||◌, ltb, length-append, sym, ◌∙◌, Bool, true, false, Option, none, some,
  List, [], ◌∷◌, ◌++◌, arith, All, All-mono, All-select, inl, inr, ◌+◌, ◌<◌, Option-cases,
  find_sound, All-both, All-select-true, and_split, select, find, length,
}
use ai_verse_dashboard.Base.Text.{
  Text, NoColon, colon, ◌===◌, ===_sound, ===_ne, ===_refl, colon_cancel_right,
}
use ai_verse_dashboard.Base.Map.{
  Map, lookup, insert, values, has, All-lookup, All-values, lookup-insert,
}
use ai_verse_dashboard.Protocol.Ids.{is_record_id}
use ai_verse_dashboard.Live.Timeline.{RawEntry, TimelineEntry}
use ai_verse_dashboard.Live.Timeline.Laws.{IsNormal}
use ai_verse_dashboard.Live.Sessions.Cases.{append_cases}
use ai_verse_dashboard.Live.Sessions.{
  ChatSession, SessionStore, SessionStatus, CreateOptions, key, get, append, set_status_of,
  set_status, create_with, create, find_in, find_entry, in_scope, Found, scope_of, with_entry,
  Reply, empty_store, new_session,
}
use ai_verse_dashboard.Live.Sessions.Invariant.{Kept, IsWellFormed}

-- Two keys are the same only for the same system and session, if the session ids hold no colon.
pub key-injective :
    (a b : Text) {s t : Text} → NoColon s → NoColon t → key a s ≡ key b t → (a ≡ b) × (s ≡ t)
unfolding key
key-injective a b hs ht e = colon_cancel_right a b hs ht e

-- A session that is read from a well-formed store by an id without a colon belongs to the
-- system, and has the id, that were asked for.
pub get-isolates :
    (sys id : Text) (store : SessionStore) (s : ChatSession)
    → IsWellFormed store
    → NoColon id
    → get sys id store ≡ some s
    → (s.system_id ≡ sys) × (s.session_id ≡ id)
unfolding get
get-isolates sys id store s w plain found =
    let h = All-lookup Kept (key sys id) store.sessions s w.kept found in
    key-injective s.system_id sys h.plain plain (sym h.at_key)

-- A call for the key `k` leaves every other key as it was.
abbrev ChangesOnly : {A : Type 0} → Text → SessionStore → Reply A → Type 0
ChangesOnly k store r = (j : Text) → k ≢ j → lookup j r.1.sessions ≡ lookup j store.sessions

insert-frame :
    (k : Text) (s : ChatSession) (m : Map ChatSession) (j : Text)
    → k ≢ j
    → lookup j (insert k s m) ≡ lookup j m
insert-frame k s m j ne = rw (lookup-insert k j s m, ===_ne k j ne)

append-frame :
    (is_date : Text → Bool) (sys id : Text) (raw : RawEntry) (now later : Text)
    (store : SessionStore)
    → ChangesOnly (key sys id) store (append is_date sys id raw now later store)
append-frame is_date sys id raw now later store =
    append_cases is_date (ChangesOnly (key sys id) store) sys id raw now later store
      (λ f j ne. refl)
      λ s e found live room normal j ne.
        insert-frame (key sys id) (with_entry s e later) store.sessions j ne

-- Whatever is appended to a session of one system, a session of another system is read as
-- before, where both session ids hold no colon.
pub get-append_ne :
    (is_date : Text → Bool) (sys id sys' id' : Text) (raw : RawEntry) (now later : Text)
    (store : SessionStore)
    → NoColon id
    → NoColon id'
    → sys ≢ sys'
    → get sys' id' (append is_date sys id raw now later store).1 ≡ get sys' id' store
unfolding get
get-append_ne is_date sys id sys' id' raw now later store p q ne =
    append-frame is_date sys id raw now later store (key sys' id')
      λ e. ne (key-injective sys sys' p q e).0

set_status_of-frame :
    (k : Text) (o : Option ChatSession) (status : SessionStatus) (now : Text) (store : SessionStore)
    → ChangesOnly k store (set_status_of k o status now store)
unfolding set_status_of
set_status_of-frame k none status now store j ne = refl
set_status_of-frame k (some s) status now store j ne =
    insert-frame k (record s { status = status; updated_at = now }) store.sessions j ne

-- A change of status of a session of one system, an abort included, leaves what another system
-- reads as it was.
pub get-set_status_ne :
    (sys id sys' id' : Text) (status : SessionStatus) (now : Text) (store : SessionStore)
    → NoColon id
    → NoColon id'
    → sys ≢ sys'
    → get sys' id' (set_status sys id status now store).1 ≡ get sys' id' store
unfolding get set_status
get-set_status_ne sys id sys' id' status now store p q ne =
    set_status_of-frame (key sys id) (lookup (key sys id) store.sessions) status now store
      (key sys' id') λ e. ne (key-injective sys sys' p q e).0

abbrev pub OwnedBy : Text → ChatSession → Type 0
OwnedBy sys s = (s.system_id ≡ sys) × All (IsNormal (scope_of s)) s.entries

find_in-isolates :
    (sys entry_id : Text) (ss : List ChatSession) (f : Found)
    → All (OwnedBy sys) ss
    → find_in entry_id ss ≡ some f
    → (f.entry.system_id ≡ sys) × (f.entry.session_id ≡ f.session_id) × (f.entry.id ≡ entry_id)
unfolding find_in
find_in-isolates sys entry_id [] f h e = cc
find_in-isolates sys entry_id (s ∷ ss) f h e =
    elim (Option-cases (find (λ (x : TimelineEntry). x.id === entry_id) s.entries)) [
      | inl miss ↦ find_in-isolates sys entry_id ss f h.1 (rw (miss, find_in) at e)
      | inr (x, hit) ↦
          let (normal, same) =
            find_sound (IsNormal (scope_of s)) (λ x. x.id === entry_id) s.entries x h.0.1 hit in
          let found : record { entry = x; session_id = s.session_id } ≡ f = ground arith in
          rw (← found) (normal.system_id ∙ h.0.0, normal.session_id, ===_sound x.id entry_id same)
    ]

pub in_scope-system :
    (sys : Text) (ws : Option Text) (s : ChatSession) → in_scope sys ws s ≡ true → s.system_id ≡ sys
unfolding in_scope
in_scope-system sys none s h = ===_sound s.system_id sys h
in_scope-system sys (some w) s h = ===_sound s.system_id sys (and_split (s.system_id === sys) _ h).0

-- The sessions that a scope selects belong to its system.
pub select-OwnedBy :
    (sys : Text) (ws : Option Text) (store : SessionStore)
    → IsWellFormed store
    → All (OwnedBy sys) (select (in_scope sys ws) (values store.sessions))
select-OwnedBy sys ws store w =
    let scoped = λ (s : ChatSession). All (IsNormal (scope_of s)) s.entries in
    let all_scoped =
      All-values scoped store.sessions (All-mono (λ e h. h.scoped) store.sessions w.kept) in
    All-both (λ (s : ChatSession). s.system_id ≡ sys) scoped
      (select (in_scope sys ws) (values store.sessions))
      (All-mono (λ s. in_scope-system sys ws s) _
        (All-select-true (in_scope sys ws) (values store.sessions)))
      (All-select scoped (in_scope sys ws) (values store.sessions) all_scoped)

-- An entry that is found by its id in a well-formed store belongs to the system that asked and
-- to the session that is named beside it, and has that id.
pub find_entry-isolates :
    (sys entry_id : Text) (store : SessionStore) (f : Found)
    → IsWellFormed store
    → find_entry sys entry_id store ≡ some f
    → (f.entry.system_id ≡ sys) × (f.entry.session_id ≡ f.session_id) × (f.entry.id ≡ entry_id)
unfolding find_entry in_scope
find_entry-isolates sys entry_id store f w e =
    find_in-isolates sys entry_id (select (in_scope sys none) (values store.sessions)) f
      (select-OwnedBy sys none store w) e

key-colon : (a b id : Text) → key (a ++ colon ∷ b) id ≡ key a (b ++ colon ∷ id)
unfolding key
key-colon a b id = append_assoc a (colon ∷ b) (colon ∷ id)

-- With a colon in the session id the keys of two systems can meet: a session with a valid id
-- that one system creates in an empty store, another system, whose name is in front of a colon
-- in that of the first, reads.
pub get_crosses_systems :
    (a b id ws : Text) (opts : CreateOptions) (now : Text)
    → length a + length b < 64
    → is_record_id id ≡ true
    → opts.session_id ≡ some id
    → (s : ChatSession) × (get a
          (b ++ colon ∷ id)
          (create (a ++ colon ∷ b) ws opts now empty_store).1
        ≡ some s)
      × (s.system_id ≡ a ++ colon ∷ b)
unfolding get create new_session lookup insert has
get_crosses_systems a b id ws opts now short valid given =
    let fits : (length (a ++ colon ∷ b) == 0 || ltb 64 (length (a ++ colon ∷ b))) ≡ false =
      ground (arith, length-append a (colon ∷ b)) in
    (
      new_session (a ++ colon ∷ b) ws opts id now,
      rw (fits, given, create_with, valid, key-colon a b id, ===_refl (key a (b ++ colon ∷ id))),
      refl,
    )
