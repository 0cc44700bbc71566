-- ===== src/Live/Sessions/Transcript.antt =====
-- What the transcript of a session holds after a call, and when a call is refused.
use ai_verse_dashboard.Base.{
  ℕ, ◌≡◌, ◌<◌, ◌-◌, ◌++◌, ◌∙◌, refl, Bool, false, Option, none, some, List, [], ◌∷◌, ok, err, arith,
  length, min, take_last, last?, last?-append, last?-drop, length-append, length-take_last,
}
use ai_verse_dashboard.Base.Text.{Text, ===_refl}
use ai_verse_dashboard.Base.Map.{lookup, insert, lookup-insert}
use ai_verse_dashboard.Live.Timeline.{RawEntry, TimelineEntry}
use ai_verse_dashboard.Live.Sessions.Cases.{append_cases}
use ai_verse_dashboard.Live.Sessions.{
  ChatSession, SessionStore, SessionFault, session_closed, Reply, key, get, append_to, append,
  with_entry, is_closed, history_of, history, clamp, set_status_of, set_status, abort, aborted,
}

lookup-insert_self :
    (k : Text) (s : ChatSession) (store : SessionStore)
    → lookup k (insert k s store.sessions) ≡ some s
lookup-insert_self k s store = rw (lookup-insert k k s, ===_refl k)

-- What a successful `append` has done to the session that it names.
pub record IsAppended (sys id : Text) (later : Text) (store : SessionStore)
    (r : Reply TimelineEntry) (e : TimelineEntry) : Type 0 where
  pub before : ChatSession
  pub found : get sys id store ≡ some before
  pub live : is_closed before.status ≡ false
  pub room : length before.entries < 500
  pub after : get sys id r.1 ≡ some (with_entry before e later)
  pub counter : r.1.counter ≡ store.counter

module _ (is_date : Text → Bool) (sys id : Text) (raw : RawEntry) (now later : Text)
    (store : SessionStore) where
  -- A successful `append` found an open session with fewer than 500 entries, and that session now
  -- ends with the entry that is returned.
  pub append-IsAppended :
      (e : TimelineEntry)
      → (append is_date sys id raw now later store).0 ≡ ok e
      → IsAppended sys id later store (append is_date sys id raw now later store) e
  unfolding get
  append-IsAppended e =
      append_cases is_date (λ r. r.0 ≡ ok e → IsAppended sys id later store r e) sys id raw now
        later store (λ f h. absurd (cc h))
        λ s e' found live room normal h.
          let same : e' ≡ e = cc h in
          rw same (record {
            before = s;
            found = found;
            live = live;
            room = room;
            after = lookup-insert_self (key sys id) (with_entry s e later) store;
            counter = refl;
          })

  -- An `append` that throws leaves the store as it was.
  pub append_failed :
      (f : SessionFault)
      → (append is_date sys id raw now later store).0 ≡ err f
      → (append is_date sys id raw now later store).1 ≡ store
  append_failed f =
      append_cases is_date (λ r. r.0 ≡ err f → r.1 ≡ store) sys id raw now later store
        (λ f' h. refl) λ s e found live room normal h. absurd (cc h)

-- The history of a session is its last entries, as many as asked for, at least 1 and at most 500.
pub history-suffix :
    (sys id : Text) (limit : ℕ) (store : SessionStore) (s : ChatSession)
    → get sys id store ≡ some s
    → (history sys id limit store ≡ ok (take_last (clamp limit 500) s.entries))
      × (length (take_last (clamp limit 500) s.entries) ≡ min (clamp limit 500) (length s.entries))
unfolding history get
history-suffix sys id limit store s found =
    (rw (found, history_of), length-take_last (clamp limit 500) s.entries)

last?-take_last :
    (n : ℕ) (xs : List TimelineEntry) → 0 < n → 0 < length xs → last? (take_last n xs) ≡ last? xs
last?-take_last n xs h k = last?-drop (length xs - n) xs (omega arith)

-- After a successful `append`, the history ends with the new entry whatever the limit.
pub history-append :
    (is_date : Text → Bool) (sys id : Text) (raw : RawEntry) (now later : Text) (limit : ℕ)
    (store : SessionStore) (e : TimelineEntry)
    → (append is_date sys id raw now later store).0 ≡ ok e
    → (h : List TimelineEntry) × (history sys id limit (append is_date sys id raw now later store).1
        ≡ ok h)
      × (last? h ≡ some e)
unfolding with_entry
history-append is_date sys id raw now later limit store e done =
    let a = append-IsAppended is_date sys id raw now later store e done in
    let s = with_entry a.before e later in
    let grown = a.before.entries ++ e ∷ [] in
    (
      take_last (clamp limit 500) grown,
      (history-suffix sys id limit (append is_date sys id raw now later store).1 s a.after).0,
      last?-take_last (clamp limit 500) grown (omega arith)
            (omega (arith, length-append a.before.entries (e ∷ [])))
          ∙ last?-append a.before.entries e,
    )

aborted_append :
    (is_date : Text → Bool) (k : Text) (o : Option ChatSession) (raw : RawEntry)
    (when now later : Text) (store : SessionStore) (s : ChatSession)
    → let r = set_status_of k o aborted when store in
      r.0 ≡ ok s
      → (append_to is_date k (lookup k r.1.sessions) raw now later r.1).0 ≡ err session_closed
unfolding set_status_of append_to is_closed
aborted_append is_date k none raw when now later store s h = absurd (cc h)
aborted_append is_date k (some t) raw when now later store s h =
    rw (lookup-insert_self k (record t { status = aborted; updated_at = when }) store)

-- A session that was aborted takes no further entry.
pub append-abort :
    (is_date : Text → Bool) (sys id : Text) (raw : RawEntry) (when now later : Text)
    (store : SessionStore) (s : ChatSession)
    → (abort sys id when store).0 ≡ ok s
    → (append is_date sys id raw now later (abort sys id when store).1).0 ≡ err session_closed
unfolding abort set_status append
append-abort is_date sys id raw when now later store s done =
    aborted_append is_date (key sys id) (lookup (key sys id) store.sessions) raw when now later
      store s done
