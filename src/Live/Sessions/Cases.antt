-- ===== src/Live/Sessions/Cases.antt =====
-- The ways in which `append` ends, each with what is known there.
use ai_verse_dashboard.Base.{
  ◌≡◌, ◌<◌, refl, Bool, false, Option, none, some, ok, err, arith, length, inl, inr, Bool-cases,
  leb, Outcome,
}
use ai_verse_dashboard.Base.Text.{Text}
use ai_verse_dashboard.Base.Map.{lookup, insert}
use ai_verse_dashboard.Live.Timeline.{
  RawEntry, TimelineEntry, TimelineFault, normalize_timeline_entry,
}
use ai_verse_dashboard.Live.Sessions.{
  ChatSession, SessionStore, SessionFault, Reply, key, get, append_normal, append_to, append,
  with_entry, is_closed, too_long, scope_of,
}

module _ {ℓ} (is_date : Text → Bool) (P : Reply TimelineEntry → Type ℓ) where
  append_normal_cases :
      (k : Text) (s : ChatSession) (r : Outcome TimelineFault TimelineEntry) (later : Text)
      (store : SessionStore)
      → ((f : SessionFault) → P (err f, store))
      → ((e : TimelineEntry)
          → r ≡ ok e
          → P (ok e, record store { sessions = insert k (with_entry s e later) store.sessions }))
      → P (append_normal is_date k s r later store)
  unfolding append_normal
  append_normal_cases k s (err e) later store failed done = failed _
  append_normal_cases k s (ok e) later store failed done = done e refl

  append_to_cases :
      (k : Text) (o : Option ChatSession) (raw : RawEntry) (now later : Text) (store : SessionStore)
      → ((f : SessionFault) → P (err f, store))
      → ((s : ChatSession) (e : TimelineEntry)
          → o ≡ some s
          → is_closed s.status ≡ false
          → length s.entries < 500
          → normalize_timeline_entry is_date now (scope_of s) raw ≡ ok e
          → P (ok e, record store { sessions = insert k (with_entry s e later) store.sessions }))
      → P (append_to is_date k o raw now later store)
  unfolding append_to
  append_to_cases k none raw now later store failed done = failed _
  append_to_cases k (some s) raw now later store failed done =
      elim (Bool-cases (is_closed s.status)) [
        | inl closed ↦ rw closed (failed _)
        | inr live ↦ rw live (elim (Bool-cases (leb 500 (length s.entries))) [
          | inl full ↦ rw full (failed _)
          | inr room ↦ rw room (elim (Bool-cases (too_long raw.body)) [
            | inl long ↦ rw long (failed _)
            | inr short ↦ rw short (
                append_normal_cases k s (normalize_timeline_entry is_date now (scope_of s) raw)
                  later store failed (λ e normal. done s e refl live (ground arith) normal))
          ])
        ])
      ]

  -- A call either fails and leaves the store, or finds an open session with room and adds the
  -- normalised entry to it.
  pub append_cases :
      (sys id : Text) (raw : RawEntry) (now later : Text) (store : SessionStore)
      → ((f : SessionFault) → P (err f, store))
      → ((s : ChatSession) (e : TimelineEntry)
          → get sys id store ≡ some s
          → is_closed s.status ≡ false
          → length s.entries < 500
          → normalize_timeline_entry is_date now (scope_of s) raw ≡ ok e
          → P (
            ok e,
            record store { sessions = insert (key sys id) (with_entry s e later) store.sessions },
          ))
      → P (append is_date sys id raw now later store)
  unfolding append get
  append_cases sys id raw now later store failed done =
      append_to_cases (key sys id) (lookup (key sys id) store.sessions) raw now later store failed
        done
