-- ===== src/Live/Runs/Drawer.antt =====
-- The log drawer and the trace: bounds, and the line that a copy button copies.
use ai_verse_dashboard.Base.{
  ℕ, suc, ◌+◌, ◌≤◌, ◌≡◌, min, refl, ◌∙◌, subst, true, Option, some, List, [], ◌∷◌, ok, arith,
  length, get_elem?, take_last, select, length-take_last, length-select-le, length-map, All,
  All-mono, All-drop, All-select, All-select-true, ◌>>=◌, bind-ok, ok-injective, ◌-◌,
}
use ai_verse_dashboard.Base.Text.{Text}
use ai_verse_dashboard.Live.Timeline.{TimelineEntry, Kind}
use ai_verse_dashboard.Live.Sessions.{ChatSession, SessionStore, SessionFault, clamp}
use ai_verse_dashboard.Live.Sessions
use ai_verse_dashboard.Live.Runs.{
  TraceView, span_of, is_shown, is_error, limit_or, find_session, build_trace, LogLine, LogDrawer,
  DrawerOptions, drawer_buffer_max, line_text, number_from, keeps_line, build_log_drawer, drawer_of,
  trace_of, entry_at, body_of, copy_from, copy_log_line,
}

-- The line of an entry that stands behind `n` others.
abbrev IsLineOf : ℕ → List TimelineEntry → LogLine → Type 0
IsLineOf n es l =
    (e : TimelineEntry) × (i : ℕ) × (l.seq ≡ n + i + 1)
    × (get_elem? es i ≡ some e)
    × (l.line ≡ line_text e)

number_from-IsLineOf : (n : ℕ) (es : List TimelineEntry) → All (IsLineOf n es) (number_from n es)
unfolding number_from
number_from-IsLineOf n [] = tt
number_from-IsLineOf n (e ∷ es) = (
  (e, 0, omega arith, refl, refl),
  All-mono
      (λ l (found : IsLineOf (n + 1) es l).
        let (e', i, at, there, shown) = found in (e', suc i, omega arith, there, shown))
      (number_from (n + 1) es) (number_from-IsLineOf (n + 1) es),
)

-- The copy button of the line gives the body of the entry that the line shows.
abbrev pub IsCopied : Text → Text → SessionStore → LogLine → Type 0
IsCopied system_id session_id store l =
    (e : TimelineEntry) × (copy_log_line system_id session_id l.seq store ≡ ok e.body)
    × (l.line ≡ line_text e)

copied :
    (system_id session_id : Text) (store : SessionStore) (s : ChatSession)
    (entries : List TimelineEntry) (l : LogLine)
    → find_session system_id session_id store ≡ ok s
    → Sessions.history system_id session_id 500 store ≡ ok entries
    → IsLineOf 0 entries l
    → IsCopied system_id session_id store l
unfolding copy_log_line copy_from entry_at body_of
copied system_id session_id store s entries l found read (e, i, at, there, shown) =
    let seq : l.seq ≡ suc i = omega arith in (e, rw (found, read, seq, there) refl, shown)

shown :
    (lower : Text → Text) (system_id session_id : Text) (opts : DrawerOptions) (observed : Text)
    (store : SessionStore) (s : ChatSession) (entries : List TimelineEntry)
    → find_session system_id session_id store ≡ ok s
    → Sessions.history system_id session_id 500 store ≡ ok entries
    → let d = drawer_of lower system_id session_id opts observed entries in
      (length d.lines ≤ drawer_buffer_max)
      × (length d.lines ≤ d.total)
      × All (IsCopied system_id session_id store) d.lines
      × All (λ l. keeps_line lower opts l ≡ true) d.lines
unfolding drawer_of
shown lower system_id session_id opts observed store s entries found read =
    let numbered = number_from 0 entries in
    let lines = select (keeps_line lower opts) numbered in
    let limit = clamp (limit_or opts.limit 50) drawer_buffer_max in
    let n = length lines - limit in
    (
      omega (arith, length-take_last limit lines),
      omega (arith, length-take_last limit lines),
      All-drop (IsCopied system_id session_id store) n lines (
          All-select (IsCopied system_id session_id store) (keeps_line lower opts) numbered (
            All-mono (λ l. copied system_id session_id store s entries l found read) numbered
              (number_from-IsLineOf 0 entries))),
      All-drop (λ l. keeps_line lower opts l ≡ true) n lines
          (All-select-true (keeps_line lower opts) numbered),
    )

-- A drawer shows at most 200 lines, no more than match; each shown line passes the options' filters,
-- and to copy it by its number gives the whole body of the entry whose text it shows.
pub build_log_drawer_sound :
    (lower : Text → Text) (system_id session_id : Text) (opts : DrawerOptions) (observed : Text)
    (store : SessionStore) (drawer : LogDrawer)
    → build_log_drawer lower system_id session_id opts observed store ≡ ok drawer
    → (length drawer.lines ≤ drawer_buffer_max)
      × (length drawer.lines ≤ drawer.total)
      × All (IsCopied system_id session_id store) drawer.lines
      × All (λ l. keeps_line lower opts l ≡ true) drawer.lines
unfolding build_log_drawer
build_log_drawer_sound lower system_id session_id opts observed store drawer h =
    let read_all = Sessions.history system_id session_id 500 store in
    let show = drawer_of lower system_id session_id opts observed in
    let (s, found, h') =
      bind-ok (find_session system_id session_id store)
        (λ s. read_all >>= λ entries. ok (show entries)) drawer h in
    let (entries, read, h'') = bind-ok read_all (λ entries. ok (show entries)) drawer h' in
    subst
      (λ (d : LogDrawer).
        (length d.lines ≤ drawer_buffer_max)
        × (length d.lines ≤ d.total)
        × All (IsCopied system_id session_id store) d.lines
        × All (λ l. keeps_line lower opts l ≡ true) d.lines)
      (ok-injective (show entries) drawer h'')
      (shown lower system_id session_id opts observed store s entries found read)

shown_spans :
    (system_id session_id : Text) (limit : Option ℕ) (kinds : Option (List Kind)) (observed : Text)
    (s : ChatSession) (entries : List TimelineEntry)
    → let v = trace_of system_id session_id limit kinds observed s entries in
      (length v.spans ≡ min (clamp (limit_or limit 100) 500) v.total)
      × (v.errors ≤ v.total)
      × (v.total ≤ length entries)
unfolding trace_of
shown_spans system_id session_id limit kinds observed s entries =
    let traced = select (is_shown kinds) entries in
    let most = clamp (limit_or limit 100) 500 in
    (
      length-map span_of (take_last most traced) ∙ length-take_last most traced,
      length-select-le is_error traced,
      length-select-le (is_shown kinds) entries,
    )

-- A trace has as many spans as entries are traced, but no more than the limit, which is held between 1
-- and 500. There are no more errors than traced entries, and no more of these than entries in
-- the history of the session.
pub build_trace_sound :
    (system_id session_id : Text) (limit : Option ℕ) (kinds : Option (List Kind)) (observed : Text)
    (store : SessionStore) (view : TraceView)
    → build_trace system_id session_id limit kinds observed store ≡ ok view
    → (entries : List TimelineEntry) × (Sessions.history system_id session_id 500 store
        ≡ ok entries)
      × (length view.spans ≡ min (clamp (limit_or limit 100) 500) view.total)
      × (view.errors ≤ view.total)
      × (view.total ≤ length entries)
unfolding build_trace
build_trace_sound system_id session_id limit kinds observed store view h =
    let read_all = Sessions.history system_id session_id 500 store in
    let show = trace_of system_id session_id limit kinds observed in
    let (s, found, h') =
      bind-ok (find_session system_id session_id store)
        (λ s. read_all >>= λ entries. ok (show s entries)) view h in
    let (entries, read, h'') = bind-ok read_all (λ entries. ok (show s entries)) view h' in
    let (spans, errors, total) =
      subst
        (λ (v : TraceView).
          (length v.spans ≡ min (clamp (limit_or limit 100) 500) v.total)
          × (v.errors ≤ v.total)
          × (v.total ≤ length entries))
        (ok-injective (show s entries) view h'')
        (shown_spans system_id session_id limit kinds observed s entries) in
    (entries, read, spans, errors, total)
