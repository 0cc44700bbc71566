-- ===== src/Live/Sessions/Views.antt =====
-- The listings of a system: only its own sessions and entries, in the order of their creation.
use mathlib.Core.List.{Perm}
use ai_verse_dashboard.Base.{
  ℕ, ◌≡◌, ◌≤◌, ◌-◌, Option, List, [], ◌∷◌, ◌∙◌, arith, All, All-mono, All-append, All-drop,
  All-select, map, select, length, length-take_last,
}
use ai_verse_dashboard.Base.Text.{Text}
use ai_verse_dashboard.Base.Text.Order.{before, before-IsOrder}
use ai_verse_dashboard.Base.Map.{values}
use ai_verse_dashboard.Base.Sort.{
  IsOrder, IsSorted, sort_by, sort_by-All, sort_by-IsSorted, sort_by-perm,
}
use ai_verse_dashboard.Live.Timeline.{TimelineEntry}
use ai_verse_dashboard.Live.Timeline.Laws.{IsNormal}
use ai_verse_dashboard.Live.Sessions.{
  ChatSession, SessionStore, in_scope, list, created_before, without_entries, includes, gather,
  entry_before, recent_entries, clamp, scope_of,
}
use ai_verse_dashboard.Live.Sessions.Invariant.{IsWellFormed}
use ai_verse_dashboard.Live.Sessions.Isolation.{OwnedBy, select-OwnedBy}

-- An order of texts is an order of what they are a field of.
before-field-IsOrder {ℓ} :
    {A : Type ℓ} (field : A → Text) → IsOrder (λ (a : A) b. before (field a) (field b))
before-field-IsOrder field = record {
  asym = λ x y. before-IsOrder.asym (field x) (field y);
  not_trans = λ x y z. before-IsOrder.not_trans (field x) (field y) (field z);
}

-- `list` gives exactly the sessions in scope, without their transcripts, the oldest first.
pub list_lem :
    (sys : Text) (ws : Option Text) (store : SessionStore)
    → IsSorted created_before (list sys ws store)
      × Perm
          (list sys ws store)
          (map without_entries (select (in_scope sys ws) (values store.sessions)))
unfolding list
list_lem sys ws store =
    let chosen = map without_entries (select (in_scope sys ws) (values store.sessions)) in
    (
      sort_by-IsSorted created_before (before-field-IsOrder (λ (s : ChatSession). s.created_at))
          chosen,
      sort_by-perm created_before chosen,
    )

abbrev OfSystem : Text → TimelineEntry → Type 0
OfSystem sys e = e.system_id ≡ sys

gather-OfSystem :
    (sys : Text) (kinds : Option (List Text)) (ss : List ChatSession)
    → All (OwnedBy sys) ss
    → All (OfSystem sys) (gather kinds ss)
unfolding gather
gather-OfSystem sys kinds [] h = tt
gather-OfSystem sys kinds (s ∷ ss) h =
    All-append (OfSystem sys) (select (includes kinds) s.entries) (gather kinds ss)
      (All-select (OfSystem sys) (includes kinds) s.entries
        (All-mono (λ e (n : IsNormal (scope_of s) e). n.system_id ∙ h.0.0) s.entries h.0.1))
      (gather-OfSystem sys kinds ss h.1)

-- The recent entries of a system in a well-formed store are its own, at most 200 of them.
pub recent_entries-isolates :
    (sys : Text) (ws : Option Text) (kinds : Option (List Text)) (limit : ℕ) (store : SessionStore)
    → IsWellFormed store
    → All (OfSystem sys) (recent_entries sys ws kinds limit store)
      × (length (recent_entries sys ws kinds limit store) ≤ 200)
unfolding recent_entries
recent_entries-isolates sys ws kinds limit store w =
    let all_entries = gather kinds (select (in_scope sys ws) (values store.sessions)) in
    let sorted = sort_by entry_before all_entries in
    (
      All-drop (OfSystem sys) (length sorted - clamp limit 200) sorted (
          sort_by-All entry_before (OfSystem sys) all_entries
            (gather-OfSystem sys kinds _ (select-OwnedBy sys ws store w))),
      omega (arith, length-take_last (clamp limit 200) sorted),
    )
