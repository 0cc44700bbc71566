-- ===== src/ReadModels/Work/Split.antt =====
-- The summary shows every item once, and items of its own scope only.
use mathlib.Core.List.{Perm, perm_middle, Memᴰ}
use mathlib.Core.List.Perm
use ai_verse_dashboard.Base.{
  ◌≡◌, ◌⊎◌, ◌↔◌, refl, sym, subst, inl, inr, arith, Bool-cases, Mem-select, select-Mem, All_of_Mem,
  Bool, true, false, List, [], ◌∷◌, ◌++◌, ok, all, All, select, if◌then◌else◌, checked-ok,
  and_split,
}
use ai_verse_dashboard.Base.Text.{Text, ◌===◌, ===_sound}
use ai_verse_dashboard.ReadModels.Work.{
  WorkStatus, WorkItem, WorkSummary, WorkFault, is_active, is_waiting, is_blocked, is_done,
  with_status, needs_attention, in_scope, summarize_work,
}

-- One of four tests is true.
OneOf : Bool → Bool → Bool → Bool → Type 0
OneOf true false false false = Unit
OneOf false true false false = Unit
OneOf false false true false = Unit
OneOf false false false true = Unit
OneOf _ _ _ _ = ⊥

status-OneOf : (s : WorkStatus) → OneOf (is_active s) (is_waiting s) (is_blocked s) (is_done s)
unfolding OneOf
status-OneOf WorkStatus.queued = tt
status-OneOf WorkStatus.running = tt
status-OneOf WorkStatus.waiting = tt
status-OneOf WorkStatus.blocked = tt
status-OneOf WorkStatus.succeeded = tt
status-OneOf WorkStatus.failed = tt
status-OneOf WorkStatus.cancelled = tt

module _ {A : Type 0} (x : A) (us vs ws_ zs xs : List A) where
  into : Bool → List A → List A
  into b ys = if b then x ∷ ys else ys

  into-perm :
      (a b c d : Bool)
      → OneOf a b c d
      → Perm (us ++ (vs ++ (ws_ ++ zs))) xs
      → Perm (into a us ++ (into b vs ++ (into c ws_ ++ into d zs))) (x ∷ xs)
  unfolding into OneOf
  into-perm true false false false one split = Perm.cons x split
  into-perm false true false false one split =
      Perm.trans (perm_middle us (vs ++ (ws_ ++ zs))) (Perm.cons x split)
  into-perm false false true false one split =
      Perm.trans (Perm.append (Perm.refl us) (perm_middle vs (ws_ ++ zs)))
        (Perm.trans (perm_middle us (vs ++ (ws_ ++ zs))) (Perm.cons x split))
  into-perm false false false true one split =
      Perm.trans (Perm.append (Perm.refl us) (Perm.append (Perm.refl vs) (perm_middle ws_ zs))) (
        Perm.trans (Perm.append (Perm.refl us) (perm_middle vs (ws_ ++ zs)))
          (Perm.trans (perm_middle us (vs ++ (ws_ ++ zs))) (Perm.cons x split)))
  into-perm _ _ _ _ one split = absurd one

split-perm :
    (items : List WorkItem)
    → Perm
        (with_status is_active items
          ++ (with_status is_waiting items
              ++ (with_status is_blocked items ++ with_status is_done items)))
        items
unfolding into
split-perm [] = Perm.refl []
split-perm (i ∷ items) =
    into-perm i (with_status is_active items) (with_status is_waiting items)
      (with_status is_blocked items) (with_status is_done items) items (is_active i.status)
      (is_waiting i.status) (is_blocked i.status) (is_done i.status) (status-OneOf i.status)
      (split-perm items)

abbrev pub IsScoped : Text → Text → WorkItem → Type 0
IsScoped system_id workspace_id i = (i.system_id ≡ system_id) × (i.workspace_id ≡ workspace_id)

all-IsScoped :
    (system_id workspace_id : Text) (items : List WorkItem)
    → all (in_scope system_id workspace_id) items ≡ true
    → All (IsScoped system_id workspace_id) items
all-IsScoped system_id workspace_id [] h = tt
all-IsScoped system_id workspace_id (i ∷ items) h =
    let (here, rest) = and_split (in_scope system_id workspace_id i) _ h in
    let (sys, ws) = and_split (i.system_id === system_id) _ here in
    (
      (===_sound i.system_id system_id sys, ===_sound i.workspace_id workspace_id ws),
      all-IsScoped system_id workspace_id items rest,
    )

-- What the attention list holds, told by the blocked column and the flags alone.
abbrev pub IsAttention : WorkSummary → List WorkItem → Type 0
IsAttention summary items =
    ((i : WorkItem)
      → Memᴰ i summary.attention
        ↔ (Memᴰ i summary.blocked ⊎ (Memᴰ i items × (i.attention_required ≡ true))))
    × All (λ i. Memᴰ i summary.attention ↔ (i.attention_required ≡ true)) summary.waiting

attention-Mem :
    (items : List WorkItem) (i : WorkItem)
    → Memᴰ i (select needs_attention items)
      ↔ (Memᴰ i (with_status is_blocked items) ⊎ (Memᴰ i items × (i.attention_required ≡ true)))
attention-Mem items i = (split_up, join_up)
  where
    split_up :
        Memᴰ i (select needs_attention items)
        → Memᴰ i (with_status is_blocked items) ⊎ (Memᴰ i items × (i.attention_required ≡ true))
    split_up m =
        let (there, needed) = Mem-select needs_attention i items m in
        elim (Bool-cases i.attention_required) [
          | inl flagged ↦ inr (there, flagged)
          | inr plain ↦
              inl (select-Mem (λ (j : WorkItem). is_blocked j.status) i items there (ground arith))
        ]

    join_up :
        Memᴰ i (with_status is_blocked items) ⊎ (Memᴰ i items × (i.attention_required ≡ true))
        → Memᴰ i (select needs_attention items)
    join_up (inl m) =
        let (there, blocked) = Mem-select (λ (j : WorkItem). is_blocked j.status) i items m in
        select-Mem needs_attention i items there (ground arith)
    join_up (inr h) = select-Mem needs_attention i items h.0 (ground arith)

waiting-not-blocked : (s : WorkStatus) → is_waiting s ≡ true → is_blocked s ≡ false
waiting-not-blocked WorkStatus.waiting h = refl
waiting-not-blocked WorkStatus.queued h = refl
waiting-not-blocked WorkStatus.running h = refl
waiting-not-blocked WorkStatus.blocked h = sym h
waiting-not-blocked WorkStatus.succeeded h = refl
waiting-not-blocked WorkStatus.failed h = sym h
waiting-not-blocked WorkStatus.cancelled h = refl

waiting-attention :
    (items : List WorkItem) (i : WorkItem)
    → Memᴰ i (with_status is_waiting items)
    → Memᴰ i (select needs_attention items) ↔ (i.attention_required ≡ true)
waiting-attention items i m =
    let (there, waits) = Mem-select (λ (j : WorkItem). is_waiting j.status) i items m in
    let free = waiting-not-blocked i.status waits in
    (
      λ listed. (let (_, needed) = Mem-select needs_attention i items listed in ground arith),
      λ flagged. select-Mem needs_attention i items there (ground arith),
    )

-- A summary is given for items of the system and the workspace only. Its four columns together hold
-- each item exactly once. Its attention list has the items of the blocked column and those that
-- ask for attention, and no others; a waiting item is on it only if it asks.
pub summarize_work_sound :
    (system_id workspace_id observed : Text) (items : List WorkItem) (summary : WorkSummary)
    → summarize_work system_id workspace_id observed items ≡ ok summary
    → All (IsScoped system_id workspace_id) items
      × Perm (summary.active ++ (summary.waiting ++ (summary.blocked ++ summary.done))) items
      × IsAttention summary items
unfolding summarize_work
summarize_work_sound system_id workspace_id observed items summary h =
    let (scoped, same) =
      checked-ok (all (in_scope system_id workspace_id) items) WorkFault.crossed _ summary h in
    let (split, attention) =
      subst
        (λ (s : WorkSummary).
          Perm (s.active ++ (s.waiting ++ (s.blocked ++ s.done))) items × IsAttention s items)
        same
        (
          split-perm items,
          (
            attention-Mem items,
            All_of_Mem (with_status is_waiting items) (waiting-attention items),
          ),
        ) in
    (all-IsScoped system_id workspace_id items scoped, split, attention)
