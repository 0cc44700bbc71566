-- ===== src/ReadModels/Inbox/Order.antt =====
-- The order in which the inbox shows its items.
use mathlib.Core.List.{Perm}
use ai_verse_dashboard.Base.{
  ℕ, ◌≡◌, ◌≤◌, ◌<◌, ◌⊎◌, true, false, List, [], ◌∷◌, ltb, ◌==◌, arith, if◌then◌else◌, All, All-mono,
}
use ai_verse_dashboard.Base.Text.{Text}
use ai_verse_dashboard.Base.Sort.{IsOrder, IsSorted, sort_by, sort_by-perm, sort_by-IsSorted}
use ai_verse_dashboard.ReadModels.Inbox.{InboxItem, severity_rank, more_urgent, sort_inbox}

module _ (time_of : Text → ℕ) where
  -- `x` may stand before `y`: it is more severe, or as severe and not younger.
  abbrev pub MayPrecede : InboxItem → InboxItem → Type 0
  MayPrecede x y =
      (severity_rank x.severity < severity_rank y.severity)
      ⊎ ((severity_rank x.severity ≡ severity_rank y.severity)
          × (time_of x.created_at ≤ time_of y.created_at))

  abbrev pub IsInOrder : List InboxItem → Type 0
  IsInOrder [] = Unit {0}
  IsInOrder (x ∷ xs) = All (MayPrecede x) xs × IsInOrder xs

  rank_asym :
      (r s m n : ℕ)
      → (if r == s then ltb m n else ltb r s) ≡ true
      → (if s == r then ltb n m else ltb s r) ≡ false
  rank_asym r s m n h = ground arith

  rank_not_trans :
      (r s t m n k : ℕ)
      → (if s == r then ltb n m else ltb s r) ≡ false
      → (if t == s then ltb k n else ltb t s) ≡ false
      → (if t == r then ltb k m else ltb t r) ≡ false
  rank_not_trans r s t m n k h h' = ground arith

  more_urgent-IsOrder : IsOrder (more_urgent time_of)
  unfolding more_urgent
  more_urgent-IsOrder = record {
    asym = λ x y h. rank_asym (severity_rank x.severity) (severity_rank y.severity) _ _ h;
    not_trans = λ x y z h k.
        rank_not_trans (severity_rank x.severity) (severity_rank y.severity)
          (severity_rank z.severity) _ _ _ h k;
  }

  rank_may :
      (r s m n : ℕ) → (if s == r then ltb n m else ltb s r) ≡ false → (r < s) ⊎ ((r ≡ s) × (m ≤ n))
  rank_may r s m n h = ground arith

  in_order : (xs : List InboxItem) → IsSorted (more_urgent time_of) xs → IsInOrder xs
  unfolding more_urgent
  in_order [] h = tt
  in_order (x ∷ xs) h = (
    All-mono
        (λ y k.
          rank_may (severity_rank x.severity) (severity_rank y.severity) (time_of x.created_at)
            (time_of y.created_at) k)
        xs h.0,
    in_order xs h.1,
  )

  -- The sorted inbox holds the items given, each as often, and of two of them the more severe
  -- stands first, of two as severe one that is not younger.
  pub sort_inbox_sound :
      (items : List InboxItem)
      → Perm (sort_inbox time_of items) items × IsInOrder (sort_inbox time_of items)
  unfolding sort_inbox
  sort_inbox_sound items = (
    sort_by-perm (more_urgent time_of) items,
    in_order (sort_by (more_urgent time_of) items)
        (sort_by-IsSorted (more_urgent time_of) more_urgent-IsOrder items),
  )
