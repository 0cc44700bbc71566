-- ===== src/Base/Sort.antt =====
-- `Array.prototype.sort` with a comparison function, as the insertion of each item behind those
-- that it is not before.
use mathlib.Core.Path.{◌≡◌}
use mathlib.Core.Logic.{inl, inr}
use mathlib.Core.Bool.{Bool, true, false}
use mathlib.Core.List.{List, [], ◌∷◌, ◌++◌, Perm, append-nil, perm_middle}
use mathlib.Core.List.Perm
use ai_verse_dashboard.Base.Tests.{if◌then◌else◌, Bool-cases}
use ai_verse_dashboard.Base.Lists.{All, All-mono}

-- What makes a comparison `lt` a strict weak order.
pub record IsOrder {ℓ} {A : Type ℓ} (lt : A → A → Bool) : Type ℓ where
  pub asym : (x y : A) → lt x y ≡ true → lt y x ≡ false
  pub not_trans : (x y z : A) → lt y x ≡ false → lt z y ≡ false → lt z x ≡ false

module _ {ℓ} {A : Type ℓ} (lt : A → A → Bool) where
  insert_by : A → List A → List A
  insert_by x [] = x ∷ []
  insert_by x (y ∷ ys) = if lt x y then x ∷ y ∷ ys else y ∷ insert_by x ys

  sort_from : List A → List A → List A
  sort_from acc [] = acc
  sort_from acc (x ∷ xs) = sort_from (insert_by x acc) xs

  unfoldable pub sort_by : List A → List A
  unfolding insert_by sort_from
  sort_by xs = sort_from [] xs

  -- No item is before an item that stands in front of it.
  abbrev pub IsSorted : List A → Type ℓ
  IsSorted [] = Unit
  IsSorted (x ∷ xs) = All (λ y. lt y x ≡ false) xs × IsSorted xs

  insert_by-perm : (x : A) (ys : List A) → Perm (insert_by x ys) (x ∷ ys)
  unfolding insert_by
  insert_by-perm x [] = Perm.refl (x ∷ [])
  insert_by-perm x (y ∷ ys) = elim (Bool-cases (lt x y)) [
    | inl e ↦ rw e (Perm.refl (x ∷ y ∷ ys))
    | inr e ↦ rw e (Perm.trans (Perm.cons y (insert_by-perm x ys)) (Perm.swap x y ys))
  ]

  sort_from-perm : (acc xs : List A) → Perm (sort_from acc xs) (acc ++ xs)
  unfolding sort_from
  sort_from-perm acc [] = rw append-nil (Perm.refl acc)
  sort_from-perm acc (x ∷ xs) = Perm.trans (sort_from-perm (insert_by x acc) xs) (
      Perm.trans (Perm.append (insert_by-perm x acc) (Perm.refl xs))
        (Perm.symm (perm_middle acc xs)))

  -- Sorting keeps the items, each as often.
  pub sort_by-perm : (xs : List A) → Perm (sort_by xs) xs
  unfolding sort_by
  sort_by-perm xs = sort_from-perm [] xs

  module _ {κ} (P : A → Type κ) where
    insert_by-All : (x : A) (ys : List A) → P x → All P ys → All P (insert_by x ys)
    unfolding insert_by
    insert_by-All x [] p h = (p, tt)
    insert_by-All x (y ∷ ys) p h = elim (Bool-cases (lt x y)) [
      | inl e ↦ rw e (p, (h.0, h.1))
      | inr e ↦ rw e (h.0, insert_by-All x ys p h.1)
    ]

    sort_from-All : (acc xs : List A) → All P acc → All P xs → All P (sort_from acc xs)
    unfolding sort_from
    sort_from-All acc [] h k = h
    sort_from-All acc (x ∷ xs) h k =
        sort_from-All (insert_by x acc) xs (insert_by-All x acc k.0 h) k.1

    pub sort_by-All : (xs : List A) → All P xs → All P (sort_by xs)
    unfolding sort_by
    sort_by-All xs h = sort_from-All [] xs tt h

  module _ (order : IsOrder lt) where
    insert_by-IsSorted : (x : A) (ys : List A) → IsSorted ys → IsSorted (insert_by x ys)
    unfolding insert_by
    insert_by-IsSorted x [] h = (tt, tt)
    insert_by-IsSorted x (y ∷ ys) h = elim (Bool-cases (lt x y)) [
      | inl e ↦ rw e (
        (order.asym x y e, All-mono (λ z k. order.not_trans x y z (order.asym x y e) k) ys h.0),
        (h.0, h.1),
      )
      | inr e ↦ rw e (insert_by-All (λ z. lt z y ≡ false) x ys e h.0, insert_by-IsSorted x ys h.1)
    ]

    sort_from-IsSorted : (acc xs : List A) → IsSorted acc → IsSorted (sort_from acc xs)
    unfolding sort_from
    sort_from-IsSorted acc [] h = h
    sort_from-IsSorted acc (x ∷ xs) h =
        sort_from-IsSorted (insert_by x acc) xs (insert_by-IsSorted x acc h)

    pub sort_by-IsSorted : (xs : List A) → IsSorted (sort_by xs)
    unfolding sort_by
    sort_by-IsSorted xs = sort_from-IsSorted [] xs tt
