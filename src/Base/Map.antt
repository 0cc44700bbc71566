-- ===== src/Base/Map.antt =====
-- `Map<string, V>`: an association list in insertion order. `set` on a key that is there keeps its
-- place, `delete` takes the key away.
use mathlib.Core.Path.{◌≡◌, refl}
use mathlib.Core.Logic.{◌≢◌, ◌⊎◌, inl, inr}
use mathlib.Core.Bool.{Bool, true, false}
use mathlib.Core.Option.{Option, none, some}
use mathlib.Core.List.{List, [], ◌∷◌}
use native.Mathlib.Omega.{arith}
use ai_verse_dashboard.Base.Tests.{if◌then◌else◌, Bool-cases}
use ai_verse_dashboard.Base.Lists.{All}
use ai_verse_dashboard.Base.Text.{Text, ◌===◌, ===_iff, ===_sound, ===_refl, ===_ne}

abbrev pub Map {ℓ} : Type ℓ → Type ℓ
Map V = List (Text × V)

module _ {ℓ} {V : Type ℓ} where
  unfoldable pub lookup : Text → Map V → Option V
  lookup k [] = none
  lookup k ((j, v) ∷ m) = if j === k then some v else lookup k m

  unfoldable pub insert : Text → V → Map V → Map V
  insert k v [] = (k, v) ∷ []
  insert k v ((j, w) ∷ m) = if j === k then (j, v) ∷ m else (j, w) ∷ insert k v m

  unfoldable pub remove : Text → Map V → Map V
  remove k [] = []
  remove k ((j, w) ∷ m) = if j === k then remove k m else (j, w) ∷ remove k m

  unfoldable pub values : Map V → List V
  values [] = []
  values ((j, w) ∷ m) = w ∷ values m

  -- `m.has(k)`
  unfoldable pub has : Text → Map V → Bool
  unfolding lookup
  has k m = elim (lookup k m) [ none ↦ false | some _ ↦ true ]

  pub lookup-insert :
      (k j : Text) (v : V) (m : Map V)
      → lookup j (insert k v m) ≡ (if k === j then some v else lookup j m)
  unfolding lookup insert
  lookup-insert k j v [] = refl
  lookup-insert k j v ((i, w) ∷ m) =
      ground (arith, ===_iff k j, ===_iff i k, ===_iff i j, lookup-insert k j v m)

  pub lookup-remove :
      (k j : Text) (m : Map V) → lookup j (remove k m) ≡ (if k === j then none else lookup j m)
  unfolding lookup remove
  lookup-remove k j [] = ground arith
  lookup-remove k j ((i, w) ∷ m) =
      ground (arith, ===_iff k j, ===_iff i k, ===_iff i j, lookup-remove k j m)

  pub lookup-insert_same : (k : Text) (v : V) (m : Map V) → lookup k (insert k v m) ≡ some v
  lookup-insert_same k v m = rw (lookup-insert k k v m, ===_refl k)

  pub lookup-insert_ne :
      (k j : Text) (v : V) (m : Map V) → k ≢ j → lookup j (insert k v m) ≡ lookup j m
  lookup-insert_ne k j v m ne = rw (lookup-insert k j v m, ===_ne k j ne)

  pub lookup-remove_ne : (k j : Text) (m : Map V) → k ≢ j → lookup j (remove k m) ≡ lookup j m
  lookup-remove_ne k j m ne = rw (lookup-remove k j m, ===_ne k j ne)

  -- What a lookup finds behind an insertion is the new value, or was there.
  pub insert-cases :
      (k j : Text) (v w : V) (m : Map V)
      → lookup j (insert k v m) ≡ some w
      → ((k ≡ j) × (v ≡ w)) ⊎ ((k ≢ j) × (lookup j m ≡ some w))
  insert-cases k j v w m h = elim (Bool-cases (k === j)) [
    | inl e ↦ inl (===_sound k j e, ground (arith, lookup-insert k j v m))
    | inr e ↦ inr (λ same. ground (arith, ===_iff k j), ground (arith, lookup-insert k j v m))
  ]

  pub remove-cases :
      (k j : Text) (w : V) (m : Map V)
      → lookup j (remove k m) ≡ some w
      → (k ≢ j) × (lookup j m ≡ some w)
  remove-cases k j w m h = elim (Bool-cases (k === j)) [
    | inl e ↦ absurd (ground (arith, lookup-remove k j m))
    | inr e ↦ (λ same. ground (arith, ===_iff k j), ground (arith, lookup-remove k j m))
  ]

  pub has-lookup : (k : Text) (m : Map V) → has k m ≡ false → lookup k m ≡ none
  unfolding has
  has-lookup k m h = ground arith

  module _ {κ} (P : Text × V → Type κ) where
    pub All-insert : (k : Text) (v : V) (m : Map V) → P (k, v) → All P m → All P (insert k v m)
    unfolding insert
    All-insert k v [] p h = (p, tt)
    All-insert k v ((j, w) ∷ m) p h = elim (Bool-cases (j === k)) [
      | inl e ↦ rw e (rw (===_sound j k e) p, h.1)
      | inr e ↦ rw e (h.0, All-insert k v m p h.1)
    ]

    pub All-remove : (k : Text) (m : Map V) → All P m → All P (remove k m)
    unfolding remove
    All-remove k [] h = tt
    All-remove k ((j, w) ∷ m) h = elim (Bool-cases (j === k)) [
      | inl e ↦ rw e (All-remove k m h.1)
      | inr e ↦ rw e (h.0, All-remove k m h.1)
    ]

    -- What holds of every entry holds of the one that a lookup finds.
    pub All-lookup : (k : Text) (m : Map V) (v : V) → All P m → lookup k m ≡ some v → P (k, v)
    unfolding lookup
    All-lookup k [] v h e = cc
    All-lookup k ((j, w) ∷ m) v h e = elim (Bool-cases (j === k)) [
      | inl same ↦ rw (← ===_sound j k same) (subst_head same)
      | inr other ↦ All-lookup k m v h.1 (ground arith)
    ]
      where
        subst_head : (j === k) ≡ true → P (j, v)
        subst_head same = let q : w ≡ v = ground arith in rw (← q) h.0

module _ {ℓ κ} {V : Type ℓ} (Q : V → Type κ) where
  pub All-values : (m : Map V) → All (λ e. Q e.1) m → All Q (values m)
  unfolding values
  All-values [] h = tt
  All-values ((k, v) ∷ m) h = (h.0, All-values m h.1)

pub ruleset map_laws = (lookup-insert, lookup-remove)
