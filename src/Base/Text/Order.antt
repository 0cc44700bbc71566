-- ===== src/Base/Text/Order.antt =====
-- `<` on strings: by the first code units that differ.
use Prim.Native.Nat.{ℕ}
use mathlib.Core.Path.{◌≡◌, refl}
use mathlib.Core.Bool.{Bool, true, false, ◌&&◌, ◌||◌}
use mathlib.Core.List.{List, [], ◌∷◌}
use native.Mathlib.Omega.{arith}
use ai_verse_dashboard.Base.Tests.{◌==◌, ltb}
use ai_verse_dashboard.Base.Sort.{IsOrder}

unfoldable pub before : List ℕ → List ℕ → Bool
before s [] = false
before [] (d ∷ t) = true
before (c ∷ s) (d ∷ t) = ltb c d || (c == d && before s t)

before_asym : (s t : List ℕ) → before s t ≡ true → before t s ≡ false
unfolding before
before_asym [] [] h = cc
before_asym (c ∷ s) [] h = cc
before_asym [] (d ∷ t) h = refl
before_asym (c ∷ s) (d ∷ t) h = ground (arith, before_asym s t)

before_not_trans : (s t u : List ℕ) → before t s ≡ false → before u t ≡ false → before u s ≡ false
unfolding before
before_not_trans [] t [] h k = refl
before_not_trans [] t (e ∷ u) h k = refl
before_not_trans (c ∷ s) [] u h k = cc
before_not_trans (c ∷ s) (d ∷ t) [] h k = cc
before_not_trans (c ∷ s) (d ∷ t) (e ∷ u) h k = ground (arith, before_not_trans s t u)

pub before-IsOrder : IsOrder before
before-IsOrder = record { asym = before_asym; not_trans = before_not_trans }
