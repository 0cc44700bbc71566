-- ===== src/Base/Lists.antt =====
-- Lists measured and cut by native numbers, filters by Boolean tests, and predicates on every item.
use Prim.Native.Nat.{ℕ, zero, suc, ◌+◌, ◌-◌, ◌≤◌, ◌<◌, min}
use mathlib.Core.Path.{◌≡◌, refl, ap, ◌∙◌}
use mathlib.Core.Logic.{inl, inr}
use mathlib.Core.Bool.{Bool, true, false, ◌&&◌, ◌||◌}
use mathlib.Core.Option.{Option, none, some}
use mathlib.Core.List.Memᴰ
use mathlib.Core.List.{List, [], ◌∷◌, ◌++◌, map, Memᴰ}
use native.Mathlib.Omega.{arith}
use ai_verse_dashboard.Base.Tests.{if◌then◌else◌, Bool-cases}

module _ {ℓ} {A : Type ℓ} where
  abbrev pub length : List A → ℕ
  length [] = 0
  length (x ∷ xs) = suc (length xs)

  abbrev pub get_elem? : List A → ℕ → Option A
  get_elem? [] i = none
  get_elem? (x ∷ xs) zero = some x
  get_elem? (x ∷ xs) (suc i) = get_elem? xs i

  abbrev pub take : ℕ → List A → List A
  take zero xs = []
  take (suc n) [] = []
  take (suc n) (x ∷ xs) = x ∷ take n xs

  abbrev pub drop : ℕ → List A → List A
  drop zero xs = xs
  drop (suc n) [] = []
  drop (suc n) (x ∷ xs) = drop n xs

  -- `xs.slice(-n)` for 0 < n.
  abbrev pub take_last : ℕ → List A → List A
  take_last n xs = drop (length xs - n) xs

  -- `xs.filter(p)`
  abbrev pub select : (A → Bool) → List A → List A
  select p [] = []
  select p (x ∷ xs) = if p x then x ∷ select p xs else select p xs

  -- `xs.find(p)`
  abbrev pub find : (A → Bool) → List A → Option A
  find p [] = none
  find p (x ∷ xs) = if p x then some x else find p xs

  abbrev pub all : (A → Bool) → List A → Bool
  all p [] = true
  all p (x ∷ xs) = p x && all p xs

  abbrev pub any : (A → Bool) → List A → Bool
  any p [] = false
  any p (x ∷ xs) = p x || any p xs

  abbrev pub All {κ} : (A → Type κ) → List A → Type κ
  All P [] = Unit
  All P (x ∷ xs) = P x × All P xs

  abbrev pub last? : List A → Option A
  last? [] = none
  last? (x ∷ []) = some x
  last? (x ∷ y ∷ xs) = last? (y ∷ xs)

module _ {ℓ} {A : Type ℓ} where
  pub length-append : (xs ys : List A) → length (xs ++ ys) ≡ length xs + length ys
  length-append [] ys = omega arith
  length-append (x ∷ xs) ys = omega (arith, length-append xs ys)

  pub length-take : (n : ℕ) (xs : List A) → length (take n xs) ≡ min n (length xs)
  length-take zero xs = omega arith
  length-take (suc n) [] = omega arith
  length-take (suc n) (x ∷ xs) = omega (arith, length-take n xs)

  pub length-drop : (n : ℕ) (xs : List A) → length (drop n xs) ≡ length xs - n
  length-drop zero xs = omega arith
  length-drop (suc n) [] = omega arith
  length-drop (suc n) (x ∷ xs) = omega (arith, length-drop n xs)

  pub length-take_last : (n : ℕ) (xs : List A) → length (take_last n xs) ≡ min n (length xs)
  length-take_last n xs = omega (arith, length-drop (length xs - n) xs)

  drop_of_zero : (n : ℕ) (xs : List A) → n ≡ 0 → drop n xs ≡ xs
  drop_of_zero zero xs h = refl
  drop_of_zero (suc n) xs h = absurd (omega arith)

  pub take_last_of_length-le : (n : ℕ) (xs : List A) → length xs ≤ n → take_last n xs ≡ xs
  take_last_of_length-le n xs h = drop_of_zero (length xs - n) xs (omega arith)

  pub length-map {κ} : {B : Type κ} (f : A → B) (xs : List A) → length (map f xs) ≡ length xs
  length-map f [] = refl
  length-map f (x ∷ xs) = omega (arith, length-map f xs)

  pub length-select-le : (p : A → Bool) (xs : List A) → length (select p xs) ≤ length xs
  length-select-le p [] = omega arith
  length-select-le p (x ∷ xs) = ground (arith, length-select-le p xs)

  module _ {κ} (P : A → Type κ) where
    pub All-append : (xs ys : List A) → All P xs → All P ys → All P (xs ++ ys)
    All-append [] ys hx hy = hy
    All-append (x ∷ xs) ys hx hy = (hx.0, All-append xs ys hx.1 hy)

    pub All-drop : (n : ℕ) (xs : List A) → All P xs → All P (drop n xs)
    All-drop zero xs h = h
    All-drop (suc n) [] h = tt
    All-drop (suc n) (x ∷ xs) h = All-drop n xs h.1

    pub All-take : (n : ℕ) (xs : List A) → All P xs → All P (take n xs)
    All-take zero xs h = tt
    All-take (suc n) [] h = tt
    All-take (suc n) (x ∷ xs) h = (h.0, All-take n xs h.1)

    All-if : (b : Bool) (x : A) (ys : List A) → P x → All P ys → All P (if b then x ∷ ys else ys)
    All-if true x ys p h = (p, h)
    All-if false x ys p h = h

    pub All-select : (p : A → Bool) (xs : List A) → All P xs → All P (select p xs)
    All-select p [] h = tt
    All-select p (x ∷ xs) h = All-if (p x) x (select p xs) h.0 (All-select p xs h.1)

  pub All-mono {κ μ} :
      {P : A → Type κ} {Q : A → Type μ}
      → ((x : A) → P x → Q x)
      → (xs : List A) → All P xs
      → All Q xs
  All-mono f [] h = tt
  All-mono f (x ∷ xs) h = (f x h.0, All-mono f xs h.1)

  module _ {κ μ} (P : A → Type κ) (Q : A → Type μ) where
    pub All-both : (xs : List A) → All P xs → All Q xs → All (λ x. P x × Q x) xs
    All-both [] h k = tt
    All-both (x ∷ xs) h k = ((h.0, k.0), All-both xs h.1 k.1)

  pub All-select-true : (p : A → Bool) (xs : List A) → All (λ x. p x ≡ true) (select p xs)
  All-select-true p [] = tt
  All-select-true p (x ∷ xs) = elim (Bool-cases (p x)) [
    | inl e ↦ rw e (e, All-select-true p xs)
    | inr e ↦ rw e (All-select-true p xs)
  ]

  pub All_of_Mem {κ} : {P : A → Type κ} (xs : List A) → ((x : A) → Memᴰ x xs → P x) → All P xs
  All_of_Mem [] f = tt
  All_of_Mem (x ∷ xs) f = (f x (Memᴰ.head refl), All_of_Mem xs (λ y m. f y (Memᴰ.tail m)))

  pub Mem-select :
      (p : A → Bool) (x : A) (xs : List A) → Memᴰ x (select p xs) → Memᴰ x xs × (p x ≡ true)
  Mem-select p x [] m = elim m [ ]
  Mem-select p x (y ∷ ys) m = elim (Bool-cases (p y)) [
    | inl e ↦ elim (Memᴰ.cases_cons (rw e at m)) [
      | inl same ↦ (Memᴰ.head same, ap p same ∙ e)
      | inr m' ↦ let (there, hit) = Mem-select p x ys m' in (Memᴰ.tail there, hit)
    ]
    | inr e ↦ let (there, hit) = Mem-select p x ys (rw e at m) in (Memᴰ.tail there, hit)
  ]

  pub select-Mem :
      (p : A → Bool) (x : A) (xs : List A) → Memᴰ x xs → p x ≡ true → Memᴰ x (select p xs)
  select-Mem p x [] m h = elim m [ ]
  select-Mem p x (y ∷ ys) (Memᴰ.head e) h = let hit : p y ≡ true = rw e at h in rw hit (Memᴰ.head e)
  select-Mem p x (y ∷ ys) (Memᴰ.tail m) h = elim (Bool-cases (p y)) [
    | inl e ↦ rw e (Memᴰ.tail (select-Mem p x ys m h))
    | inr e ↦ rw e (select-Mem p x ys m h)
  ]

  pub find_sound {κ} :
      (P : A → Type κ) (p : A → Bool) (xs : List A) (x : A)
      → All P xs
      → find p xs ≡ some x
      → P x × (p x ≡ true)
  find_sound P p [] x h e = cc
  find_sound P p (y ∷ ys) x h e = elim (Bool-cases (p y)) [
    | inl hit ↦ let same : y ≡ x = ground arith in rw (← same) (h.0, hit)
    | inr miss ↦ find_sound P p ys x h.1 (ground arith)
  ]

  pub All-map {κ μ} :
      {B : Type κ} (Q : B → Type μ) (f : A → B) (xs : List A)
      → All (λ x. Q (f x)) xs
      → All Q (map f xs)
  All-map Q f [] h = tt
  All-map Q f (x ∷ xs) h = (h.0, All-map Q f xs h.1)

  pub last?-append : (xs : List A) (x : A) → last? (xs ++ x ∷ []) ≡ some x
  last?-append [] x = refl
  last?-append (y ∷ []) x = refl
  last?-append (y ∷ z ∷ xs) x = last?-append (z ∷ xs) x

  pub last?-drop : (n : ℕ) (xs : List A) → n < length xs → last? (drop n xs) ≡ last? xs
  last?-drop zero xs h = refl
  last?-drop (suc n) [] h = refl
  last?-drop (suc n) (x ∷ []) h = absurd (omega arith)
  last?-drop (suc n) (x ∷ y ∷ xs) h = last?-drop n (y ∷ xs) (omega arith)
