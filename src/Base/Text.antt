-- ===== src/Base/Text.antt =====
-- JavaScript strings: sequences of UTF-16 code units, so that `length` and `slice` are those of
-- the list. `text` gives the units of a literal in ASCII.
pub mod Order
use Prim.Native.Char.{code}
use Prim.Native.String.{String}
use Prim.Native.Nat.{ℕ, zero, suc, ◌+◌, ◌/◌, ◌%◌, ◌<◌, ◌≤◌}
use mathlib.Core.Path.{◌≡◌, refl, ap, ap₂, sym, ◌∙◌}
use mathlib.Core.Logic.{◌↔◌, ◌≢◌, ◌⊎◌, inl, inr}
use mathlib.Core.Bool.{Bool, true, false, ◌&&◌, ◌||◌}
use mathlib.Core.List.{List, [], ◌∷◌, ◌++◌, head-eq_of_cons-eq, tail-eq_of_cons-eq}
use native.Mathlib.Omega.{arith}
use ai_verse_dashboard.Base.Tests.{◌==◌, leb, if◌then◌else◌, Bool-cases, ==_iff}
use ai_verse_dashboard.Base.Lists.{all, any, All}

abbrev pub Text : Type 0
Text = List ℕ

codes : String → Text
codes String.[] = []
codes (String.◌∷◌ c s) = code c ∷ codes s

unfoldable pub text : String → Text
unfolding codes
text s = codes s

infix 50 ◌===◌
unfoldable pub ◌===◌ : Text → Text → Bool
[] === [] = true
[] === (d ∷ t) = false
(c ∷ s) === [] = false
(c ∷ s) === (d ∷ t) = c == d && s === t

pub ===_sound : (s t : Text) → (s === t) ≡ true → s ≡ t
unfolding ◌===◌
===_sound [] [] h = refl
===_sound [] (d ∷ t) h = cc
===_sound (c ∷ s) [] h = cc
===_sound (c ∷ s) (d ∷ t) h = ground (arith, ===_sound s t)

pub ===_refl : (s : Text) → (s === s) ≡ true
unfolding ◌===◌
===_refl [] = refl
===_refl (c ∷ s) = ground (arith, ===_refl s)

pub ===_iff : (s t : Text) → ((s === t) ≡ true) ↔ (s ≡ t)
===_iff s t = (===_sound s t, λ e. rw e (===_refl t))

pub ===_ne : (s t : Text) → s ≢ t → (s === t) ≡ false
===_ne s t ne = elim (Bool-cases (s === t)) [
  | inl same ↦ absurd (ne (===_sound s t same))
  | inr other ↦ other
]

abbrev pub member : Text → List Text → Bool
member t ts = any (λ s. s === t) ts

-- Character classes of the program's regular expressions.
unfoldable pub is_lower : ℕ → Bool
is_lower c = leb b'a' c && leb c b'z'

unfoldable pub is_digit : ℕ → Bool
is_digit c = leb b'0' c && leb c b'9'

unfoldable pub is_alnum : ℕ → Bool
unfolding is_lower is_digit
is_alnum c = is_lower c || is_digit c || (leb b'A' c && leb c b'Z')

-- `[A-Za-z0-9-_]`
unfoldable pub is_word : ℕ → Bool
unfolding is_alnum
is_word c = is_alnum c || c == b'-' || c == b'_'

-- `[a-z0-9]` and `[a-z0-9-]`
unfoldable pub is_slug_head : ℕ → Bool
unfolding is_lower is_digit
is_slug_head c = is_lower c || is_digit c

unfoldable pub is_slug : ℕ → Bool
unfolding is_slug_head
is_slug c = is_slug_head c || c == b'-'

abbrev pub colon : ℕ
colon = b':'

-- No code unit of the text is a colon.
abbrev pub NoColon : Text → Type 0
NoColon s = All (λ c. c ≢ colon) s

pub NoColon-of_all : (p : ℕ → Bool) → p colon ≡ false → (s : Text) → all p s ≡ true → NoColon s
NoColon-of_all p off [] h = tt
NoColon-of_all p off (c ∷ s) h =
    (λ e. ground (arith, ap p e), NoColon-of_all p off s (ground arith))

-- Text before the first colon determines where it ends: two joined texts with the same whole have
-- the same head and the same rest.
pub colon_cancel :
    (a b : Text) {s t : Text}
    → NoColon a
    → NoColon b
    → a ++ colon ∷ s ≡ b ++ colon ∷ t
    → (a ≡ b) × (s ≡ t)
colon_cancel [] [] ha hb e = (refl, tail-eq_of_cons-eq e)
colon_cancel [] (d ∷ b) ha hb e = absurd (hb.0 (sym (head-eq_of_cons-eq e)))
colon_cancel (c ∷ a) [] ha hb e = absurd (ha.0 (head-eq_of_cons-eq e))
colon_cancel (c ∷ a) (d ∷ b) ha hb e =
    let (same, rest) = colon_cancel a b ha.1 hb.1 (tail-eq_of_cons-eq e) in
    (ap₂ ◌∷◌ (head-eq_of_cons-eq e) same, rest)

pub NoColon-split : (a s : Text) {t : Text} → NoColon t → t ≢ a ++ colon ∷ s
NoColon-split [] s {t = []} h e = cc
NoColon-split [] s {t = c ∷ t} h e = h.0 (cc)
NoColon-split (d ∷ a) s {t = []} h e = cc
NoColon-split (d ∷ a) s {t = c ∷ t} h e = NoColon-split a s h.1 (cc)

-- The text after the last colon determines where it begins.
pub colon_cancel_right :
    (a b : Text) {s t : Text}
    → NoColon s
    → NoColon t
    → a ++ colon ∷ s ≡ b ++ colon ∷ t
    → (a ≡ b) × (s ≡ t)
colon_cancel_right [] [] hs ht e = (refl, tail-eq_of_cons-eq e)
colon_cancel_right [] (d ∷ b) hs ht e = absurd (NoColon-split b _ hs (tail-eq_of_cons-eq e))
colon_cancel_right (c ∷ a) [] hs ht e = absurd (NoColon-split a _ ht (sym (tail-eq_of_cons-eq e)))
colon_cancel_right (c ∷ a) (d ∷ b) hs ht e =
    let (same, rest) = colon_cancel_right a b hs ht (tail-eq_of_cons-eq e) in
    (ap₂ ◌∷◌ (head-eq_of_cons-eq e) same, rest)

pub NoColon-append : (s t : Text) → NoColon s → NoColon t → NoColon (s ++ t)
NoColon-append [] t hs ht = ht
NoColon-append (c ∷ s) t hs ht = (hs.0, NoColon-append s t hs.1 ht)

-- `s.startsWith(p)`
unfoldable pub starts_with : Text → Text → Bool
starts_with [] s = true
starts_with (c ∷ p) [] = false
starts_with (c ∷ p) (d ∷ s) = c == d && starts_with p s

pub starts_with_sound : (p s : Text) → starts_with p s ≡ true → (rest : Text) × (s ≡ p ++ rest)
unfolding starts_with
starts_with_sound [] s h = (s, refl)
starts_with_sound (c ∷ p) [] h = absurd (cc h)
starts_with_sound (c ∷ p) (d ∷ s) h =
    let (rest, same) = starts_with_sound p s (ground arith) in (rest, ap₂ ◌∷◌ (ground arith) same)

pub starts_with-append : (p s : Text) → starts_with p (p ++ s) ≡ true
unfolding starts_with
starts_with-append [] s = refl
starts_with-append (c ∷ p) s = ground (arith, starts_with-append p s)
