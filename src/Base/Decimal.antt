-- ===== src/Base/Decimal.antt =====
-- The decimal text of a number, `${n}` and `String(n)`, for whole numbers.
use ai_verse_dashboard.Base.{
  ℕ, zero, suc, ◌+◌, ◌-◌, ◌*◌, ◌/◌, ◌%◌, ◌<◌, ◌≡◌, ◌≢◌, refl, sym, ap, ◌∙◌, [], ◌∷◌, ◌++◌, arith,
  ltb, if◌then◌else◌, inl, inr, Bool-cases, All-append,
}
use ai_verse_dashboard.Base.Text.{Text, colon, NoColon}

-- With fuel above the number, the digits from the most significant one on.
digits_from : ℕ → ℕ → Text
digits_from zero n = []
digits_from (suc f) n =
    let rest = digits_from f (n / 10) in
    if ltb n 10 then (b'0' + n) ∷ [] else rest ++ (b'0' + n % 10) ∷ []

unfoldable pub decimal : ℕ → Text
unfolding digits_from
decimal n = digits_from (suc n) n

number_from : ℕ → Text → ℕ
number_from acc [] = acc
number_from acc (c ∷ s) = number_from (acc * 10 + (c - b'0')) s

number_from-append :
    (acc : ℕ) (s : Text) (c : ℕ)
    → number_from acc (s ++ c ∷ []) ≡ number_from acc s * 10 + (c - b'0')
unfolding number_from
number_from-append acc [] c = refl
number_from-append acc (d ∷ s) c = number_from-append (acc * 10 + (d - b'0')) s c

number_from-digits_from : (f n : ℕ) → n < f → number_from 0 (digits_from f n) ≡ n
unfolding digits_from number_from
number_from-digits_from zero n h = elim h [ ]
number_from-digits_from (suc f) n h = elim (Bool-cases (ltb n 10)) [
  | inl small ↦ rw small (omega arith)
  | inr large ↦
      rw (large, number_from-append 0 (digits_from f (n / 10)) (b'0' + n % 10))
        (ground (arith, number_from-digits_from f (n / 10)))
]

-- Two numbers with the same text are the same number.
pub decimal-injective : (m n : ℕ) → decimal m ≡ decimal n → m ≡ n
unfolding decimal
decimal-injective m n e =
    sym (number_from-digits_from (suc m) m (omega arith))
    ∙ ap (number_from 0) e
    ∙ number_from-digits_from (suc n) n (omega arith)

digits_from-NoColon : (f n : ℕ) → NoColon (digits_from f n)
unfolding digits_from
digits_from-NoColon zero n = tt
digits_from-NoColon (suc f) n = elim (Bool-cases (ltb n 10)) [
  | inl small ↦ rw small ((λ e. ground arith), tt)
  | inr large ↦ rw large (
      All-append (λ c. c ≢ colon) (digits_from f (n / 10)) ((b'0' + n % 10) ∷ [])
        (digits_from-NoColon f (n / 10)) ((λ e. omega arith), tt))
]

pub decimal-NoColon : (n : ℕ) → NoColon (decimal n)
unfolding decimal
decimal-NoColon n = digits_from-NoColon (suc n) n
