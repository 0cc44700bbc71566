-- ===== src/Client/History/Longest.antt =====
-- packages/client/src/conversation-run.ts: which pairs of turns the context keeps.
use ai_verse_dashboard.Base.{
  ℕ, ◌+◌, ◌≤◌, ◌<◌, ◌≡◌, ◌⊎◌, ◌↔◌, true, not, ◌&&◌, All, if_rule, subst, refl, sym, ap, ◌∙◌, inl,
  inr, ◌||◌, List, [], ◌∷◌, ◌++◌, arith, ltb, length, length-append, Bool-cases,
}
use mathlib.Core.List.{reverse, reverse-append, reverse-reverse}
use ai_verse_dashboard.Client.History.{
  Turn, TurnRole, user, assistant, is_user, byte_length, flatten, bounded_history, Pair, pairs_of,
  pair_bytes, context_bytes, keep_newest, bounded_pairs,
}

abbrev pub total : List Pair → ℕ
total [] = 0
total (p ∷ ps) = pair_bytes p + total ps

-- Why no older pair is kept: there is none, six are kept, or the next one does not fit.
abbrev pub Stops : ℕ → ℕ → List Pair → Type 0
Stops kept size [] = Unit {0}
Stops kept size (p ∷ older) = (kept ≡ 6) ⊎ (context_bytes < size + pair_bytes p)

Stops-at :
    {m n size all : ℕ}
    → m ≡ n
    → size ≡ all
    → (older : List Pair) → Stops m size older
    → Stops n all older
Stops-at same alike [] h = tt
Stops-at same alike (p ∷ older) h = omega arith

abbrev Fits : ℕ → ℕ → List Pair → List Pair → Type 0
Fits kept size ps found =
    (older : List Pair) × (ps ≡ found ++ older)
    × (kept + length found ≤ 6)
    × (size + total found ≤ context_bytes)
    × Stops (kept + length found) (size + total found) older

keep_newest-Fits :
    (kept size : ℕ) (ps : List Pair)
    → kept ≤ 6
    → size ≤ context_bytes
    → Fits kept size ps (keep_newest kept size ps)
unfolding keep_newest
keep_newest-Fits kept size [] few small = ([], refl, omega arith, omega arith, tt)
keep_newest-Fits kept size (p ∷ older) few small = elim (Bool-cases (ltb kept 6)) [
  | inr full ↦ rw full (p ∷ older, refl, omega arith, omega arith, inl (ground arith))
  | inl room ↦
      elim (Bool-cases
        (ltb context_bytes (pair_bytes p) || ltb context_bytes (size + pair_bytes p))) [
          | inl large ↦
              rw (room, large) (p ∷ older, refl, omega arith, omega arith, inr (ground arith))
          | inr fits ↦
              let (rest, same, count, bytes, stops) =
                keep_newest-Fits (kept + 1) (size + pair_bytes p) older (ground arith)
                  (ground arith) in
              rw (room, fits)
                (
                  rest,
                  ap (λ ps. p ∷ ps) same,
                  omega arith,
                  omega arith,
                  Stops-at (omega arith) (omega arith) rest stops,
                )
        ]
]

total-append : (ps qs : List Pair) → total (ps ++ qs) ≡ total ps + total qs
total-append [] qs = omega arith
total-append (p ∷ ps) qs = omega (arith, total-append ps qs)

total-reverse : (ps : List Pair) → total (reverse ps) ≡ total ps
total-reverse [] = refl
total-reverse (p ∷ ps) =
    ap total (reverse-append (p ∷ []) ps)
    ∙ omega (arith, total-append (reverse ps) (p ∷ []), total-reverse ps)

length-reverse : (ps : List Pair) → length (reverse ps) ≡ length ps
length-reverse [] = refl
length-reverse (p ∷ ps) =
    ap length (reverse-append (p ∷ []) ps)
    ∙ omega (arith, length-append (reverse ps) (p ∷ []), length-reverse ps)

bounded_pairs_lem :
    (turns : List Turn)
    → (older : List Pair) × (pairs_of turns ≡ reverse older ++ bounded_pairs turns)
      × (length (bounded_pairs turns) ≤ 6)
      × (total (bounded_pairs turns) ≤ context_bytes)
      × Stops (length (bounded_pairs turns)) (total (bounded_pairs turns)) older
unfolding bounded_pairs
bounded_pairs_lem turns =
    let found = keep_newest 0 0 (reverse (pairs_of turns)) in
    let (older, same, count, bytes, stops) =
      keep_newest-Fits 0 0 (reverse (pairs_of turns)) (omega arith) (omega arith) in
    let many : length found ≡ length (reverse found) = sym (length-reverse found) in
    let heavy : total found ≡ total (reverse found) = sym (total-reverse found) in
    (
      older,
      sym (reverse-reverse (pairs_of turns)) ∙ (ap reverse same ∙ reverse-append found older),
      omega arith,
      omega arith,
      Stops-at (omega arith) (omega arith) older stops,
    )

-- Questions of the user and answers of the assistant, in turn.
abbrev pub Alternates : List Turn → Type 0
Alternates [] = Unit {0}
Alternates (t ∷ []) = ⊥
Alternates (t ∷ u ∷ turns) = (t.role ≡ user) × (u.role ≡ assistant) × Alternates turns

-- The bytes of the contents of turns.
abbrev pub content_bytes : List Turn → ℕ
content_bytes [] = 0
content_bytes (t ∷ turns) = byte_length t.content + content_bytes turns

abbrev IsPair : Pair → Type 0
IsPair p = (p.question.role ≡ user) × (p.answer.role ≡ assistant)

is_user-roles :
    (r q : TurnRole) → (is_user r && not (is_user q)) ≡ true → (r ≡ user) × (q ≡ assistant)
unfolding is_user
is_user-roles user assistant h = (refl, refl)
is_user-roles user user h = absurd (ground arith)
is_user-roles assistant user h = absurd (ground arith)
is_user-roles assistant assistant h = absurd (ground arith)

roles-is_user : (r q : TurnRole) → r ≡ user → q ≡ assistant → (is_user r && not (is_user q)) ≡ true
unfolding is_user
roles-is_user r q asks answers = rw (asks, answers) refl

pairs_of-All : (turns : List Turn) → All IsPair (pairs_of turns)
unfolding pairs_of
pairs_of-All [] = tt
pairs_of-All (t ∷ []) = tt
pairs_of-All (t ∷ u ∷ turns) =
    if_rule (λ (ps : List Pair). All IsPair ps) (is_user t.role && not (is_user u.role)) _ _
      (λ e. (is_user-roles t.role u.role e, pairs_of-All turns)) (λ _. pairs_of-All turns)

pairs_of-Alternates : (turns : List Turn) → Alternates turns → flatten (pairs_of turns) ≡ turns
unfolding pairs_of flatten
pairs_of-Alternates [] h = refl
pairs_of-Alternates (t ∷ []) h = absurd h
pairs_of-Alternates (t ∷ u ∷ turns) (asks, answers, rest) =
    rw (roles-is_user t.role u.role asks answers)
      (ap (λ ts. t ∷ u ∷ ts) (pairs_of-Alternates turns rest))

flatten-Alternates : (ps : List Pair) → All IsPair ps → Alternates (flatten ps)
unfolding flatten
flatten-Alternates [] h = tt
flatten-Alternates (p ∷ ps) ((asks, answers), rest) = (asks, answers, flatten-Alternates ps rest)

length-flatten : (ps : List Pair) → length (flatten ps) ≡ length ps + length ps
unfolding flatten
length-flatten [] = refl
length-flatten (p ∷ ps) = omega (arith, length-flatten ps)

content_bytes-flatten : (ps : List Pair) → content_bytes (flatten ps) ≡ total ps
unfolding flatten pair_bytes
content_bytes-flatten [] = refl
content_bytes-flatten (p ∷ ps) = omega (arith, content_bytes-flatten ps)

All-right : (ps qs : List Pair) → All IsPair (ps ++ qs) → All IsPair qs
All-right [] qs h = h
All-right (p ∷ ps) qs h = All-right ps qs h.1

-- The pairs of turns lose a turn unless questions and answers alternate, and then none. The context
-- is the end of those pairs: questions and answers that alternate, at most twelve turns and
-- 18,000 bytes, and no more only because there is no older pair, six are kept, or the next older
-- pair does not fit.
pub bounded_history_lem :
    (turns : List Turn)
    → ((flatten (pairs_of turns) ≡ turns) ↔ Alternates turns)
      × ((older kept : List Pair) × (pairs_of turns ≡ reverse older ++ kept)
          × (bounded_history turns ≡ flatten kept)
          × Alternates (bounded_history turns)
          × (length (bounded_history turns) ≤ 12)
          × (content_bytes (bounded_history turns) ≤ context_bytes)
          × Stops (length kept) (total kept) older)
unfolding bounded_history
bounded_history_lem turns =
    let kept = bounded_pairs turns in
    let (older, same, count, bytes, stops) = bounded_pairs_lem turns in
    let pairs = All-right (reverse older) kept (subst (All IsPair) same (pairs_of-All turns)) in
    (
      (
        λ e. subst Alternates e (flatten-Alternates (pairs_of turns) (pairs_of-All turns)),
        pairs_of-Alternates turns,
      ),
      (
        older,
        kept,
        same,
        refl,
        flatten-Alternates kept pairs,
        omega (arith, length-flatten kept),
        omega (arith, content_bytes-flatten kept),
        stops,
      ),
    )
