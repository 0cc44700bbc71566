-- ===== src/Client/History.antt =====
-- packages/client/src/conversation-run.ts: the context that a message carries, drawn from confirmed
-- turns. `TextEncoder` counts three bytes for half of a surrogate pair and four for a whole one.
pub mod Longest
use ai_verse_dashboard.Base.{
  ℕ, ◌+◌, ◌≡◌, Bool, true, false, not, ◌&&◌, ◌||◌, List, [], ◌∷◌, ◌++◌, leb, ltb, if◌then◌else◌,
}
use mathlib.Core.List.{reverse}
use ai_verse_dashboard.Base.Text.{Text}

pub data TurnRole : Type 0 where
  user assistant : TurnRole

pub record Turn : Type 0 where
  pub role : TurnRole
  pub content : Text

unfoldable pub is_user : TurnRole → Bool
is_user user = true
is_user assistant = false

unfoldable pub is_high : ℕ → Bool
is_high c = leb 55_296 c && leb c 56_319

unfoldable pub is_low : ℕ → Bool
is_low c = leb 56_320 c && leb c 57_343

-- The bytes of a unit, where `high` says that the first half of a pair stands before it.
unfoldable pub unit_bytes : Bool → ℕ → ℕ
unfolding is_low
unit_bytes high c =
    if ltb c 128 then 1 else if ltb c 2048 then 2 else if high && is_low c then 1 else 3

unfoldable pub bytes_from : Bool → Text → ℕ
unfolding unit_bytes is_high
bytes_from high [] = 0
bytes_from high (c ∷ s) = unit_bytes high c + bytes_from (is_high c) s

-- `new TextEncoder().encode(s).byteLength`
unfoldable pub byte_length : Text → ℕ
unfolding bytes_from
byte_length s = bytes_from false s

pub record Pair : Type 0 where
  pub question : Turn
  pub answer : Turn

-- The complete pairs at even places.
unfoldable pub pairs_of : List Turn → List Pair
unfolding is_user
pairs_of [] = []
pairs_of (t ∷ []) = []
pairs_of (t ∷ u ∷ turns) =
    let rest = pairs_of turns in
    if is_user t.role && not (is_user u.role)
    then record { question = t; answer = u } ∷ rest
    else rest

unfoldable pub pair_bytes : Pair → ℕ
unfolding byte_length
pair_bytes p = byte_length p.question.content + byte_length p.answer.content

abbrev pub context_bytes : ℕ
context_bytes = 18_000

-- The loop from the newest pair on, which comes first; what it keeps comes newest first.
unfoldable pub keep_newest : ℕ → ℕ → List Pair → List Pair
unfolding pair_bytes
keep_newest kept size [] = []
keep_newest kept size (p ∷ older) =
    let bytes = pair_bytes p in
    let rest = keep_newest (kept + 1) (size + bytes) older in
    if ltb kept 6
    then (if ltb context_bytes bytes || ltb context_bytes (size + bytes) then [] else p ∷ rest)
    else []

unfoldable pub flatten : List Pair → List Turn
flatten [] = []
flatten (p ∷ ps) = p.question ∷ p.answer ∷ flatten ps

unfoldable pub bounded_pairs : List Turn → List Pair
unfolding pairs_of keep_newest
bounded_pairs turns = reverse (keep_newest 0 0 (reverse (pairs_of turns)))

unfoldable pub bounded_history : List Turn → List Turn
unfolding bounded_pairs flatten
bounded_history turns = flatten (bounded_pairs turns)
