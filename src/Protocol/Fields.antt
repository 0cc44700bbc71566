-- ===== src/Protocol/Fields.antt =====
-- packages/protocol/src/envelope.ts: the readers of one field, in the place of the schemas of `zod`.
-- Of them the documented behaviour is written out: a strict object has no other keys, and a
-- refinement runs once the fields are right.
use ai_verse_dashboard.Base.{
  ℕ, Bool, true, false, ◌&&◌, Option, none, some, List, [], ◌∷◌, Outcome, ok, err, ◌>>=◌, leb,
  length, if◌then◌else◌,
}
use ai_verse_dashboard.Base.Text.{Text, ◌===◌, member}
use ai_verse_dashboard.Protocol.Methods.{ProtocolFault, invalid_envelope}
use ai_verse_dashboard.Protocol.Json.{Json, boolean, number, string, Members, close, member_of}

-- The member of that name.
unfoldable pub field : Text → Members → Option Json
unfolding ◌===◌
field name close = none
field name (member_of key value rest) =
    let later = field name rest in if name === key then some value else later

-- `.strict()`
unfoldable pub has_only : List Text → Members → Bool
has_only names close = true
has_only names (member_of key value rest) = member key names && has_only names rest

abbrev pub Faults : Type 0
Faults = List ProtocolFault

abbrev pub malformed : Faults
malformed = invalid_envelope ∷ []

-- `z.string()` with a test of the text, and its `.optional()`.
unfoldable pub string_field : (Text → Bool) → Option Json → Outcome Faults Text
string_field test (some (string s)) = if test s then ok s else err malformed
string_field test _ = err malformed

unfoldable pub optional_field : (Text → Bool) → Option Json → Outcome Faults (Option Text)
unfolding string_field
optional_field test none = ok none
optional_field test (some j) = string_field test (some j) >>= λ s. ok (some s)

-- `z.boolean()` and `z.number().int().nonnegative()`
unfoldable pub boolean_field : Option Json → Outcome Faults Bool
boolean_field (some (boolean b)) = ok b
boolean_field _ = err malformed

unfoldable pub number_field : Option Json → Outcome Faults ℕ
number_field (some (number n)) = ok n
number_field _ = err malformed

-- `z.string().min(1).max(m)`
unfoldable pub is_sized : ℕ → Text → Bool
is_sized m s = leb 1 (length s) && leb (length s) m

unfoldable pub is_some {ℓ} : {A : Type ℓ} → Option A → Bool
is_some none = false
is_some (some a) = true

-- An issue that is there only if the test fails.
unfoldable pub unless : Bool → ProtocolFault → Faults
unless true fault = []
unless false fault = fault ∷ []

unfoldable pub accept {ℓ} : {A : Type ℓ} → A → Faults → Outcome Faults A
accept a [] = ok a
accept a (fault ∷ faults) = err (fault ∷ faults)

unfoldable pub is_text : Text → Text → Bool
unfolding ◌===◌
is_text expected s = s === expected
