-- ===== src/Protocol/Json.antt =====
-- packages/protocol/src/ids.ts: JSON values, and the search for keys that would carry a raw root.
-- A value that was parsed is a tree, so that the set of objects already seen skips nothing. Of a
-- key's lower case only the letters A to Z matter: no other character's lower case is a letter that
-- a forbidden key has.
pub mod Keys
use ai_verse_dashboard.Base.{
  ℕ, ◌+◌, Bool, true, false, ◌&&◌, Option, none, some, [], ◌∷◌, ◌++◌, map, ltb, leb, if◌then◌else◌,
}
use ai_verse_dashboard.Base.Text.{Text, text, ◌===◌, member}
use ai_verse_dashboard.Base.Decimal.{decimal}

-- `number` is a whole number that is not negative, `other_number` any other by its text. The members
-- of an object stand in the order of `Object.keys`.
mutual
  pub data Json : Type 0 where
    null : Json
    boolean : Bool → Json
    number : ℕ → Json
    other_number : Text → Json
    string : Text → Json
    array : Elements → Json
    object : Members → Json

  pub data Elements : Type 0 where
    end : Elements
    item : Json → Elements → Elements

  pub data Members : Type 0 where
    close : Members
    member_of : Text → Json → Members → Members

lower_unit : ℕ → ℕ
lower_unit c = if leb b'A' c && leb c b'Z' then c + 32 else c

unfoldable pub is_forbidden : Text → Bool
unfolding text ◌===◌ lower_unit
is_forbidden key = member (map lower_unit key) (
    text "root"
    ∷ text "fsroot"
    ∷ text "osroot"
    ∷ text "approot"
    ∷ text "systemroot"
    ∷ text "rootpath"
    ∷ text "basepath"
    ∷ text "filepath"
    ∷ text "absolutepath"
    ∷ text "absoluteroot"
    ∷ text "dir"
    ∷ text "directory"
    ∷ text "databasedirectory"
    ∷ text "databasepath"
    ∷ [])

-- `if (hit)`: neither null nor the empty string.
unfoldable pub is_hit : Option Text → Bool
is_hit none = false
is_hit (some []) = false
is_hit (some (c ∷ s)) = true

-- `path ? `${path}.${key}` : key`
unfoldable pub below_key : Text → Text → Text
below_key [] key = key
below_key (c ∷ s) key = (c ∷ s) ++ b'.' ∷ key

-- `${path}[${i}]`
below_index : Text → ℕ → Text
below_index path i = path ++ b'[' ∷ (decimal i ++ b']' ∷ [])

-- `visit`, and its two loops.
unfoldable mutual
  unfolding is_forbidden is_hit below_key below_index

  pub visit : Text → ℕ → Json → Option Text
  visit path depth (array elements) =
      let hit = visit_elements path depth 0 elements in if ltb 8 depth then none else hit
  visit path depth (object members) =
      let hit = visit_members path depth members in if ltb 8 depth then none else hit
  visit path depth null = none
  visit path depth (boolean b) = none
  visit path depth (number n) = none
  visit path depth (other_number n) = none
  visit path depth (string s) = none

  pub visit_elements : Text → ℕ → ℕ → Elements → Option Text
  visit_elements path depth i end = none
  visit_elements path depth i (item value rest) =
      let hit = visit (below_index path i) (depth + 1) value in
      let later = visit_elements path depth (i + 1) rest in if is_hit hit then hit else later

  pub visit_members : Text → ℕ → Members → Option Text
  visit_members path depth close = none
  visit_members path depth (member_of key value rest) =
      let hit = visit (below_key path key) (depth + 1) value in
      let later = visit_members path depth rest in
      if is_forbidden key then some (below_key path key) else if is_hit hit then hit else later

-- `none` where the check passes, else the path of the key that it found.
unfoldable pub check_no_raw_roots : Json → Option Text
unfolding visit is_hit
check_no_raw_roots params = let at = visit [] 0 params in if is_hit at then at else none
