-- ===== src/Protocol/Ids.antt =====
-- packages/protocol/src/ids.ts: the patterns of identifiers.
use ai_verse_dashboard.Base.{
  ℕ, ◌≡◌, refl, ap, Bool, true, false, ◌&&◌, Option, none, some, [], ◌∷◌, arith, leb, length, all,
  last?, and_split,
}
use ai_verse_dashboard.Base.Text.{
  Text, is_slug_head, is_slug, is_alnum, is_word, colon, NoColon, NoColon-of_all,
}

-- `/^[a-z0-9][a-z0-9-]{0,63}$/`
unfoldable pub is_system_id : Text → Bool
unfolding is_slug_head is_slug
is_system_id [] = false
is_system_id (c ∷ s) = is_slug_head c && all is_slug s && leb (length s) 63

ends_plain : Option ℕ → Bool
ends_plain none = true
ends_plain (some c) = is_slug_head c

-- `/^[a-z0-9](?:[a-z0-9-]{0,126}[a-z0-9])?$/`
unfoldable pub is_workspace_id : Text → Bool
unfolding is_slug_head is_slug ends_plain
is_workspace_id [] = false
is_workspace_id (c ∷ s) =
    is_slug_head c && all is_slug s && ends_plain (last? s) && leb (length s) 127

-- `/^[a-z0-9][a-z0-9-]{0,63}$/`
unfoldable pub is_panel_id : Text → Bool
unfolding is_slug_head is_slug
is_panel_id [] = false
is_panel_id (c ∷ s) = is_slug_head c && all is_slug s && leb (length s) 63

-- `/^[A-Za-z0-9][A-Za-z0-9-_]{0,63}$/`, the pattern of record, session and instance ids.
unfoldable pub is_record_id : Text → Bool
unfolding is_alnum is_word
is_record_id [] = false
is_record_id (c ∷ s) = is_alnum c && all is_word s && leb (length s) 63

pub data Presentation : Type 0 where
  full compact hud : Presentation

module _ (s : Text) where
  head_tail :
      (p q : ℕ → Bool)
      → p colon ≡ false
      → q colon ≡ false
      → (c : ℕ) → p c ≡ true
      → all q s ≡ true
      → NoColon (c ∷ s)
  head_tail p q off_p off_q c hp hq = ((λ e. ground (arith, ap p e)), NoColon-of_all q off_q s hq)

pub is_system_id-NoColon : (s : Text) → is_system_id s ≡ true → NoColon s
unfolding is_system_id
is_system_id-NoColon [] h = tt
is_system_id-NoColon (c ∷ s) h =
    let (front, fits) = and_split (is_slug_head c && all is_slug s) _ h in
    let (first, rest) = and_split (is_slug_head c) _ front in
    head_tail s is_slug_head is_slug refl refl c first rest

pub is_workspace_id-NoColon : (s : Text) → is_workspace_id s ≡ true → NoColon s
unfolding is_workspace_id
is_workspace_id-NoColon [] h = tt
is_workspace_id-NoColon (c ∷ s) h =
    let (most, fits) = and_split (is_slug_head c && all is_slug s && ends_plain (last? s)) _ h in
    let (front, end) = and_split (is_slug_head c && all is_slug s) _ most in
    let (first, rest) = and_split (is_slug_head c) _ front in
    head_tail s is_slug_head is_slug refl refl c first rest

pub is_record_id-NoColon : (s : Text) → is_record_id s ≡ true → NoColon s
unfolding is_record_id
is_record_id-NoColon [] h = tt
is_record_id-NoColon (c ∷ s) h =
    let (front, fits) = and_split (is_alnum c && all is_word s) _ h in
    let (first, rest) = and_split (is_alnum c) _ front in
    head_tail s is_alnum is_word refl refl c first rest
