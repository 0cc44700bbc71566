-- ===== src/Protocol/Scope/Keys.antt =====
-- packages/protocol/src/methods.ts: which scopes share a key.
use ai_verse_dashboard.Base.{◌≡◌, sym, ◌∙◌, true, List, [], ◌∷◌, ok, arith, All}
use ai_verse_dashboard.Base.Text.{Text, NoColon, NoColon-split, colon_cancel}
use ai_verse_dashboard.Protocol.Ids.{
  is_system_id, is_workspace_id, is_system_id-NoColon, is_workspace_id-NoColon,
}
use ai_verse_dashboard.Protocol.Scope.{join, scope_key, workspace_scope_key}

-- A joined key gives back its first part, if the two first parts hold no colon.
pub join_head :
    (a b : Text) (ps qs : List Text) → NoColon a → NoColon b → join (a ∷ ps) ≡ join (b ∷ qs) → a ≡ b
unfolding join
join_head a b [] [] ha hb e = e
join_head a b [] (q ∷ qs) ha hb e = absurd (NoColon-split b _ ha e)
join_head a b (p ∷ ps) [] ha hb e = absurd (NoColon-split a _ hb (sym e))
join_head a b (p ∷ ps) (q ∷ qs) ha hb e = (colon_cancel a b ha hb e).0

-- Parts without colons are determined by the joined key.
pub join-injective :
    (a b : Text) (ps qs : List Text)
    → All NoColon (a ∷ ps)
    → All NoColon (b ∷ qs)
    → join (a ∷ ps) ≡ join (b ∷ qs)
    → a ∷ ps ≡ b ∷ qs
unfolding join
join-injective a b [] [] ha hb e = cc
join-injective a b [] (q ∷ qs) ha hb e = absurd (NoColon-split b _ ha.0 e)
join-injective a b (p ∷ ps) [] ha hb e = absurd (NoColon-split a _ hb.0 (sym e))
join-injective a b (p ∷ ps) (q ∷ qs) ha hb e =
    let (same, rest) = colon_cancel a b ha.0 hb.0 e in
    let later = join-injective p q ps qs ha.1 hb.1 rest in cc (same, later)

pub scope_key-ok :
    (a : Text) (ps : List Text) (k : Text)
    → scope_key a ps ≡ ok k
    → (is_system_id a ≡ true) × (join (a ∷ ps) ≡ k)
unfolding scope_key
scope_key-ok a ps k h = (ground arith, ground arith)

-- Keys of two different systems never meet, whatever the parts are.
pub scope_key-isolates :
    (a b : Text) (ps qs : List Text) (k : Text)
    → scope_key a ps ≡ ok k
    → scope_key b qs ≡ ok k
    → a ≡ b
scope_key-isolates a b ps qs k h g =
    let (valid_a, key_a) = scope_key-ok a ps k h in
    let (valid_b, key_b) = scope_key-ok b qs k g in
    join_head a b ps qs (is_system_id-NoColon a valid_a) (is_system_id-NoColon b valid_b)
      (key_a ∙ sym key_b)

pub workspace_scope_key-ok :
    (a w : Text) (ps : List Text) (k : Text)
    → workspace_scope_key a w ps ≡ ok k
    → (is_system_id a ≡ true) × (is_workspace_id w ≡ true) × (join (a ∷ w ∷ ps) ≡ k)
unfolding workspace_scope_key
workspace_scope_key-ok a w ps k h = (ground arith, ground arith, ground arith)

-- Keys of two different workspaces never meet either.
pub workspace_scope_key-isolates :
    (a b w v : Text) (ps qs : List Text) (k : Text)
    → workspace_scope_key a w ps ≡ ok k
    → workspace_scope_key b v qs ≡ ok k
    → (a ≡ b) × (w ≡ v)
unfolding join
workspace_scope_key-isolates a b w v ps qs k h g =
    let (valid_a, valid_w, key_a) = workspace_scope_key-ok a w ps k h in
    let (valid_b, valid_v, key_b) = workspace_scope_key-ok b v qs k g in
    let (same, rest) =
      colon_cancel a b (is_system_id-NoColon a valid_a) (is_system_id-NoColon b valid_b)
        (key_a ∙ sym key_b) in
    (
      same,
      join_head w v ps qs (is_workspace_id-NoColon w valid_w) (is_workspace_id-NoColon v valid_v)
          rest,
    )
