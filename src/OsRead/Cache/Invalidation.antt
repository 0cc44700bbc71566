-- ===== src/OsRead/Cache/Invalidation.antt =====
-- Dropping what belongs to one system, and how much of it is dropped.
use mathlib.Core.List.{append_assoc}
use ai_verse_dashboard.Base.{
  ℕ, ◌+◌, ◌≡◌, ◌≢◌, refl, sym, ◌∙◌, subst, or_true, false_of_not, Bool, true, false, Option, none,
  Outcome, List, [], ◌∷◌, ◌++◌, ok, arith, inl, inr, Bool-cases, if◌then◌else◌, length,
}
use ai_verse_dashboard.Base.Text.{
  Text, ◌===◌, ===_iff, ===_refl, ===_ne, ===_sound, colon, NoColon, starts_with, starts_with_sound,
  starts_with-append, colon_cancel, NoColon-split,
}
use ai_verse_dashboard.Base.Map.{Map, lookup}
use ai_verse_dashboard.Protocol.Ids.{is_system_id, is_system_id-NoColon}
use ai_verse_dashboard.Protocol.Scope.{ScopeFault, join, scope_key}
use ai_verse_dashboard.Protocol.Scope.Keys.{scope_key-ok}
use ai_verse_dashboard.OsRead.Cache.{
  Entry, DisposableCache, drop_keys, of_system, invalidate_system, get,
}
use ai_verse_dashboard.OsRead.Cache.Lookup.{value_of, get-value_of}

module _ {ℓ} {V : Type ℓ} (drops : Text → Bool) where
  pub lookup-drop_keys :
      (k : Text) (m : Map (Entry V))
      → lookup k (drop_keys drops m).0 ≡ (if drops k then none else lookup k m)
  unfolding drop_keys lookup
  lookup-drop_keys k [] = ground arith
  lookup-drop_keys k ((j, e) ∷ m) = ground (arith, ===_iff j k, lookup-drop_keys k m)

  pub length-drop_keys :
      (m : Map (Entry V)) → length (drop_keys drops m).0 + (drop_keys drops m).1 ≡ length m
  unfolding drop_keys
  length-drop_keys [] = refl
  length-drop_keys ((j, e) ∷ m) = ground (arith, length-drop_keys m)

join-eq_head :
    (sys sys' : Text) (parts : List Text) → NoColon sys → join (sys' ∷ parts) ≡ sys → sys' ≡ sys
unfolding join
join-eq_head sys sys' [] plain e = e
join-eq_head sys sys' (p ∷ ps) plain e = absurd (NoColon-split sys' _ plain (sym e))

-- A valid key that begins with a system's id and a colon is a key of that system.
pub join-eq_system :
    (sys sys' : Text) (parts : List Text) (rest : Text)
    → NoColon sys
    → NoColon sys'
    → join (sys' ∷ parts) ≡ sys ++ colon ∷ rest
    → sys' ≡ sys
unfolding join
join-eq_system sys sys' [] rest plain plain' e = absurd (NoColon-split sys rest plain' e)
join-eq_system sys sys' (p ∷ ps) rest plain plain' e = (colon_cancel sys' sys plain' plain e).0

starts_with-join :
    (sys sys' : Text) (parts : List Text)
    → NoColon sys
    → NoColon sys'
    → starts_with (sys ++ colon ∷ []) (join (sys' ∷ parts)) ≡ true
    → sys' ≡ sys
starts_with-join sys sys' parts plain plain' h =
    let (rest, e) = starts_with_sound (sys ++ colon ∷ []) (join (sys' ∷ parts)) h in
    join-eq_system sys sys' parts rest plain plain' (e ∙ append_assoc sys (colon ∷ []) rest)

of_system-join_self : (sys : Text) (parts : List Text) → of_system sys (join (sys ∷ parts)) ≡ true
unfolding of_system join
of_system-join_self sys [] = rw (===_refl sys)
of_system-join_self sys (p ∷ ps) =
    let at : sys ++ colon ∷ join (p ∷ ps) ≡ (sys ++ colon ∷ []) ++ join (p ∷ ps) =
      sym (append_assoc sys (colon ∷ []) (join (p ∷ ps))) in
    rw (at, starts_with-append (sys ++ colon ∷ []) (join (p ∷ ps))) (or_true _)

-- The test of the keys picks those of the system, whatever the parts are.
pub of_system-join :
    (sys sys' : Text) (parts : List Text)
    → NoColon sys
    → NoColon sys'
    → of_system sys (join (sys' ∷ parts)) ≡ (sys === sys')
unfolding of_system join
of_system-join sys sys' parts plain plain' = elim (Bool-cases (sys === sys')) [
  | inl same ↦ rw same (
      subst (λ t. of_system sys (join (t ∷ parts)) ≡ true) (===_sound sys sys' same)
        (of_system-join_self sys parts))
  | inr other ↦
      let apart : sys' ≢ sys = λ e. ground (arith, ===_iff sys sys') in
      rw (
        other,
        ===_ne (join (sys' ∷ parts)) sys (λ e. apart (join-eq_head sys sys' parts plain e)),
        false_of_not (λ h. apart (starts_with-join sys sys' parts plain plain' h)),
      )
]

module _ {ℓ} {V : Type ℓ} where
  value_of-if :
      (now : ℕ) (b : Bool) (o : Option (Entry V))
      → (let r : Outcome ScopeFault (Option V) = ok (value_of now (if b then none else o)) in r)
        ≡ (if b then ok none else ok (value_of now o))
  unfolding value_of
  value_of-if now true o = refl
  value_of-if now false o = refl

  -- After a system with a valid id is invalidated it is answered nothing, and every other system
  -- what it was answered before, at every valid key.
  pub get-invalidate_system :
      (sys sys' : Text) (parts : List Text) (now : ℕ) (cache : DisposableCache V) (k : Text)
      → is_system_id sys ≡ true
      → scope_key sys' parts ≡ ok k
      → (get sys' parts now (invalidate_system sys cache).1).0
        ≡ (if sys === sys' then ok none else (get sys' parts now cache).0)
  unfolding invalidate_system
  get-invalidate_system sys sys' parts now cache k valid key =
      let (valid', at) = scope_key-ok sys' parts k key in
      let picked =
        of_system-join sys sys' parts (is_system_id-NoColon sys valid)
          (is_system_id-NoColon sys' valid') in
      rw
        (
          get-value_of sys' parts now (invalidate_system sys cache).1 k key,
          get-value_of sys' parts now cache k key,
          lookup-drop_keys (of_system sys) k cache.entries,
          ← at,
          picked,
        )
        (value_of-if now (sys === sys') (lookup (join (sys' ∷ parts)) cache.entries))

  -- What is dropped is counted.
  pub length-invalidate_system :
      (sys : Text) (cache : DisposableCache V)
      → length (invalidate_system sys cache).1.entries + (invalidate_system sys cache).0
        ≡ length cache.entries
  unfolding invalidate_system
  length-invalidate_system sys cache = length-drop_keys (of_system sys) cache.entries
