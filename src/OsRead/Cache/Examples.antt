-- ===== src/OsRead/Cache/Examples.antt =====
-- The cache on small inputs.
use mathlib.Core.List.{head-eq_of_cons-eq}
use ai_verse_dashboard.Base.{ℕ, ◌≡◌, ◌≢◌, refl, none, some, List, [], ◌∷◌, ok, arith, if◌then◌else◌}
use ai_verse_dashboard.Base.Text.{Text, text, ◌===◌, starts_with}
use ai_verse_dashboard.Base.Map.{lookup, insert, remove}
use ai_verse_dashboard.Protocol.Ids.{is_system_id, is_workspace_id}
use ai_verse_dashboard.Protocol.Scope.{scope_key, join}
use ai_verse_dashboard.OsRead.Cache.{
  DisposableCache, of_system, of_workspace, projection_parts, set, get, put_projection,
  get_projection, invalidate_system, invalidate_workspace,
}
use ai_verse_dashboard.OsRead.Cache.Lookup.{value_of}
use ai_verse_dashboard.OsRead.Cache.Ideal.{
  CacheCall, store, read, drop_system, call, call_all, kept_at, ideal, ideal_all, clock,
  drops_valid,
}
use ai_verse_dashboard.OsRead.Cache.Ideal.Refined.{call_all-refines}
use ai_verse_dashboard.OsRead.Cache.Invalidation.{get-invalidate_system}
use ai_verse_dashboard.OsRead.Cache.Projections.{
  projection_key-injective, get_projection-invalidate_workspace,
}

run : Unit {0}
unfolding text ◌===◌ starts_with lookup insert remove is_system_id is_workspace_id scope_key join
    projection_parts set get put_projection get_projection invalidate_system invalidate_workspace
    call call_all kept_at ideal ideal_all clock drops_valid of_system of_workspace
run = tt

abbrev nothing : DisposableCache ℕ
nothing = record { entries = []; hits = 0; misses = 0 }

abbrev a : Text
a = 97 ∷ []

abbrev b : Text
b = 98 ∷ []

-- a:b and b:b
abbrev key_a : Text
key_a = 97 ∷ 58 ∷ 98 ∷ []

abbrev key_b : Text
key_b = 98 ∷ 58 ∷ 98 ∷ []

a-is_key : scope_key a (b ∷ []) ≡ ok key_a
unfolding run
a-is_key = refl

b-is_key : scope_key b (b ∷ []) ≡ ok key_b
unfolding run
b-is_key = refl

a-ne-b : a ≢ b
a-ne-b e = omega (arith, head-eq_of_cons-eq e)

-- An entry of `a` is read when it is old, and `a` is dropped; then an entry of `b` is read.
abbrev calls : List (CacheCall ℕ)
calls = store a (b ∷ []) 5 3 10 ∷ store b (b ∷ []) 7 50 20 ∷ read a (b ∷ []) 30 ∷ drop_system a ∷ []

call_all-refines_example :
    (get b (b ∷ []) 60 (call_all calls nothing)).0
    ≡ ok (value_of 60 (ideal_all calls (λ s j. none) b key_b))
unfolding run
call_all-refines_example =
    call_all-refines calls 60 b (b ∷ []) key_b
      (
        omega arith,
        refl,
        (omega arith, refl, (omega arith, refl, (omega arith, refl, omega arith))),
      )
      b-is_key

still_there :
    ideal_all calls (λ s j. none) b key_b ≡ some (record { value = 7; at_ms = 20; ttl_ms = 50 })
unfolding run
still_there = refl

get-invalidate_system_example :
    (get b (b ∷ []) 5 (invalidate_system a (set b (b ∷ []) 7 50 0 nothing).1).1).0
    ≡ (if a === b then ok none else (get b (b ∷ []) 5 (set b (b ∷ []) 7 50 0 nothing).1).0)
unfolding run
get-invalidate_system_example =
    get-invalidate_system a b (b ∷ []) 5 (set b (b ∷ []) 7 50 0 nothing).1 key_b refl b-is_key

-- The path is `a:b`.
projection_key-injective_example : (a ≡ a) × (b ≡ b) × (key_a ≡ key_a) × (a ≡ a) × (b ≡ b)
unfolding run
projection_key-injective_example =
    projection_key-injective a a b b key_a key_a a a b b _ refl refl (omega arith) (omega arith)
      (omega arith) (omega arith) (omega arith) (omega arith)

get_projection-invalidate_workspace_example :
    (get_projection a b key_a a b 5
      (invalidate_workspace a b (put_projection a b key_a a b 7 50 0 nothing).1).1).0
    ≡ (get_projection a b key_a a b 5 (put_projection a b key_a a b 7 50 0 nothing).1).0
unfolding run
get_projection-invalidate_workspace_example =
    get_projection-invalidate_workspace a a b b key_a a b 5
      (put_projection a b key_a a b 7 50 0 nothing).1 _ refl refl
      (λ e. omega (arith, head-eq_of_cons-eq e)) refl

-- So a projection survives the invalidation of its own workspace.
projection_survives :
    (get_projection a b key_a a b 5
      (invalidate_workspace a b (put_projection a b key_a a b 7 50 0 nothing).1).1).0
    ≡ ok (some 7)
unfolding run
projection_survives = refl
