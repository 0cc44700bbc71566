-- ===== src/Protocol/Json/Keys.antt =====
-- packages/protocol/src/ids.ts: which keys `checkNoRawRoots` finds, told by where a key stands.
use ai_verse_dashboard.Base.{
  ℕ, suc, ◌+◌, ◌≤◌, ◌≡◌, ◌↔◌, refl, Bool, true, false, Option, none, some, [], ◌∷◌, arith, inl, inr,
  ◌⊎◌, ltb, if◌then◌else◌, Bool-cases, false_of_not, ◌≢◌,
}
use ai_verse_dashboard.Base.Text.{Text, text, ◌===◌}
use ai_verse_dashboard.Protocol.Json.{
  Json, array, object, null, boolean, number, other_number, string, Elements, end, item, Members,
  close, member_of, is_forbidden, is_hit, below_key, below_index, visit, visit_elements,
  visit_members, check_no_raw_roots,
}

-- The key stands in an object that lies under that many arrays and objects.
mutual
  pub data KeyAt (key : Text) : ℕ → Json → Type 0 where
    in_array : {n : ℕ} {es : Elements} → InElements key n es → KeyAt key (suc n) (array es)
    in_object : {n : ℕ} {ms : Members} → InMembers key n ms → KeyAt key n (object ms)

  pub data InElements (key : Text) : ℕ → Elements → Type 0 where
    first : {n : ℕ} {j : Json} {es : Elements} → KeyAt key n j → InElements key n (item j es)
    later : {n : ℕ} {j : Json} {es : Elements} → InElements key n es → InElements key n (item j es)

  pub data InMembers (key : Text) : ℕ → Members → Type 0 where
    here :
        {name : Text} {j : Json} {ms : Members} → key ≡ name → InMembers key 0 (member_of name j ms)
    inside :
        {n : ℕ} {name : Text} {j : Json} {ms : Members}
        → KeyAt key n j
        → InMembers key (suc n) (member_of name j ms)
    beside :
        {n : ℕ} {name : Text} {j : Json} {ms : Members}
        → InMembers key n ms
        → InMembers key n (member_of name j ms)

is_hit-below_key :
    (path key : Text) → is_forbidden key ≡ true → is_hit (some (below_key path key)) ≡ true
unfolding is_hit below_key is_forbidden text ◌===◌
is_hit-below_key [] [] h = cc
is_hit-below_key [] (c ∷ key) h = refl
is_hit-below_key (c ∷ path) key h = refl

module _ (f : Bool) (own hit rest : Option Text) where
  abbrev chosen : Option Text
  chosen = if f then own else if is_hit hit then hit else rest

  chosen-hits :
      (f ≡ true → is_hit own ≡ true)
      → (f ≡ true) ⊎ ((is_hit hit ≡ true) ⊎ (is_hit rest ≡ true))
      → is_hit chosen ≡ true
  chosen-hits h (inl e) = rw (e) (h e)
  chosen-hits h (inr (inl e)) = elim (Bool-cases f) [ inl t ↦ rw t (h t) | inr t ↦ rw (t, e) e ]
  chosen-hits h (inr (inr e)) = elim (Bool-cases f) [ inl t ↦ rw t (h t) | inr t ↦ ground arith ]

  chosen-cases : is_hit chosen ≡ true → (f ≡ true) ⊎ ((is_hit hit ≡ true) ⊎ (is_hit rest ≡ true))
  chosen-cases h = elim (Bool-cases f) [
    | inl t ↦ inl t
    | inr t ↦ elim (Bool-cases (is_hit hit)) [
      | inl u ↦ inr (inl u)
      | inr u ↦ inr (inr (rw (t, u) at h))
    ]
  ]

mutual
  unfolding visit is_hit

  visit-hits :
      (path : Text) (depth : ℕ) {key : Text} {n : ℕ} {j : Json}
      → KeyAt key n j
      → depth + n ≤ 8
      → is_forbidden key ≡ true
      → is_hit (visit path depth j) ≡ true
  visit-hits path depth (in_array {n} {es} w) h f =
      ground (arith, elements-hit path depth 0 w (omega arith) f)
  visit-hits path depth (in_object w) h f = ground (arith, members-hit path depth w h f)

  elements-hit :
      (path : Text) (depth i : ℕ) {key : Text} {n : ℕ} {es : Elements}
      → InElements key n es
      → depth + 1 + n ≤ 8
      → is_forbidden key ≡ true
      → is_hit (visit_elements path depth i es) ≡ true
  elements-hit path depth i (first w) h f =
      ground (arith, visit-hits (below_index path i) (depth + 1) w h f)
  elements-hit path depth i (later w) h f = ground (arith, elements-hit path depth (i + 1) w h f)

  members-hit :
      (path : Text) (depth : ℕ) {key : Text} {n : ℕ} {ms : Members}
      → InMembers key n ms
      → depth + n ≤ 8
      → is_forbidden key ≡ true
      → is_hit (visit_members path depth ms) ≡ true
  members-hit path depth (here {name} {j} {ms} e) h f =
      chosen-hits (is_forbidden name) (some (below_key path name))
        (visit (below_key path name) (depth + 1) j) (visit_members path depth ms)
        (is_hit-below_key path name) (inl (rw e at f))
  members-hit path depth (inside {n} {name} {j} {ms} w) h f =
      chosen-hits (is_forbidden name) (some (below_key path name))
        (visit (below_key path name) (depth + 1) j) (visit_members path depth ms)
        (is_hit-below_key path name)
        (inr (inl (visit-hits (below_key path name) (depth + 1) w (omega arith) f)))
  members-hit path depth (beside {n} {name} {j} {ms} w) h f =
      chosen-hits (is_forbidden name) (some (below_key path name))
        (visit (below_key path name) (depth + 1) j) (visit_members path depth ms)
        (is_hit-below_key path name) (inr (inr (members-hit path depth w h f)))

hit_not_none : (o : Option Text) → is_hit o ≡ true → (if is_hit o then o else none) ≢ none
unfolding is_hit
hit_not_none none h e = cc
hit_not_none (some []) h e = cc
hit_not_none (some (c ∷ s)) h e = cc

-- A forbidden key at a depth that the search reaches from `depth`.
abbrev Seen : ℕ → ((key : Text) → ℕ → Type 0) → Type 0
Seen depth At = (key : Text) × (n : ℕ) × (At key n) × (depth + n ≤ 8) × (is_forbidden key ≡ true)

mutual
  unfolding visit is_hit

  visit-finds :
      (path : Text) (depth : ℕ) (j : Json)
      → is_hit (visit path depth j) ≡ true
      → Seen depth (λ key n. KeyAt key n j)
  visit-finds path depth null h = absurd (cc h)
  visit-finds path depth (boolean b) h = absurd (cc h)
  visit-finds path depth (number n) h = absurd (cc h)
  visit-finds path depth (other_number t) h = absurd (cc h)
  visit-finds path depth (string t) h = absurd (cc h)
  visit-finds path depth (array es) h = elim (Bool-cases (ltb 8 depth)) [
    | inl deep ↦ absurd (ground arith)
    | inr near ↦
        let (key, n, at, low, bad) = elements-find path depth 0 es (ground arith) (rw near at h) in
        (key, suc n, in_array at, omega arith, bad)
  ]
  visit-finds path depth (object ms) h = elim (Bool-cases (ltb 8 depth)) [
    | inl deep ↦ absurd (ground arith)
    | inr near ↦
        let (key, n, at, low, bad) = members-find path depth ms (ground arith) (rw near at h) in
        (key, n, in_object at, low, bad)
  ]

  elements-find :
      (path : Text) (depth i : ℕ) (es : Elements)
      → depth ≤ 8
      → is_hit (visit_elements path depth i es) ≡ true
      → Seen (depth + 1) (λ key n. InElements key n es)
  elements-find path depth i end near h = absurd (cc h)
  elements-find path depth i (item j es) near h =
      elim (Bool-cases (is_hit (visit (below_index path i) (depth + 1) j))) [
        | inl yes_hit ↦
            let (key, n, at, low, bad) = visit-finds (below_index path i) (depth + 1) j yes_hit in
            (key, n, first at, low, bad)
        | inr no_hit ↦
            let (key, n, at, low, bad) =
              elements-find path depth (i + 1) es near (rw no_hit at h) in
            (key, n, later at, low, bad)
      ]

  members-find :
      (path : Text) (depth : ℕ) (ms : Members)
      → depth ≤ 8
      → is_hit (visit_members path depth ms) ≡ true
      → Seen depth (λ key n. InMembers key n ms)
  members-find path depth close near h = absurd (cc h)
  members-find path depth (member_of name j ms) near h =
      elim (chosen-cases (is_forbidden name) (some (below_key path name))
        (visit (below_key path name) (depth + 1) j) (visit_members path depth ms) h) [
          | inl bad ↦ (name, 0, here refl, omega arith, bad)
          | inr (inl hit) ↦
              let (key, n, at, low, bad) = visit-finds (below_key path name) (depth + 1) j hit in
              (key, suc n, inside at, omega arith, bad)
          | inr (inr hit) ↦
              let (key, n, at, low, bad) = members-find path depth ms near hit in
              (key, n, beside at, low, bad)
        ]

-- The params pass the check exactly if no forbidden key stands in an object under eight arrays and
-- objects or fewer.
pub check_no_raw_roots_lem :
    (params : Json)
    → (check_no_raw_roots params ≡ none)
      ↔ ((key : Text) (n : ℕ) → KeyAt key n params → n ≤ 8 → is_forbidden key ≡ false)
unfolding check_no_raw_roots
check_no_raw_roots_lem params = (
  λ h key n at low.
      false_of_not
        (λ bad. absurd (hit_not_none (visit [] 0 params) (visit-hits [] 0 at (omega arith) bad) h)),
  λ clear. elim (Bool-cases (is_hit (visit [] 0 params))) [
    | inl hit ↦
        let (key, n, at, low, bad) = visit-finds [] 0 params hit in
        absurd (cc (clear key n at (omega arith), bad))
    | inr miss ↦ rw miss refl
  ],
)
