-- ===== src/Protocol/Methods/Guard.antt =====
-- packages/protocol/src/methods.ts: what the register of methods and its guard keep apart.
use ai_verse_dashboard.Base.{
  ◌≡◌, ◌↔◌, refl, ap, ◌∙◌, ◌++◌, if◌then◌else◌, Bool, true, false, not, ◌||◌, List, [], ◌∷◌,
  Outcome, ok, err, inl, inr, all, any, and_split, Bool-cases,
}
use ai_verse_dashboard.Base.Text.{Text, text, ◌===◌, member, ===_sound}
use ai_verse_dashboard.Protocol.Methods.{
  ProtocolFault, command_blocked_read_only, unknown_method, query_methods, command_methods,
  protocol_methods, workspace_scoped, is_known_method, is_query_method, is_command_method,
  requires_system, requires_workspace, assert_query_only,
}

-- What holds of every text of a list holds of its members.
all-member :
    (p : Text → Bool) (ts : List Text) (t : Text)
    → all p ts ≡ true
    → member t ts ≡ true
    → p t ≡ true
all-member p [] t every h = absurd (cc h)
all-member p (s ∷ ts) t every h =
    let (first, rest) = and_split (p s) _ every in
    elim (Bool-cases (s === t)) [
      | inl same ↦ rw (← ===_sound s t same) first
      | inr other ↦ all-member p ts t rest (rw other at h)
    ]

any-append : (p : Text → Bool) (xs ys : List Text) → any p (xs ++ ys) ≡ (any p xs || any p ys)
any-append p [] ys = refl
any-append p (x ∷ xs) ys = elim (Bool-cases (p x)) [
  | inl e ↦ rw e refl
  | inr e ↦ rw e (any-append p xs ys)
]

guarded : Bool → Bool → Outcome ProtocolFault (Unit {0})
guarded command known =
    if command then err command_blocked_read_only else if known then ok tt else err unknown_method

-- Over the tests alone: `c` for a command, `q` for a query, `p` for a method of the protocol.
guarded_lem :
    (c q p : Bool)
    → (c ≡ true → (q || p) ≡ false)
    → (guarded c (p || (q || c)) ≡ ok tt) ↔ ((q || p) ≡ true)
unfolding guarded
guarded_lem true q p apart = ((λ e. absurd (cc e)), λ e. absurd (cc (apart refl, e)))
guarded_lem false true true apart = ((λ e. refl), λ e. refl)
guarded_lem false true false apart = ((λ e. refl), λ e. refl)
guarded_lem false false true apart = ((λ e. refl), λ e. refl)
guarded_lem false false false apart = ((λ e. absurd (cc e)), λ e. absurd (cc e))

not-true : {b : Bool} → not b ≡ true → b ≡ false
not-true {b = true} e = absurd (cc e)
not-true {b = false} e = refl

-- A method that asks for a workspace is a known one, asks for a system too, and is no method of the
-- protocol itself.
pub requires_workspace-requires_system :
    (method : Text)
    → requires_workspace method ≡ true
    → (is_known_method method ≡ true)
      × (requires_system method ≡ true)
      × (member method protocol_methods ≡ false)
unfolding text ◌===◌ is_known_method requires_system requires_workspace
requires_workspace-requires_system method h = (
  all-member is_known_method workspace_scoped method refl h,
  all-member requires_system workspace_scoped method refl h,
  not-true (all-member (λ m. not (member m protocol_methods)) workspace_scoped method refl h),
)

command-apart :
    (method : Text)
    → is_command_method method ≡ true
    → (is_query_method method || member method protocol_methods) ≡ false
unfolding text ◌===◌ is_query_method is_command_method
command-apart method h = not-true (
    all-member (λ m. not (is_query_method m || member m protocol_methods)) command_methods method
      refl h)

known_lem :
    (method : Text)
    → is_known_method method
      ≡ (member method protocol_methods || (is_query_method method || is_command_method method))
unfolding is_known_method is_query_method is_command_method
known_lem method =
    any-append (λ s. s === method) protocol_methods (query_methods ++ command_methods)
    ∙ ap (λ b. member method protocol_methods || b)
        (any-append (λ s. s === method) query_methods command_methods)

-- The guard lets a method through exactly if it is a query or one of the two methods of the protocol,
-- so it stops every command.
pub assert_query_only_lem :
    (method : Text)
    → (assert_query_only method ≡ ok tt)
      ↔ ((is_query_method method || member method protocol_methods) ≡ true)
unfolding assert_query_only guarded
assert_query_only_lem method =
    let lemma =
      guarded_lem (is_command_method method) (is_query_method method)
        (member method protocol_methods) (command-apart method) in
    rw (known_lem method) lemma
