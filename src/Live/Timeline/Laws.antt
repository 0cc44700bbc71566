-- ===== src/Live/Timeline/Laws.antt =====
-- What every normalised entry satisfies.
use ai_verse_dashboard.Base.{
  ◌≡◌, refl, ◌≤◌, ◌<◌, Bool, true, Option, none, some, [], ◌∷◌, arith, length, length-take, Ensures,
  Ensures-bind, Ensures-any, ltb, inl, inr, Bool-cases,
}
use ai_verse_dashboard.Base.Text.{Text}
use ai_verse_dashboard.Protocol.Ids.{is_record_id}
use ai_verse_dashboard.Live.Timeline.{
  Value, str, RawRef, object, RawEntry, Scope, Ref, TimelineEntry, normalize_timeline_entry,
  check_id, check_kind, check_role, check_body, check_ref,
}

abbrev pub BoundedRef : Option Ref → Type 0
BoundedRef none = Unit
BoundedRef (some r) = (length r.kind ≤ 64) × (length r.id ≤ 128)

pub record IsNormal (scope : Scope) (e : TimelineEntry) : Type 0 where
  pub id : is_record_id e.id ≡ true
  pub system_id : e.system_id ≡ scope.system_id
  pub workspace_id : e.workspace_id ≡ scope.workspace_id
  pub session_id : e.session_id ≡ scope.session_id
  pub nonempty : 0 < length e.body
  pub bounded : length e.body ≤ 8192
  pub ref : BoundedRef e.ref

check_id-Ensures : (v : Value) → Ensures (λ s. is_record_id s ≡ true) (check_id v)
unfolding check_id
check_id-Ensures (str t) = elim (Bool-cases (is_record_id t)) [ inl e ↦ rw e e | inr e ↦ rw e tt ]
check_id-Ensures _ = tt

abbrev BoundedBody : Text → Type 0
BoundedBody s = (0 < length s) × (length s ≤ 8192)

check_body-Ensures : (v : Value) → Ensures BoundedBody (check_body v)
unfolding check_body
check_body-Ensures (str []) = tt
check_body-Ensures (str (c ∷ t)) = elim (Bool-cases (ltb 8192 (length (c ∷ t)))) [
  | inl e ↦ rw e tt
  | inr e ↦ rw e (omega arith, ground arith)
]
check_body-Ensures _ = tt

check_ref-Ensures : (r : RawRef) → Ensures BoundedRef (check_ref r)
unfolding check_ref
check_ref-Ensures (object (str k) (str i)) =
    (omega (arith, length-take 64 k), omega (arith, length-take 128 i))
check_ref-Ensures _ = tt

-- Whatever the record was, an entry that is accepted carries the scope that it was normalised for,
-- a valid id, a body of 1 to 8192 code units and a bounded reference.
pub normalize_timeline_entry-IsNormal :
    (is_date : Text → Bool) (now : Text) (scope : Scope) (raw : RawEntry)
    → Ensures (IsNormal scope) (normalize_timeline_entry is_date now scope raw)
unfolding normalize_timeline_entry
normalize_timeline_entry-IsNormal is_date now scope raw =
    Ensures-bind (λ s. is_record_id s ≡ true) (IsNormal scope) (check_id raw.id) _
      (check_id-Ensures raw.id)
      λ id id_ok.
        Ensures-bind (λ _. Unit {0}) (IsNormal scope) (check_kind raw.kind) _
          (Ensures-any (check_kind raw.kind))
          λ kind _.
            Ensures-bind (λ _. Unit {0}) (IsNormal scope) (check_role raw.role) _
              (Ensures-any (check_role raw.role))
              λ role _.
                Ensures-bind BoundedBody (IsNormal scope) (check_body raw.body) _
                  (check_body-Ensures raw.body)
                  λ body body_ok.
                    Ensures-bind BoundedRef (IsNormal scope) (check_ref raw.ref) _
                      (check_ref-Ensures raw.ref)
                      λ ref ref_ok. record {
                        id = id_ok;
                        system_id = refl;
                        workspace_id = refl;
                        session_id = refl;
                        nonempty = body_ok.0;
                        bounded = body_ok.1;
                        ref = ref_ok;
                      }
