-- ===== src/Client/Runs/Verified.antt =====
-- packages/client/src/conversation-run.ts: what a projection of a run that is taken satisfies.
use ai_verse_dashboard.Base.{
  [], ◌∷◌, ◌≡◌, ◌≢◌, if◌then◌else◌, sym, ap, ◌∙◌, Bool, true, false, some, ok, check, check-ok,
  arith, bind-ok, ok-injective, Option-cases, inl, inr, Bool-cases,
}
use ai_verse_dashboard.Base.Text.{Text, text, ◌===◌, ===_sound, member}
use ai_verse_dashboard.Protocol.Json.{
  Json, object, null, boolean, number, other_number, string, array,
}
use ai_verse_dashboard.Protocol.Fields.{field, is_text}
use ai_verse_dashboard.Client.Runs.{
  RequiredScope, Run, as_run, required, optional, optional_flag, receipt_of, is_safe_id, is_filled,
  is_asked, invalid_projection, failed, canceled, blocked, paused, recovery_required, running,
  completed, phase, is_completed, require_verified_completion, has_output,
}

-- The run is the one that was asked for.
pub as_run-asked :
    (is_date : Text → Bool) (j : Json) (scope : RequiredScope) (id : Text) (run : Run)
    → as_run is_date j scope (some id) ≡ ok run
    → run.run_id ≡ id
unfolding as_run is_asked
as_run-asked is_date null scope id run h = absurd (cc h)
as_run-asked is_date (boolean b) scope id run h = absurd (cc h)
as_run-asked is_date (number n) scope id run h = absurd (cc h)
as_run-asked is_date (other_number t) scope id run h = absurd (cc h)
as_run-asked is_date (string t) scope id run h = absurd (cc h)
as_run-asked is_date (array es) scope id run h = absurd (cc h)
as_run-asked is_date (object ms) scope id run h =
    let (run_id, _, h₁) =
      bind-ok (required invalid_projection is_safe_id (field (text "runId") ms)) _ run h in
    let (_, _, h₂) =
      bind-ok (required invalid_projection is_safe_id (field (text "sessionId") ms)) _ run h₁ in
    let (_, _, h₃) =
      bind-ok (required invalid_projection is_filled (field (text "status") ms)) _ run h₂ in
    let (_, _, h₄) =
      bind-ok
        (required invalid_projection (is_text scope.workspace_id) (field (text "workspaceId") ms)) _
        run h₃ in
    let (u, asked, h₅) = bind-ok (check (is_asked (some id) run_id) invalid_projection) _ run h₄ in
    let (_, _, h₆) =
      bind-ok (required invalid_projection is_filled (field (text "systemId") ms)) _ run h₅ in
    let (_, _, h₇) =
      bind-ok
        (required invalid_projection (is_text (text "canonical-gateway"))
          (field (text "source") ms))
        _ run h₆ in
    let (_, _, h₈) =
      bind-ok (optional invalid_projection (λ s. true) (field (text "output") ms)) _ run h₇ in
    let (_, _, h₉) = bind-ok (optional_flag (field (text "outputTruncated") ms)) _ run h₈ in
    let (_, _, made) = bind-ok (receipt_of is_date ms) _ run h₉ in
    sym (ap (λ r. r.run_id) (ok-injective _ run made)) ∙ ===_sound run_id id (check-ok _ _ u asked)

other_phase :
    (a b c d e : Bool)
    → (if a
        then failed
        else if b
        then canceled
        else if c
        then blocked
        else if d
        then paused
        else if e
        then recovery_required
        else running)
      ≢ completed
other_phase true b c d e h = cc
other_phase false true c d e h = cc
other_phase false false true d e h = cc
other_phase false false false true e h = cc
other_phase false false false false true h = cc
other_phase false false false false false h = cc

pub phase-completed : (status : Text) → phase status ≡ completed → is_completed status ≡ true
unfolding phase
phase-completed status h = elim (Bool-cases (is_completed status)) [
  | inl e ↦ e
  | inr e ↦ absurd (
      other_phase (status === text "failed") (status === text "canceled")
        (member status (text "blocked" ∷ text "budget_limited" ∷ text "parked" ∷ []))
        (member status (text "paused" ∷ text "paused_no_progress" ∷ []))
        (status === text "paused_recovery_required") (rw (phase, e) at h))
]

pub verified_output :
    (run : Run)
    → require_verified_completion run ≡ ok tt
    → is_completed run.status ≡ true
    → (out : Text) × (run.output ≡ some out) × (run.output_truncated ≡ false)
unfolding require_verified_completion has_output
verified_output run h e = elim (Option-cases run.output) [
  | inl missing ↦ absurd (ground arith)
  | inr (out, found) ↦ (out, found, ground arith)
]
