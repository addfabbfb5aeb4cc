-- ===== src/ControlFramework/Assessing.antt =====
-- Calls of AssessControl in services/control-framework/internal/service/service.go, one after
-- another.
use obvious.Base.{
  ℕ, ◌≡◌, ◌≢◌, refl, sym, String, Bool, true, not, ◌||◌, Bool-cases, inl, inr, ◌⊎◌, Option, none,
  some, List, [], ◌∷◌, ◌++◌, ◌==◌, filter, All, arith,
}
use mathlib.Core.Path.{subst}
use obvious.ControlFramework.Domain.{
  AssessmentStatus, not_started, same_status, can_transition_to, ControlAssessment,
  AssessControlRequest,
}
use obvious.ControlFramework.Repository.{
  Tables, first, moved, update_where, is_of, assessment_row, got_or_created,
  get_or_create_assessment, update_assessment_status,
}
use obvious.ControlFramework.Service.{
  Failures, is_known, updated, transitioned, assessing, assess_control,
}
use obvious.ControlFramework.Transitions.{
  AtMostOne, Moved, Moved-refl, Moved-append, Labelled, relabelled, update-Labelled,
  append-Labelled, update-Moved, update_appended-Moved, first-Labelled, allowed-AtMostOne,
}

-- The arguments of a call; `id` is what the database would give a new row.
pub record Call : Type 0 where
  pub id : ℕ
  pub now : ℕ
  pub failures : Failures
  pub control : ℕ
  pub org : ℕ
  pub req : AssessControlRequest

-- The statuses of the rows are told by their IDs.
record Coherent (t : Tables) : Type 0 where
  label : ℕ → AssessmentStatus
  labelled : Labelled label t.assessments

-- A call leaves the table coherent and moves its rows as `Moved` says.
record Step (before : List ControlAssessment) (t : Tables) : Type 0 where
  coherent : Coherent t
  advanced : Moved before t.assessments

-- The table before an update, where a row may just have been created.
record Ready (before : List ControlAssessment) (label : ℕ → AssessmentStatus) (t : Tables)
    : Type 0 where
  labelled : Labelled label t.assessments
  kept : Moved before t.assessments
  changed :
      (id now : ℕ) (req : AssessControlRequest)
      → AtMostOne (label id) req.status
      → Moved before (update_where id (moved now req) t.assessments)

same-Step : (t : Tables) → Coherent t → Step t.assessments t
same-Step t c = record { coherent = c; advanced = Moved-refl t.assessments }

kept-Step :
    (before : List ControlAssessment) (label : ℕ → AssessmentStatus) (t : Tables)
    → Ready before label t
    → Step before t
kept-Step before label t r = record {
  coherent = record { label = label; labelled = r.labelled };
  advanced = r.kept;
}

old-Ready :
    (label : ℕ → AssessmentStatus) (t : Tables)
    → Labelled label t.assessments
    → Ready t.assessments label t
old-Ready label t h = record {
  labelled = h;
  kept = Moved-refl t.assessments;
  changed = λ id now req r. update-Moved label id now req t.assessments h r;
}

new-Ready :
    (label : ℕ → AssessmentStatus) (t : Tables) (new : ControlAssessment)
    → new.status ≡ not_started
    → Labelled label (t.assessments ++ new ∷ [])
    → Ready t.assessments label (record t { assessments = t.assessments ++ new ∷ [] })
new-Ready label t new e h = record {
  labelled = h;
  kept = Moved-append t.assessments new e;
  changed = λ id now req r. update_appended-Moved label id now req t.assessments new e h r;
}

either : (a b : Bool) → (a || b) ≡ true → (a ≡ true) ⊎ (b ≡ true)
either a b e = ground (arith, e)

module _ (quote : String → String) where
  abbrev pub assessing_call : Call → Tables → Tables
  assessing_call c t = (assess_control quote c.id c.now c.failures c.control c.org c.req t).0

  unfoldable pub run : List Call → Tables → Tables
  run [] t = t
  run (c ∷ cs) t = run cs (assessing_call c t)

  -- The database gives an ID that no row has.
  abbrev pub FreshIds : List Call → Tables → Type 0
  FreshIds [] t = Unit
  FreshIds (c ∷ cs) t =
      All (λ (a : ControlAssessment). a.id ≢ c.id) t.assessments × FreshIds cs (assessing_call c t)

  updated-Step :
      (before : List ControlAssessment) (now : ℕ) (failure : Option String)
      (req : AssessControlRequest) (id : ℕ) (t : Tables) (label : ℕ → AssessmentStatus)
      → Ready before label t
      → (same_status (label id) req.status ≡ true)
        ⊎ (can_transition_to (label id) req.status ≡ true)
      → Step before (updated quote t failure (update_assessment_status now id req t)).0
  unfolding update_assessment_status
  updated-Step before now (some problem) req id t label r allowed = kept-Step before label t r
  updated-Step before now none req id t label r allowed = record {
    coherent = record {
      label = relabelled id req.status label;
      labelled = update-Labelled label id now req t.assessments r.labelled;
    };
    advanced = r.changed id now req (allowed-AtMostOne (label id) req.status allowed);
  }

  transitioned-Step :
      (before : List ControlAssessment) (now : ℕ) (failure : Option String)
      (req : AssessControlRequest) (t : Tables) (current : ControlAssessment)
      (label : ℕ → AssessmentStatus)
      → Ready before label t
      → current.status ≡ label current.id
      → Step before (transitioned quote now failure req (t, current)).0
  transitioned-Step before now failure req t current label r e =
      elim (Bool-cases
        (same_status current.status req.status || can_transition_to current.status req.status)) [
          | inl allowed ↦ rw allowed (
              updated-Step before now failure req current.id t label r (
                either (same_status (label current.id) req.status)
                  (can_transition_to (label current.id) req.status)
                  (subst (λ s. (same_status s req.status || can_transition_to s req.status) ≡ true)
                    e allowed)))
          | inr forbidden ↦ rw forbidden (kept-Step before label t r)
        ]

  got-Step :
      (now : ℕ) (failure : Option String) (req : AssessControlRequest) (t : Tables)
      (new : ControlAssessment) (p : ControlAssessment → Bool) (o : Option ControlAssessment)
      → new.status ≡ not_started
      → All (λ (a : ControlAssessment). a.id ≢ new.id) t.assessments
      → Coherent t
      → first (filter p t.assessments) ≡ o
      → Step t.assessments (transitioned quote now failure req (got_or_created t new o)).0
  got-Step now failure req t new p (some a) begins fresh c e =
      transitioned-Step t.assessments now failure req t a c.label (old-Ready c.label t c.labelled)
        (first-Labelled c.label p t.assessments a c.labelled e)
  got-Step now failure req t new p none begins fresh c e =
      let t' : Tables = record t { assessments = t.assessments ++ (new ∷ []) } in
      let label = relabelled new.id new.status c.label in
      let h = append-Labelled c.label new t.assessments fresh c.labelled in
      transitioned-Step t.assessments now failure req t' new label (new-Ready label t new begins h)
        (ground arith)

  assessing-Step :
      (c : Call) (t : Tables) (getting : Option String)
      → All (λ (a : ControlAssessment). a.id ≢ c.id) t.assessments
      → Coherent t
      → Step t.assessments
          (assessing quote c.now c.failures c.req t getting
            (get_or_create_assessment c.id c.now c.req.engagement_id c.control c.org t)).0
  unfolding get_or_create_assessment
  assessing-Step c t (some problem) fresh k = same-Step t k
  assessing-Step c t none fresh k =
      got-Step c.now c.failures.updating c.req t
        (assessment_row c.id c.now c.req.engagement_id c.control c.org)
        (is_of c.req.engagement_id c.control)
        (first (filter (is_of c.req.engagement_id c.control) t.assessments)) refl fresh k refl

  call-Step :
      (c : Call) (t : Tables)
      → All (λ (a : ControlAssessment). a.id ≢ c.id) t.assessments
      → Coherent t
      → Step t.assessments (assessing_call c t)
  unfolding assess_control
  call-Step c t fresh k = elim (Bool-cases (c.req.engagement_id == 0)) [
    | inl missing ↦ rw (assessing_call, missing) (same-Step t k)
    | inr given ↦
        rw (assessing_call, given)
          (elim (Bool-cases (not (is_known c.req.status))) [
            | inl unknown ↦ rw unknown (same-Step t k)
            | inr known ↦ rw known (assessing-Step c t c.failures.getting fresh k)
          ])
  ]

  run-Coherent : (cs : List Call) (t : Tables) → FreshIds cs t → Coherent t → Coherent (run cs t)
  unfolding run
  run-Coherent [] t fresh k = k
  run-Coherent (c ∷ cs) t fresh k =
      run-Coherent cs (assessing_call c t) fresh.1 (call-Step c t fresh.0 k).coherent

-- A call of AssessControl, after any calls on an empty table, whichever of them fail, loses no
-- assessment: each stands at its place, for the same engagement, control and organisation, and its
-- status stays or makes a single move of the status diagram. At most one assessment is new, and it
-- is not started or one move further. It is provided that the database gives every new row an ID
-- that no row has.
pub run_advances :
    (quote : String → String) (cs : List Call) (c : Call) (t : Tables)
    → t.assessments ≡ []
    → FreshIds quote cs t
    → All (λ (a : ControlAssessment). a.id ≢ c.id) (run quote cs t).assessments
    → Moved (run quote cs t).assessments (assessing_call quote c (run quote cs t)).assessments
run_advances quote cs c t empty fresh fresh_last =
    let start : Coherent t = record {
      label = λ k. not_started;
      labelled = subst (Labelled (λ k. not_started)) (sym empty) tt;
    } in
    let before = run-Coherent quote cs t fresh start in
    (call-Step quote c (run quote cs t) fresh_last before).advanced
