-- ===== src/ControlFramework/Transitions.antt =====
-- How the rows of assessments of services/control-framework/internal/repository/postgres.go move
-- along the transitions of internal/domain/types.go.
use mathlib.Core.Path.{subst}
use obvious.Base.{
  ℕ, ◌≡◌, ◌≢◌, refl, sym, ap, ◌∙◌, Bool, true, Bool-cases, inl, inr, ◌⊎◌, some, List, [], ◌∷◌, ◌++◌,
  if◌then◌else◌, ◌==◌, filter, All, arith,
}
use obvious.ControlFramework.Domain.{
  AssessmentStatus, not_started, in_progress, assessed, remediation, same_status, can_transition_to,
  ControlAssessment, AssessControlRequest,
}
use obvious.ControlFramework.Repository.{first, moved, update_where}

-- The moves that the status diagram allows.
infix 40 ◌⟶◌
pub data ◌⟶◌ : AssessmentStatus → AssessmentStatus → Type 0 where
  begin : not_started ⟶ in_progress
  assess : in_progress ⟶ assessed
  remedy_early : in_progress ⟶ remediation
  remedy : assessed ⟶ remediation
  reopen : assessed ⟶ in_progress
  resume : remediation ⟶ in_progress
  reassess : remediation ⟶ assessed

ruleset moves = (begin, assess, remedy_early, remedy, reopen, resume, reassess)

-- A status stays or makes one move.
abbrev pub AtMostOne : AssessmentStatus → AssessmentStatus → Type 0
AtMostOne s u = (s ≡ u) ⊎ (s ⟶ u)

-- Of two lists of rows, each row of the first stands at its place in the second, for the same
-- engagement, control and organisation, with a status that makes one move at most. The second may
-- have one row more, of a status that makes at most one move from not_started.
pub data Moved : List ControlAssessment → List ControlAssessment → Type 0 where
  same_rows : Moved [] []
  new_row : {y : ControlAssessment} → AtMostOne not_started y.status → Moved [] (y ∷ [])
  row :
      {x y : ControlAssessment} {xs ys : List ControlAssessment}
      → y.id ≡ x.id
      → y.engagement_id ≡ x.engagement_id
      → y.control_id ≡ x.control_id
      → y.org_id ≡ x.org_id
      → AtMostOne x.status y.status
      → Moved xs ys
      → Moved (x ∷ xs) (y ∷ ys)

pub Moved-refl : (xs : List ControlAssessment) → Moved xs xs
Moved-refl [] = same_rows
Moved-refl (x ∷ xs) = row refl refl refl refl (inl refl) (Moved-refl xs)

pub Moved-append :
    (xs : List ControlAssessment) (new : ControlAssessment)
    → new.status ≡ not_started
    → Moved xs (xs ++ new ∷ [])
Moved-append [] new e = new_row (inl (sym e))
Moved-append (x ∷ xs) new e = row refl refl refl refl (inl refl) (Moved-append xs new e)

-- Every row has the status that its ID stands for.
abbrev pub Labelled : (ℕ → AssessmentStatus) → List ControlAssessment → Type 0
Labelled label rows = All (λ (a : ControlAssessment). a.status ≡ label a.id) rows

abbrev pub relabelled : ℕ → AssessmentStatus → (ℕ → AssessmentStatus) → ℕ → AssessmentStatus
relabelled id s label k = if k == id then s else label k

pub update-Labelled :
    (label : ℕ → AssessmentStatus) (id now : ℕ) (req : AssessControlRequest)
    (rows : List ControlAssessment)
    → Labelled label rows
    → Labelled (relabelled id req.status label) (update_where id (moved now req) rows)
unfolding update_where
update-Labelled label id now req [] h = tt
update-Labelled label id now req (a ∷ rows) h = elim (Bool-cases (a.id == id)) [
  | inl same ↦ rw same (ground (arith, same), update-Labelled label id now req rows h.1)
  | inr other ↦ rw other (ground (arith, other, h.0), update-Labelled label id now req rows h.1)
]

pub append-Labelled :
    (label : ℕ → AssessmentStatus) (new : ControlAssessment) (rows : List ControlAssessment)
    → All (λ (a : ControlAssessment). a.id ≢ new.id) rows
    → Labelled label rows
    → Labelled (relabelled new.id new.status label) (rows ++ (new ∷ []))
append-Labelled label new [] fresh h = (ground arith, tt)
append-Labelled label new (a ∷ rows) fresh h =
    (ground (arith, fresh.0, h.0), append-Labelled label new rows fresh.1 h.1)

updated-AtMostOne :
    (label : ℕ → AssessmentStatus) (id now : ℕ) (req : AssessControlRequest) (a : ControlAssessment)
    → a.status ≡ label a.id
    → AtMostOne (label id) req.status
    → AtMostOne a.status (if a.id == id then moved now req a else a).status
updated-AtMostOne label id now req a e r = elim (Bool-cases (a.id == id)) [
  | inl same ↦
      let at_id : a.id ≡ id = ground (arith, same) in
      rw same (subst (λ s. AtMostOne s req.status) (sym (e ∙ ap label at_id)) r)
  | inr other ↦ rw other (inl refl)
]

-- A move of the rows of an ID, and the same after a row is created.
pub update-Moved :
    (label : ℕ → AssessmentStatus) (id now : ℕ) (req : AssessControlRequest)
    (rows : List ControlAssessment)
    → Labelled label rows
    → AtMostOne (label id) req.status
    → Moved rows (update_where id (moved now req) rows)
unfolding update_where
update-Moved label id now req [] h r = same_rows
update-Moved label id now req (a ∷ rows) h r =
    row (ground arith) (ground arith) (ground arith) (ground arith)
      (updated-AtMostOne label id now req a h.0 r) (update-Moved label id now req rows h.1 r)

pub update_appended-Moved :
    (label : ℕ → AssessmentStatus) (id now : ℕ) (req : AssessControlRequest)
    (rows : List ControlAssessment) (new : ControlAssessment)
    → new.status ≡ not_started
    → Labelled label (rows ++ new ∷ [])
    → AtMostOne (label id) req.status
    → Moved rows (update_where id (moved now req) (rows ++ new ∷ []))
unfolding update_where
update_appended-Moved label id now req [] new e h r = new_row (
    subst (λ s. AtMostOne s (if new.id == id then moved now req new else new).status) e
      (updated-AtMostOne label id now req new h.0 r))
update_appended-Moved label id now req (a ∷ rows) new e h r =
    row (ground arith) (ground arith) (ground arith) (ground arith)
      (updated-AtMostOne label id now req a h.0 r)
      (update_appended-Moved label id now req rows new e h.1 r)

pub first-Labelled :
    (label : ℕ → AssessmentStatus) (p : ControlAssessment → Bool) (rows : List ControlAssessment)
    (a : ControlAssessment)
    → Labelled label rows
    → first (filter p rows) ≡ some a
    → a.status ≡ label a.id
first-Labelled label p [] a h e = cc
first-Labelled label p (b ∷ rows) a h e = elim (Bool-cases (p b)) [
  | inl holds ↦
      let same : b ≡ a = ground (arith, e, holds) in subst (λ c. c.status ≡ label c.id) same h.0
  | inr fails ↦ first-Labelled label p rows a h.1 (rw fails at e)
]

same_status-eq : (s u : AssessmentStatus) → same_status s u ≡ true → s ≡ u
same_status-eq s u e = ground arith

can_transition_to-moves : (s u : AssessmentStatus) → can_transition_to s u ≡ true → s ⟶ u
unfolding can_transition_to
can_transition_to-moves s u e = grind (arith, moves)

pub allowed-AtMostOne :
    (s u : AssessmentStatus)
    → (same_status s u ≡ true) ⊎ (can_transition_to s u ≡ true)
    → AtMostOne s u
allowed-AtMostOne s u (inl same) = inl (same_status-eq s u same)
allowed-AtMostOne s u (inr step) = inr (can_transition_to-moves s u step)
