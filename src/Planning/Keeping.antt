-- ===== src/Planning/Keeping.antt =====
-- The changes that the handlers of services/planning/internal/handler/handler.go make keep a row's
-- ID and organisation.
use obvious.Base.{ℕ, ◌≡◌, String, Bool-cases, inl, inr, Option, str_eq, arith}
use obvious.Planning.Annual
use obvious.Planning.Annual.{
  Result, ok, err, not_found, invalid_transition, duplicate_year, invalid, CreateAnnualPlanRequest,
  UpdateAnnualPlanRequest, AnnualPlan,
}
use obvious.Planning.Strategic.{
  StrategicPlan, CreateStrategicPlanRequest, UpdateStrategicPlanRequest,
}
use obvious.Planning.Strategic
use obvious.Planning.Repository.{Repository}
use obvious.Planning.Stores.{strategic_repository}
use obvious.Planning.Handler.{Body, decoded, malformed, changed, transition, patch}
use obvious.Planning.Modify.{Keeping}
use obvious.Planning.Service.{Approving, approving}

module _ {S A : Type 0} (r : Repository S A) where
  pub transition-Keeping :
      (f : A → A × Result (Unit {0}))
      → ((p : A) → (r.row.id_of (f p).0 ≡ r.row.id_of p) × (r.row.org_of (f p).0 ≡ r.row.org_of p))
      → Keeping r (λ p. transition (f p))
  transition-Keeping f same p q e = step (f p) (same p) e
    where
      step :
          (w : A × Result (Unit {0}))
          → (r.row.id_of w.0 ≡ r.row.id_of p) × (r.row.org_of w.0 ≡ r.row.org_of p)
          → transition w ≡ changed q
          → (r.row.id_of q ≡ r.row.id_of p) × (r.row.org_of q ≡ r.row.org_of p)
      step (a, ok x) h e = ground (arith, h, e)
      step (a, err not_found) h e = cc
      step (a, err invalid_transition) h e = cc
      step (a, err duplicate_year) h e = cc
      step (a, err (invalid text)) h e = cc

  pub patch-Keeping :
      {R : Type 0} (body : Body R) (f : R → A → A)
      → ((req : R) (p : A)
          → (r.row.id_of (f req p) ≡ r.row.id_of p) × (r.row.org_of (f req p) ≡ r.row.org_of p))
      → Keeping r (patch body f)
  patch-Keeping (malformed problem) f same p q e = cc
  patch-Keeping (decoded req) f same p q e = ground (arith, same req p, e)

pub strategic_approve-same :
    (now : ℕ) (by : String) (a : Option ℕ) (p : StrategicPlan)
    → let q = (Strategic.approve now by a p).0 in (q.id ≡ p.id) × (q.org_id ≡ p.org_id)
unfolding Strategic.approve
strategic_approve-same now by a p = ground arith

pub strategic_activate-same :
    (now : ℕ) (p : StrategicPlan)
    → let q = (Strategic.activate now p).0 in (q.id ≡ p.id) × (q.org_id ≡ p.org_id)
unfolding Strategic.activate
strategic_activate-same now p = ground arith

pub strategic_archive-same :
    (now : ℕ) (p : StrategicPlan)
    → let q = (Strategic.archive now p).0 in (q.id ≡ p.id) × (q.org_id ≡ p.org_id)
unfolding Strategic.archive
strategic_archive-same now p = ground arith

pub annual_approve-same :
    (now : ℕ) (a : Option ℕ) (p : AnnualPlan)
    → let q = (Annual.approve now a p).0 in (q.id ≡ p.id) × (q.org_id ≡ p.org_id)
unfolding Annual.approve
annual_approve-same now a p = ground arith

pub annual_activate-same :
    (now : ℕ) (p : AnnualPlan)
    → let q = (Annual.activate now p).0 in (q.id ≡ p.id) × (q.org_id ≡ p.org_id)
unfolding Annual.activate
annual_activate-same now p = ground arith

pub annual_archive-same :
    (now : ℕ) (p : AnnualPlan)
    → let q = (Annual.archive now p).0 in (q.id ≡ p.id) × (q.org_id ≡ p.org_id)
unfolding Annual.archive
annual_archive-same now p = ground arith

pub approving-Keeping :
    (now : ℕ) (body : Body Approving) → Keeping strategic_repository (approving now body)
approving-Keeping now (malformed problem) p q e = cc
approving-Keeping now (decoded body) p q e = elim (Bool-cases (str_eq body.approved_by "")) [
  | inl empty ↦ ground (arith, e, empty)
  | inr given ↦
      transition-Keeping strategic_repository
        (Strategic.approve now body.approved_by body.approval_id)
        (strategic_approve-same now body.approved_by body.approval_id) p q (rw given at e)
]
