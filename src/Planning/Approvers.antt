-- ===== src/Planning/Approvers.antt =====
-- The approver of a strategic plan, over the handlers of
-- services/planning/internal/handler/handler.go.
use mathlib.Core.Path.{subst}
use obvious.Base.{
  ℕ, ◌≡◌, ◌≢◌, refl, sym, String, Bool-cases, inl, inr, ◌⊎◌, Option, none, List, [], ◌∷◌, str_eq,
  str_eq_iff, arith, All,
}
use obvious.Base.Table
use obvious.Base.Table.{Table}
use obvious.Planning.Annual.{draft, approved, active, Result, ok, err}
use obvious.Planning.Strategic.{
  StrategicPlan, UpdateStrategicPlanRequest, CreateStrategicPlanRequest, new_strategic_plan,
}
use obvious.Planning.Strategic
use obvious.Planning.Repository.{create-All, update-All, get-All}
use obvious.Planning.Stores.{Stores, new, strategic_row, strategic_repository}
use obvious.Planning.Handler.{
  Body, decoded, malformed, Request, Change, changed, transition, patch, server_error, modify, make,
  made,
}
use obvious.Planning.Modify.{modify-cases, stored-store}
use obvious.Planning.Service.{
  Approving, approving, create_strategic_plan, update_strategic_plan, approve_strategic_plan,
  activate_strategic_plan, archive_strategic_plan,
}
use obvious.Planning.Actions.{
  Action, strategic_create, strategic_update, strategic_approve, strategic_activate,
  strategic_archive, annual_create, annual_update, annual_approve, annual_activate, annual_archive,
  map_create, map_update, calendar_create, calendar_update, perform, perform_all,
}

-- A plan that is approved or active names who approved it and when, and one that was never
-- approved names nobody.
pub record Signed (p : StrategicPlan) : Type 0 where
  pub in_force :
      (p.status ≡ approved) ⊎ (p.status ≡ active) → (p.approved_by ≢ "") × (p.approved_at ≢ none)
  pub in_draft : p.status ≡ draft → (p.approved_by ≡ "") × (p.approved_at ≡ none)

named-Signed :
    (now : ℕ) (by : String) (a : Option ℕ) (p q : StrategicPlan)
    → by ≢ ""
    → Signed p
    → transition (Strategic.approve now by a p) ≡ changed q
    → Signed q
unfolding Strategic.approve
named-Signed now by a p q given h e = record {
  in_force = λ s. ground (arith, e, s);
  in_draft = λ s. ground (arith, e, s);
}

approve-Signed :
    (now : ℕ) (body : Body Approving) (p q : StrategicPlan)
    → Signed p
    → approving now body p ≡ changed q
    → Signed q
approve-Signed now (malformed problem) p q h e = cc
approve-Signed now (decoded body) p q h e = elim (Bool-cases (str_eq body.approved_by "")) [
  | inl empty ↦ absurd (ground (arith, e, empty))
  | inr given ↦
      named-Signed now body.approved_by body.approval_id p q
        (λ none_given. ground (arith, given, none_given, str_eq_iff body.approved_by "")) h
        (rw given at e)
]

activate-Signed :
    (now : ℕ) (p q : StrategicPlan)
    → Signed p
    → transition (Strategic.activate now p) ≡ changed q
    → Signed q
unfolding Strategic.activate
activate-Signed now p q h e = record {
  in_force = λ s. ground (arith, e, s, h.in_force);
  in_draft = λ s. ground (arith, e, s);
}

archive-Signed :
    (now : ℕ) (p q : StrategicPlan)
    → Signed p
    → transition (Strategic.archive now p) ≡ changed q
    → Signed q
unfolding Strategic.archive
archive-Signed now p q h e = record {
  in_force = λ s. ground (arith, e, s);
  in_draft = λ s. ground (arith, e, s);
}

apply-Signed :
    (fresh : ℕ → ℕ) (now : ℕ) (req : UpdateStrategicPlanRequest) (p : StrategicPlan)
    → Signed p
    → Signed (Strategic.apply fresh now req p)
unfolding Strategic.apply
apply-Signed fresh now req p h = record { in_force = h.in_force; in_draft = h.in_draft }

update-Signed :
    (fresh : ℕ → ℕ) (now : ℕ) (body : Body UpdateStrategicPlanRequest) (p q : StrategicPlan)
    → Signed p
    → patch body (Strategic.apply fresh now) p ≡ changed q
    → Signed q
update-Signed fresh now (malformed problem) p q h e = cc
update-Signed fresh now (decoded req) p q h e =
    let same : Strategic.apply fresh now req p ≡ q = ground (arith, e) in
    subst Signed same (apply-Signed fresh now req p h)

new-Signed :
    (fresh : ℕ → ℕ) (id now : ℕ) (req : CreateStrategicPlanRequest) (p : StrategicPlan)
    → new_strategic_plan fresh id now req ≡ ok p
    → Signed p
unfolding new_strategic_plan
new-Signed fresh id now req p e = record {
  in_force = λ s. ground (arith, e, s);
  in_draft = λ s. ground (arith, e, s);
}

module _ (parse : String → Option ℕ) where
  modify-Signed :
      (missing : String) (req : Request) (change : StrategicPlan → Change StrategicPlan)
      (s : Table StrategicPlan)
      → ((p q : StrategicPlan) → Signed p → change p ≡ changed q → Signed q)
      → All Signed (Table.values s)
      → All Signed (Table.values (modify strategic_repository parse missing req change s).0)
  modify-Signed missing req change s keeps h =
      elim (modify-cases strategic_repository parse missing req change s) [
        | inl same ↦ subst (λ t. All Signed (Table.values t)) (sym same) h
        | inr w ↦
            subst (λ t. All Signed (Table.values t)) (sym w.now)
              (update-All strategic_row Signed s w.new h (
                keeps w.old w.new (get-All strategic_row Signed s w.org w.id w.old h w.was)
                  w.became))
      ]

  made-Signed :
      (s : Table StrategicPlan) (r : Result StrategicPlan)
      → ((p : StrategicPlan) → r ≡ ok p → Signed p)
      → All Signed (Table.values s)
      → All Signed (Table.values (made strategic_repository server_error s r).0)
  made-Signed s (ok p) signed h =
      subst (λ t. All Signed (Table.values t))
        (sym (stored-store server_error p (strategic_repository.add s p)))
        (create-All strategic_row Signed s p h (signed p refl))
  made-Signed s (err e) signed h = h

  make-Signed :
      (fresh : ℕ → ℕ) (id now : ℕ) (body : Body CreateStrategicPlanRequest)
      (s : Table StrategicPlan)
      → All Signed (Table.values s)
      → All Signed (
          Table.values
            (make strategic_repository body (new_strategic_plan fresh id now) server_error s).0)
  unfolding make
  make-Signed fresh id now (malformed problem) s h = h
  make-Signed fresh id now (decoded req) s h =
      made-Signed s (new_strategic_plan fresh id now req) (new-Signed fresh id now req) h

  perform-Signed :
      (c : Action) (st : Stores)
      → All Signed (Table.values st.strategic_plans)
      → All Signed (Table.values (perform parse c st).strategic_plans)
  unfolding perform create_strategic_plan update_strategic_plan approve_strategic_plan
      activate_strategic_plan archive_strategic_plan
  perform-Signed (strategic_create fresh id now body) st h =
      make-Signed fresh id now body st.strategic_plans h
  perform-Signed (strategic_update fresh now req body) st h =
      modify-Signed _ req (patch body (Strategic.apply fresh now)) st.strategic_plans
        (update-Signed fresh now body) h
  perform-Signed (strategic_approve now req body) st h =
      modify-Signed _ req (approving now body) st.strategic_plans (approve-Signed now body) h
  perform-Signed (strategic_activate now req) st h =
      modify-Signed _ req (λ p. transition (Strategic.activate now p)) st.strategic_plans
        (activate-Signed now) h
  perform-Signed (strategic_archive now req) st h =
      modify-Signed _ req (λ p. transition (Strategic.archive now p)) st.strategic_plans
        (archive-Signed now) h
  perform-Signed (annual_create fresh id now body) st h = h
  perform-Signed (annual_update fresh now req body) st h = h
  perform-Signed (annual_approve now req approval) st h = h
  perform-Signed (annual_activate now req) st h = h
  perform-Signed (annual_archive now req) st h = h
  perform-Signed (map_create id now body) st h = h
  perform-Signed (map_update now req body) st h = h
  perform-Signed (calendar_create fresh fresh_in id now body) st h = h
  perform-Signed (calendar_update now req body) st h = h

  actions-Signed :
      (cs : List Action) (st : Stores)
      → All Signed (Table.values st.strategic_plans)
      → All Signed (Table.values (perform_all parse cs st).strategic_plans)
  unfolding perform_all
  actions-Signed [] st h = h
  actions-Signed (c ∷ cs) st h = actions-Signed cs (perform parse c st) (perform-Signed c st h)

-- After any actions from the empty stores, every strategic plan that is approved or active has an
-- approver whose name is not empty and a time of approval, and every plan that is a draft has
-- neither.
pub perform_all-Signed :
    (parse : String → Option ℕ) (cs : List Action)
    → All Signed (Table.values (perform_all parse cs new).strategic_plans)
unfolding Table.values
perform_all-Signed parse cs = actions-Signed parse cs new tt
