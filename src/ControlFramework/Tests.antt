-- ===== src/ControlFramework/Tests.antt =====
-- The theorems on the control framework at one organisation and one assessment.
use obvious.Base.{str_eq_iff, ℕ, ◌≡◌, refl, none, some, [], ◌∷◌, arith}
use obvious.ControlFramework.Domain.{AssessmentStatus, in_progress, assessed, can_transition_to}
use obvious.ControlFramework.Repository.{Tables, get_or_create_assessment, update_assessment_status}
use obvious.ControlFramework.Service.{assess_control}
use obvious.ControlFramework.Context.{Parsing, org_text}
use obvious.ControlFramework.Handlers.{missing_org}
use obvious.ControlFramework.Unreachable.{listing, routed, routed_unauthorized}
use obvious.ControlFramework.Transitions.{Moved}
use obvious.ControlFramework.Assessing.{Call, assessing_call, run, run_advances}

abbrev empty : Tables
empty = record { frameworks = []; controls = []; assessments = [] }

abbrev parsing : Parsing
parsing = record { without_bearer = λ s. none; parse = λ s. some 3 }

routed_unauthorized_example :
    routed parsing "org 3" "" (listing (λ fs. fs) none) empty ≡ (empty, missing_org)
unfolding org_text
routed_unauthorized_example =
    routed_unauthorized parsing "org 3" "" 3 (listing (λ fs. fs) none) empty
      (λ e. let equal = (str_eq_iff "org 3" "").1 e in cc) refl

abbrev call : ℕ → AssessmentStatus → Call
call id status = record {
  id = id;
  now = id;
  failures = record { getting = none; updating = none };
  control = 5;
  org = 3;
  req = record { engagement_id = 9; status = status; score = none; notes = ""; evidence_ids = [] };
}

run_advances_example :
    Moved
      (run (λ s. s) (call 1 in_progress ∷ []) empty).assessments
      (assessing_call
        (λ s. s)
        (call 2 assessed)
        (run (λ s. s) (call 1 in_progress ∷ []) empty)).assessments
unfolding run assess_control get_or_create_assessment update_assessment_status can_transition_to
run_advances_example =
    run_advances (λ s. s) (call 1 in_progress ∷ []) (call 2 assessed) empty refl (tt, tt)
      ((λ e. omega (arith, e)), tt)
