-- ===== src/ControlFramework/Repository.antt =====
-- The tables of frameworks, controls and assessments behind PostgresRepository in
-- services/control-framework/internal/repository/postgres.go, as lists of their rows; the IDs, the time
-- and the order that the database chooses are arguments.
use obvious.Base.{
  ℕ, Bool, ◌&&◌, Option, none, some, List, [], ◌∷◌, ◌++◌, if◌then◌else◌, ◌==◌, filter,
}
use obvious.ControlFramework.Domain.{
  not_started, Framework, CreateFrameworkRequest, ControlAssessment, AssessControlRequest,
}
use obvious.ControlFramework.Controls.{Control}

pub record Tables : Type 0 where
  pub frameworks : List Framework
  pub controls : List Control
  pub assessments : List ControlAssessment

abbrev pub first {ℓ} : {A : Type ℓ} → List A → Option A
first [] = none
first (x ∷ xs) = some x

-- `by_name_version` is the ORDER BY.
unfoldable pub list_frameworks : (List Framework → List Framework) → ℕ → Tables → List Framework
list_frameworks by_name_version org t = by_name_version (filter (λ f. f.org_id == org) t.frameworks)

unfoldable pub get_framework : ℕ → Tables → Option Framework
get_framework id t = first (filter (λ f. f.id == id) t.frameworks)

abbrev pub framework_row : ℕ → ℕ → ℕ → CreateFrameworkRequest → Framework
framework_row id now org req = record {
  id = id;
  org_id = org;
  name = req.name;
  version = req.version;
  authority = req.authority;
  description = req.description;
  is_published = req.is_published;
  metadata = req.metadata;
  created_at = now;
  updated_at = now;
}

unfoldable pub create_framework : ℕ → ℕ → ℕ → CreateFrameworkRequest → Tables → Tables × Framework
create_framework id now org req t = (
  record t { frameworks = t.frameworks ++ (framework_row id now org req ∷ []) },
  framework_row id now org req,
)

abbrev pub is_of : ℕ → ℕ → ControlAssessment → Bool
is_of engagement control a = (a.engagement_id == engagement) && (a.control_id == control)

abbrev pub assessment_row : ℕ → ℕ → ℕ → ℕ → ℕ → ControlAssessment
assessment_row id now engagement control org = record {
  id = id;
  engagement_id = engagement;
  control_id = control;
  org_id = org;
  status = not_started;
  score = none;
  notes = "";
  evidence_ids = [];
  transitioned_at = now;
  created_at = now;
  updated_at = now;
}

abbrev pub got_or_created :
    Tables → ControlAssessment → Option ControlAssessment → Tables × ControlAssessment
got_or_created t new (some a) = (t, a)
got_or_created t new none = (record t { assessments = t.assessments ++ (new ∷ []) }, new)

-- The upsert; a conflict leaves the row as it is, whatever its organisation.
unfoldable pub get_or_create_assessment : ℕ → ℕ → ℕ → ℕ → ℕ → Tables → Tables × ControlAssessment
get_or_create_assessment id now engagement control org t =
    got_or_created t (assessment_row id now engagement control org)
      (first (filter (is_of engagement control) t.assessments))

abbrev pub moved : ℕ → AssessControlRequest → ControlAssessment → ControlAssessment
moved now req a = record a {
  status = req.status;
  score = req.score;
  notes = req.notes;
  evidence_ids = req.evidence_ids;
  transitioned_at = now;
  updated_at = now;
}

unfoldable pub update_where :
    ℕ → (ControlAssessment → ControlAssessment) → List ControlAssessment → List ControlAssessment
update_where id change [] = []
update_where id change (a ∷ rest) =
    (if a.id == id then change a else a) ∷ update_where id change rest

-- The tables, and the row that the UPDATE returns.
unfoldable pub update_assessment_status :
    ℕ → ℕ → AssessControlRequest → Tables → Tables × Option ControlAssessment
unfolding update_where
update_assessment_status now id req t =
    let rows = update_where id (moved now req) t.assessments in
    (record t { assessments = rows }, first (filter (λ a. a.id == id) rows))

unfoldable pub get_assessment : ℕ → ℕ → Tables → Option ControlAssessment
get_assessment engagement control t = first (filter (is_of engagement control) t.assessments)
