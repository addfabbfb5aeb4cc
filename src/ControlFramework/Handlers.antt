-- ===== src/ControlFramework/Handlers.antt =====
-- services/control-framework/internal/handlers/frameworks.go, and ListControls, CreateControl
-- and AssessControl of controls.go: each handler takes the tables to new tables and a response.
use obvious.Base.{ℕ, String, Bool, Option, none, some, List, str_eq, if◌then◌else◌, ◌==◌}
use obvious.Base.Int.{ℤ, pos, negsuc}
use obvious.ControlFramework.Domain.{
  Framework, CreateFrameworkRequest, ControlAssessment, AssessControlRequest,
}
use obvious.ControlFramework.Repository.{Tables, list_frameworks, get_framework}
use obvious.ControlFramework.Service.{Result, ok, err, Failures, create_framework, assess_control}
use obvious.ControlFramework.Context.{Context, org_id_from_context}
use obvious.ControlFramework.Controls.{
  Control, CreateControlRequest, ListControlsFilter, PaginatedControls, Database, Inserted,
  inserted, refused, list_controls, create_control,
}

pub data Body (A : Type 0) : Type 0 where
  decoded : A → Body A
  malformed : Body A

pub data Response : Type 0 where
  failure : ℕ → String → Response
  framework_body : ℕ → Framework → Response
  frameworks_body : ℕ → List Framework → Response
  control_body : ℕ → Control → Response
  controls_body : ℕ → PaginatedControls → Response
  assessment_body : ℕ → Option ControlAssessment → Response

abbrev pub missing_org : Response
missing_org = failure 401 "missing org context"

abbrev listed : (List Framework → List Framework) → Tables → Option String → ℕ → Response
listed order t none org = frameworks_body 200 (list_frameworks order org t)
listed order t (some problem) org = failure 500 problem

abbrev listing :
    (List Framework → List Framework) → Tables → Option String → Option ℕ → Tables × Response
listing order t error none = (t, missing_org)
listing order t error (some org) = (t, listed order t error org)

-- `order` is the database's, and `error` the repository's, if it fails.
unfoldable pub list_frameworks_call :
    (List Framework → List Framework) → Option String → Context → Tables → Tables × Response
list_frameworks_call order error ctx t = listing order t error (org_id_from_context ctx)

abbrev shown : Option Framework → Response
shown none = failure 404 "framework not found"
shown (some f) = framework_body 200 f

abbrev getting : Tables → Option String → Option ℕ → Response
getting t error none = failure 400 "invalid framework ID"
getting t none (some id) = shown (get_framework id t)
getting t (some problem) (some id) = failure 500 problem

-- The ID is what uuid.Parse makes of the path.
unfoldable pub get_framework_call : Option String → Option ℕ → Tables → Response
get_framework_call error id t = getting t error id

abbrev created : Tables × Result Framework → Tables × Response
created (t, ok f) = (t, framework_body 201 f)
created (t, err problem) = (t, failure 400 problem)

abbrev creating :
    ℕ → ℕ → Option String → Body CreateFrameworkRequest → Tables → Option ℕ → Tables × Response
creating id now error body t none = (t, missing_org)
creating id now error malformed t (some org) = (t, failure 400 "invalid request body")
creating id now error (decoded req) t (some org) = created (create_framework id now error org req t)

unfoldable pub create_framework_call :
    ℕ → ℕ → Option String → Body CreateFrameworkRequest → Context → Tables → Tables × Response
create_framework_call id now error body ctx t =
    creating id now error body t (org_id_from_context ctx)

-- The query of ListControls: q.Get gives "" for what is missing.
pub record Query : Type 0 where
  pub framework_id : String
  pub domain : String
  pub article_ref : String
  pub search : String
  pub limit : String
  pub offset : String
  pub is_active : String

abbrev present : String → Option String
present s = if str_eq s "" then none else some s

abbrev flag_of : String → Option Bool
flag_of s = if str_eq s "" then none else some (str_eq s "true")

abbrev positive_of : ℤ → ℕ
positive_of (pos n) = if n == 0 then 50 else n
positive_of (negsuc n) = 50

abbrev natural_of : ℤ → ℕ
natural_of (pos n) = n
natural_of (negsuc n) = 0

-- The filter, for a framework's ID that parses or is missing; `atoi` is Atoi's number, which it
-- gives beside an error too.
unfoldable pub filter_of : (String → ℤ) → Query → Option ℕ → ListControlsFilter
filter_of atoi q framework = record {
  framework_id = framework;
  domain = present q.domain;
  article_ref = present q.article_ref;
  parent_id = none;
  is_active = flag_of q.is_active;
  search = present q.search;
  limit = if str_eq q.limit "" then 50 else positive_of (atoi q.limit);
  offset = if str_eq q.offset "" then 0 else natural_of (atoi q.offset);
}

abbrev controls_listed :
    Database → (String → ℤ) → Option String → Query → Tables → ℕ → Option ℕ → Response
controls_listed db atoi (some problem) q t org framework = failure 500 problem
controls_listed db atoi none q t org framework =
    controls_body 200 (list_controls db org (filter_of atoi q framework) t.controls)

abbrev controls_of_framework :
    Database → (String → ℤ) → Option String → Query → Tables → ℕ → Option ℕ → Response
controls_of_framework db atoi error q t org none = failure 400 "invalid framework_id"
controls_of_framework db atoi error q t org (some id) =
    controls_listed db atoi error q t org (some id)

abbrev controls_listing :
    Database
    → (String → Option ℕ)
    → (String → ℤ)
    → Option String
    → Query
    → Tables
    → Option ℕ
    → Tables × Response
controls_listing db parse atoi error q t none = (t, missing_org)
controls_listing db parse atoi error q t (some org) = (
  t,
  if str_eq q.framework_id ""
      then controls_listed db atoi error q t org none
      else controls_of_framework db atoi error q t org (parse q.framework_id),
)

unfoldable pub list_controls_call :
    Database
    → (String → Option ℕ)
    → (String → ℤ)
    → Option String
    → Query
    → Context
    → Tables
    → Tables × Response
unfolding filter_of
list_controls_call db parse atoi error q ctx t =
    controls_listing db parse atoi error q t (org_id_from_context ctx)

abbrev control_created : Tables → Inserted → Tables × Response
control_created t (inserted rows c) = (record t { controls = rows }, control_body 201 c)
control_created t (refused problem) = (t, failure 400 problem)

abbrev control_creating :
    Database
    → (String → String → Bool)
    → ℕ
    → ℕ
    → Option String
    → Body CreateControlRequest
    → Tables
    → Option ℕ
    → Tables × Response
control_creating db less id now error body t none = (t, missing_org)
control_creating db less id now error malformed t (some org) =
    (t, failure 400 "invalid request body")
control_creating db less id now error (decoded req) t (some org) =
    control_created t (create_control db less id now error org req t.controls)

unfoldable pub create_control_call :
    Database
    → (String → String → Bool)
    → ℕ
    → ℕ
    → Option String
    → Body CreateControlRequest
    → Context
    → Tables
    → Tables × Response
create_control_call db less id now error body ctx t =
    control_creating db less id now error body t (org_id_from_context ctx)

abbrev assessed_as : Tables × Result (Option ControlAssessment) → Tables × Response
assessed_as (t, ok a) = (t, assessment_body 200 a)
assessed_as (t, err problem) = (t, failure 400 problem)

abbrev assessing :
    (String → String)
    → ℕ
    → ℕ
    → Failures
    → Option ℕ
    → Body AssessControlRequest
    → Tables
    → Option ℕ
    → Tables × Response
assessing quote id now failures control body t none = (t, missing_org)
assessing quote id now failures none body t (some org) = (t, failure 400 "invalid control ID")
assessing quote id now failures (some control) malformed t (some org) =
    (t, failure 400 "invalid request body")
assessing quote id now failures (some control) (decoded req) t (some org) =
    assessed_as (assess_control quote id now failures control org req t)

unfoldable pub assess_control_call :
    (String → String)
    → ℕ
    → ℕ
    → Failures
    → Option ℕ
    → Body AssessControlRequest
    → Context
    → Tables
    → Tables × Response
assess_control_call quote id now failures control body ctx t =
    assessing quote id now failures control body t (org_id_from_context ctx)
